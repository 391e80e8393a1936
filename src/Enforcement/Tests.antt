-- ===== src/Enforcement/Tests.antt =====
-- Runs of the kill switch and the trusted limits, and their theorems at concrete inputs.
use packetyeeter.Common.{◌≡◌, ◌↔◌, ◌⊎◌, ◌≢◌, true, false, none, some, [], ◌∷◌, All}
use packetyeeter.ScrubRules.Types.{ProtoRule, drop}
use packetyeeter.RuleStore.{Scopes, command_rules, is_pass}
use packetyeeter.Enforcement.{
  EnforcementState, block_ip, block_cidr, running, stop, status, enforcing,
  suppressed_by_kill_switch,
}
use packetyeeter.Enforcement.Laws.{stop_each, stopped-Relieves}

abbrev drop_rule : ProtoRule
drop_rule = record {
  id = "edge/1";
  dst_prefix = "0.0.0.0/8";
  protocols = [];
  src_ports = [];
  dst_ports = [];
  pkt_len = none;
  tcp_flags_mask = 0;
  tcp_flags_value = 0;
  fragment = none;
  src_prefixes = [];
  action = drop;
  rate_pps = 0;
  expires_at = some 9_000_000_000;
  priority = 1;
}

abbrev stored : Scopes
stored = ("edge", ("edge/1", drop_rule) ∷ []) ∷ []

abbrev pulled : EnforcementState
pulled = stop_each ("again" ∷ []) (stop "" running)

stopped-Relieves_example :
    All (λ r. is_pass r.action ≡ true) (command_rules 1000 (enforcing false pulled) stored)
    × (suppressed_by_kill_switch pulled block_cidr ≡ true
        ↔ (block_cidr ≡ block_ip) ⊎ (block_cidr ≡ block_cidr))
    × ((status pulled).0 ≡ true)
    × ((status pulled).1 ≢ "")
stopped-Relieves_example = stopped-Relieves "" ("again" ∷ []) false 1000 stored block_cidr running

-- ===== src/RuleEngine/Tests.antt =====
-- Runs of the rule engine over a kernel held in memory, and the theorems at concrete inputs.
use packetyeeter.Common.{
  ◌≡◌, ◌≢◌, refl, String, Bool, true, false, Option, none, some, List, [], ◌∷◌, if◌then◌else◌, ltb,
  arith,
}
use packetyeeter.ScrubRules.Types.{Prefix, ProtoRule, Rule, drop, rule_slots}
use packetyeeter.ScrubRules.Parse.{empty_body}
use packetyeeter.Common.Assoc.{Map}
use packetyeeter.ScrubRules.Flatten.{flatten, split_families}
use packetyeeter.RuleEngine.Kernel.{RuleMaps, Trie}
use packetyeeter.RuleEngine.State.{new_rule_engine, slot_entries}
use packetyeeter.RuleEngine.Install.{install}
use packetyeeter.RuleEngine.Apply.{RuleSetDelta}
use packetyeeter.RuleEngine.Slots.{owners}
use packetyeeter.RuleEngine.Run.{Event, delta_at, tick_at, run, run-owners}
use packetyeeter.RuleEngine.Atomic.{Outcome, install-Outcome}
use packetyeeter.RuleEngine.Tries.{Synced}

-- Both tries, and whether the IPv6 map refuses updates.
record Memory : Type 0 where
  trie4 : Trie
  trie6 : Trie
  broken6 : Bool

abbrev swap : Bool → Trie → Memory → Memory × Option String
swap false t k = (record k { trie4 = t }, none)
swap true t k = if k.broken6 then (k, some "map full") else (record k { trie6 = t }, none)

abbrev live : Bool → Memory → Trie
live false k = k.trie4
live true k = k.trie6

live-swap :
    (fam : Bool) (t : Trie) (k : Memory) → (swap fam t k).1 ≡ none → live fam (swap fam t k).0 ≡ t
live-swap fam t k h = ground arith

live-swap_failed :
    (fam v6 : Bool) (t : Trie) (k : Memory) (e : String)
    → (swap v6 t k).1 ≡ some e
    → live fam (swap v6 t k).0 ≡ live fam k
live-swap_failed fam v6 t k e h = ground arith

live-swap_ne :
    (fam v6 : Bool) (t : Trie) (k : Memory) → v6 ≢ fam → live fam (swap v6 t k).0 ≡ live fam k
live-swap_ne fam v6 t k h = ground arith

abbrev memory : RuleMaps
memory = record {
  K = Memory;
  put_rule_body = λ slot b k. (k, none);
  reset_rule_bucket = λ slot k. (k, none);
  swap_rule_trie = swap;
  live = live;
  live-put = λ fam slot b k. refl;
  live-reset = λ fam slot k. refl;
  live-swap = live-swap;
  live-swap_failed = live-swap_failed;
  live-swap_ne = live-swap_ne;
}

abbrev clear : Memory
clear = record { trie4 = []; trie6 = []; broken6 = false }

abbrev parse_prefix : String → Option Prefix
parse_prefix s = some (record { is4 = true; addr = 0; bits = 0 })

abbrev drop_all : ProtoRule
drop_all = record {
  id = "a/1";
  dst_prefix = "0.0.0.0/0";
  protocols = [];
  src_ports = [];
  dst_ports = [];
  pkt_len = none;
  tcp_flags_mask = 0;
  tcp_flags_value = 0;
  fragment = none;
  src_prefixes = [];
  action = drop;
  rate_pps = 0;
  expires_at = some 100;
  priority = 0;
}

abbrev one_rule : RuleSetDelta
one_rule = record { upsert = drop_all ∷ []; remove = []; replace = true }

abbrev history : List Event
history = delta_at one_rule 10 ∷ tick_at 100 ∷ []

run-owners_example :
    owners 7 (run memory parse_prefix (new_rule_engine, clear) history).0
    ≡ (if ltb 7 rule_slots then 1 else 0)
run-owners_example = run-owners memory parse_prefix clear history 7

new-Synced : Synced memory new_rule_engine clear
unfolding new_rule_engine flatten split_families slot_entries
new-Synced = record { v4 = ([], refl, refl); v6 = ([], refl, refl) }

abbrev rules_next : Map String Rule
rules_next =
    (
      "a/1",
      record {
        id = "a/1";
        priority = 0;
        dst = record { is4 = true; addr = 0; bits = 0 };
        expires = 100;
        body = empty_body;
      },
    )
    ∷ []

install-Outcome_example :
    Outcome memory new_rule_engine clear rules_next
      (install memory rules_next 10 new_rule_engine clear)
install-Outcome_example = install-Outcome memory new_rule_engine clear rules_next 10 new-Synced

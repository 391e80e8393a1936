-- ===== src/ScrubRules/Parse.antt =====
-- Parse of pkg/scrubrules/scrubrules.go. netip.ParsePrefix is the parameter `parse_prefix`.
pub mod Accepted
use Prim.Native.Nat.{bit_and, bit_xor}
use packetyeeter.Common.{
  ℕ, ◌/◌, ◌%◌, ◌^◌, String, Bool, true, false, not, ◌&&◌, ◌||◌, Option, none, some, List, [], ◌∷◌,
  if◌then◌else◌, ltb, leb, length, any, replicate, ◌==◌, nat_key, string_key, bool_key,
}
use packetyeeter.Common.Result.{Result, ok, err, ◌>>=◌, ◌>>◌, reject}
use packetyeeter.ScrubRules.Types.{
  Prefix, PortRange, ProtoRule, RuleAction, ScrubRule, RulePrefix, Rule, masked, unspecified, drop,
  rate_limit, pass, unknown, rule_action_drop, rule_action_rate_limit, rule_action_pass,
  rule_frag_any, rule_frag_only, rule_frag_none, rule_max_sources, rule_max_ranges,
}
use packetyeeter.ScrubRules.Ports.{PortsError, port_ranges, port_array}
use packetyeeter.ScrubRules.Sources.{or_at, rate_window, encode_sources}

pub data ParseError : Type 0 where
  no_id bad_dst_prefix no_expiry already_expired rate_without_pps unsupported_action : ParseError
  pps_without_rate ports_need_protocol flags_need_tcp protocol_out_of_range : ParseError
  pkt_len_invalid flags_too_wide flags_outside_mask too_many_sources : ParseError
  bad_src_prefix source_family : ParseError
  bad_src_ports bad_dst_ports : PortsError → ParseError

-- The zero value of ebpf.ScrubRule.
abbrev pub empty_body : ScrubRule
empty_body = record {
  proto_bits = replicate 4 0;
  rate_window_ns = 0;
  rate_budget = 0;
  sources = replicate rule_max_sources (record { addr = replicate 16 0; mask = replicate 16 0 });
  src_ports = replicate rule_max_ranges (record { from = 0; to = 0 });
  dst_ports = replicate rule_max_ranges (record { from = 0; to = 0 });
  len_from = 0;
  len_to = 0;
  action = 0;
  any_proto = 0;
  n_sources = 0;
  n_src_ports = 0;
  n_dst_ports = 0;
  fragment = rule_frag_any;
  tcp_flags_mask = 0;
  tcp_flags_value = 0;
  src_bsearch = 0;
  src_lo = 0;
  src_hi = 0;
}

-- The switch on the action.
pub parse_action : RuleAction → ℕ → ScrubRule → Result ParseError ScrubRule
parse_action drop pps b = ok (record b { action = rule_action_drop })
parse_action pass pps b = ok (record b { action = rule_action_pass })
parse_action rate_limit pps b = do
  reject (pps == 0) rate_without_pps
  let window = rate_window pps
  ok (record b {
    action = rule_action_rate_limit;
    rate_window_ns = window.0;
    rate_budget = window.1;
  })
parse_action unspecified pps b = err unsupported_action
parse_action (unknown n) pps b = err unsupported_action

abbrev pub is_empty {ℓ} : {A : Type ℓ} → List A → Bool
is_empty [] = true
is_empty (x ∷ xs) = false

-- The closure `allows`.
pub allows : ProtoRule → ℕ → Bool
allows pr proto = is_empty pr.protocols || any (λ p. p == proto) pr.protocols

-- The loop that sets a bit of `proto_bits` for each protocol.
pub set_protocols : List ℕ → List ℕ → Result ParseError (List ℕ)
set_protocols [] words = ok words
set_protocols (p ∷ rest) words = do
  reject (ltb 255 p) protocol_out_of_range
  set_protocols rest (or_at words (p / 64) (2 ^ (p % 64)))

abbrev pub ports_error :
    {A : Type 0} → (PortsError → ParseError) → Result PortsError A → Result ParseError A
ports_error wrap (ok a) = ok a
ports_error wrap (err e) = err (wrap e)

-- The packet length; 0-0 and an absent range leave it unset.
pub parse_length : Option PortRange → ScrubRule → Result ParseError ScrubRule
parse_length none b = ok b
parse_length (some l) b = if l.from == 0 && l.to == 0 then ok b else do
  reject (ltb l.to l.from || ltb 65535 l.to || l.to == 0) pkt_len_invalid
  ok (record b { len_from = l.from % 2 ^ 16; len_to = l.to % 2 ^ 16 })

abbrev pub fragment_code : Option Bool → ℕ
fragment_code none = rule_frag_any
fragment_code (some true) = rule_frag_only
fragment_code (some false) = rule_frag_none

-- x &^ y
abbrev pub and_not : ℕ → ℕ → ℕ
and_not x y = bit_xor x (bit_and x y)

abbrev pub expiry : Option ℕ → Result ParseError ℕ
expiry none = err no_expiry
expiry (some at) = ok at

module _ (parse_prefix : String → Option Prefix) where
  abbrev pub prefix_or : ParseError → String → Result ParseError Prefix
  prefix_or e s = elim (parse_prefix s) [ none ↦ err e | some p ↦ ok p ]

  pub parse_sources : Bool → List String → Result ParseError (List Prefix)
  parse_sources v4 [] = ok []
  parse_sources v4 (s ∷ rest) = do
    src ← prefix_or bad_src_prefix s
    reject (not (src.is4 == v4)) source_family
    srcs ← parse_sources v4 rest
    ok (masked src ∷ srcs)

  -- The kernel body, from `b := &r.Body` to the end.
  unfoldable pub parse_body : ProtoRule → Bool → Result ParseError ScrubRule
  unfolding parse_action allows set_protocols parse_length parse_sources encode_sources port_ranges
      port_array rate_window
  parse_body pr v4 = do
    acted ← parse_action pr.action pr.rate_pps empty_body
    reject (not (pr.rate_pps == 0) && not (acted.action == rule_action_rate_limit)) pps_without_rate
    reject
        ((not (is_empty pr.src_ports) || not (is_empty pr.dst_ports))
          && not (allows pr 6)
          && not (allows pr 17))
        ports_need_protocol
    reject (not (pr.tcp_flags_mask == 0) && not (allows pr 6)) flags_need_tcp
    proto_bits ← set_protocols pr.protocols acted.proto_bits
    src_ports ← ports_error bad_src_ports (port_ranges pr.src_ports)
    dst_ports ← ports_error bad_dst_ports (port_ranges pr.dst_ports)
    sized ← parse_length pr.pkt_len (record acted {
      any_proto = if is_empty pr.protocols then 1 else 0;
      proto_bits = proto_bits;
      src_ports = port_array src_ports;
      n_src_ports = length src_ports % 2 ^ 8;
      dst_ports = port_array dst_ports;
      n_dst_ports = length dst_ports % 2 ^ 8;
    })
    reject (ltb 255 pr.tcp_flags_mask || ltb 255 pr.tcp_flags_value) flags_too_wide
    reject (not (and_not pr.tcp_flags_value pr.tcp_flags_mask == 0)) flags_outside_mask
    reject (ltb rule_max_sources (length pr.src_prefixes)) too_many_sources
    srcs ← parse_sources v4 pr.src_prefixes
    ok (
        encode_sources
          (record sized {
            tcp_flags_mask = pr.tcp_flags_mask % 2 ^ 8;
            tcp_flags_value = pr.tcp_flags_value % 2 ^ 8;
            fragment = fragment_code pr.fragment;
          })
          srcs v4)

  unfoldable pub parse : ProtoRule → ℕ → Result ParseError Rule
  parse pr now = do
    reject (pr.id == "") no_id
    dst ← prefix_or bad_dst_prefix pr.dst_prefix
    expires ← expiry pr.expires_at
    reject (leb expires now) already_expired
    body ← parse_body pr dst.is4
    ok (record {
      id = pr.id;
      priority = pr.priority;
      dst = masked dst;
      expires = expires;
      body = body;
    })

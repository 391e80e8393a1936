-- ===== src/ScrubRules/Types.antt =====
-- The data of pkg/scrubrules/scrubrules.go: destination prefixes as net/netip holds them, the rule
-- message of api/proto/v1/packetyeeter.proto, and the kernel layouts of
-- pkg/collector/ebpf/rules.go. Times are nanoseconds since Go's zero time.
use packetyeeter.Common.{
  ℕ, ◌-◌, ◌*◌, ◌/◌, ◌^◌, ◌≡◌, ◌↔◌, String, Bool, true, false, ◌&&◌, Option, List, arith, Key,
  nat_beq, if◌then◌else◌,
}

-- netip.Prefix: the address as a 32-bit or 128-bit number.
pub record Prefix : Type 0 where
  pub is4 : Bool
  pub addr : ℕ
  pub bits : ℕ

abbrev pub prefix_beq : Prefix → Prefix → Bool
prefix_beq p q =
    (if p.is4 then q.is4 else (if q.is4 then false else true))
    && nat_beq p.addr q.addr
    && nat_beq p.bits q.bits

pub prefix_beq_iff : (p q : Prefix) → (prefix_beq p q ≡ true) ↔ (p ≡ q)
prefix_beq_iff p q = ground arith

instance abbrev pub prefix_key : Key Prefix
prefix_key = record { same = prefix_beq; same_iff = prefix_beq_iff }

-- Addr.BitLen
abbrev pub bit_len : Bool → ℕ
bit_len is4 = if is4 then 32 else 128

-- Addr.Prefix(bits): the address with only its first `bits` bits kept.
abbrev pub ancestor : Prefix → ℕ → Prefix
ancestor p bits =
    let low : ℕ = 2 ^ (bit_len p.is4 - bits) in record p { addr = p.addr / low * low; bits = bits }

-- Prefix.Masked
abbrev pub masked : Prefix → Prefix
masked p = ancestor p p.bits

pub record PortRange : Type 0 where
  pub from : ℕ
  pub to : ℕ

pub data RuleAction : Type 0 where
  unspecified drop rate_limit pass : RuleAction
  unknown : ℕ → RuleAction

-- apiv1.Rule
pub record ProtoRule : Type 0 where
  pub id : String
  pub dst_prefix : String
  pub protocols : List ℕ
  pub src_ports : List PortRange
  pub dst_ports : List PortRange
  pub pkt_len : Option PortRange
  pub tcp_flags_mask : ℕ
  pub tcp_flags_value : ℕ
  pub fragment : Option Bool
  pub src_prefixes : List String
  pub action : RuleAction
  pub rate_pps : ℕ
  pub expires_at : Option ℕ
  pub priority : ℕ

abbrev pub rules_max : ℕ
rules_max = 4096

abbrev pub rule_slots : ℕ
rule_slots = 16384

abbrev pub rules_per_dst : ℕ
rules_per_dst = 32

abbrev pub rule_max_ranges : ℕ
rule_max_ranges = 8

abbrev pub rule_max_sources : ℕ
rule_max_sources = 8

abbrev pub rule_action_drop : ℕ
rule_action_drop = 1

abbrev pub rule_action_rate_limit : ℕ
rule_action_rate_limit = 2

abbrev pub rule_action_pass : ℕ
rule_action_pass = 3

abbrev pub rule_frag_any : ℕ
rule_frag_any = 0

abbrev pub rule_frag_only : ℕ
rule_frag_only = 1

abbrev pub rule_frag_none : ℕ
rule_frag_none = 2

-- RulePrefix: sixteen bytes of address and of mask, in network byte order.
pub record RulePrefix : Type 0 where
  pub addr : List ℕ
  pub mask : List ℕ

-- ScrubRule, the fixed arrays as lists of their length.
pub record ScrubRule : Type 0 where
  pub proto_bits : List ℕ
  pub rate_window_ns : ℕ
  pub rate_budget : ℕ
  pub sources : List RulePrefix
  pub src_ports : List PortRange
  pub dst_ports : List PortRange
  pub len_from : ℕ
  pub len_to : ℕ
  pub action : ℕ
  pub any_proto : ℕ
  pub n_sources : ℕ
  pub n_src_ports : ℕ
  pub n_dst_ports : ℕ
  pub fragment : ℕ
  pub tcp_flags_mask : ℕ
  pub tcp_flags_value : ℕ
  pub src_bsearch : ℕ
  pub src_lo : ℕ
  pub src_hi : ℕ

-- scrubrules.Rule
pub record Rule : Type 0 where
  pub id : String
  pub priority : ℕ
  pub dst : Prefix
  pub expires : ℕ
  pub body : ScrubRule

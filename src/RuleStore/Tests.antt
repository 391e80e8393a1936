-- ===== src/RuleStore/Tests.antt =====
-- Runs of the rule store and its theorems at concrete inputs.
use native.Mathlib.Decide.{ℕ_discrete}
use packetyeeter.Common.{
  ℕ, keep, not, nat_key, ◌≡◌, refl, inl, inr, ◌==◌, string_key, eq_iff, Bool-cases, String, Bool,
  true, false, Option, none, some, [], ◌∷◌, All, arith,
}
use packetyeeter.Common.Assoc.{Map}
use packetyeeter.Common.Result.{ok}
use packetyeeter.Common.Sort.{sort}
use packetyeeter.ScrubRules.Types.{Prefix, ProtoRule, Rule, pass}
use packetyeeter.ScrubRules.Parse.{parse, parse_body}
use packetyeeter.ScrubRules.Flatten.{check_capacity, flatten}
use packetyeeter.RuleEngine.Apply.{upsert_rules}
use packetyeeter.RuleStore.{Scopes, push_rules, replace, desired, command_rules}
use packetyeeter.RuleStore.Laws.{IsSendable, desired-IsSendable}
use packetyeeter.RuleStore.Persist.{
  Bytes, PersistedRules, Disk, encode_set, encode_scopes, encode_state_of, last_disk, save,
}
use packetyeeter.RuleStore.Restore.{scope_before, load}
use packetyeeter.RuleStore.Intact.{IsIntact, IsDone, save-IsIntact}
use packetyeeter.RuleStore.Restored.{restore_valid}
use packetyeeter.RuleStore.RoundTrip.{works, rewritten}
use packetyeeter.RuleStore.Loaded.{load-IsAccepted}
use packetyeeter.RuleStore.Accepted.{IsAccepted, push_rules-IsAccepted, collector_accepts}

abbrev parse_prefix : String → Option Prefix
parse_prefix s = some (record { is4 = true; addr = 0; bits = 8 })

abbrev size_of : ProtoRule → ℕ
size_of r = 100

abbrev pass_rule : String → ProtoRule
pass_rule id = record {
  id = id;
  dst_prefix = "0.0.0.0/8";
  protocols = [];
  src_ports = [];
  dst_ports = [];
  pkt_len = none;
  tcp_flags_mask = 0;
  tcp_flags_value = 0;
  fragment = none;
  src_prefixes = [];
  action = pass;
  rate_pps = 0;
  expires_at = some 9_000_000_000;
  priority = 1;
}

abbrev stored : Scopes
stored = ("edge", ("edge/1", pass_rule "edge/1") ∷ []) ∷ []

push_run : push_rules parse_prefix size_of true "edge" (pass_rule "1" ∷ []) 1000 [] ≡ ok stored
unfolding push_rules parse parse_body sort check_capacity flatten
push_run = refl

push_rules-IsAccepted_example : IsAccepted parse_prefix stored
push_rules-IsAccepted_example =
    push_rules-IsAccepted parse_prefix size_of true "edge" (pass_rule "1" ∷ []) 1000 [] stored tt
      push_run

desired-IsSendable_example : All (λ p. IsSendable 2000 false p.1) (desired 2000 false stored).1
desired-IsSendable_example = desired-IsSendable 2000 false stored

collector_accepts_example :
    (out : Map String Rule × Map String Bool) × (upsert_rules parse_prefix 5_000_002_000
        (command_rules 2000 false stored)
        []
        []
      ≡ ok out)
collector_accepts_example =
    collector_accepts parse_prefix 2000 5_000_002_000 false stored push_rules-IsAccepted_example
      (omega arith)

-- An encoding of one rule and of one state, and of nothing else.
string_discrete : Discrete String
string_discrete a b = elim (Bool-cases (a == b)) [
  | inl same ↦ yes ((eq_iff a b).0 same)
  | inr other ↦ no (λ p. ground (arith, p, eq_iff a b))
]

rule_discrete : Discrete ProtoRule
rule_discrete = hlevel (string_discrete, ℕ_discrete)

state_discrete : Discrete PersistedRules
state_discrete = hlevel (string_discrete, ℕ_discrete)

abbrev only : {A : Type 0} → {x y : A} → Dec (x ≡ y) → Option Bytes
only (yes p) = some (1 ∷ [])
only (no n) = none

only_same : {A : Type 0} (x : A) (d : Dec (x ≡ x)) → only d ≡ some (1 ∷ [])
only_same x (yes p) = refl
only_same x (no n) = absurd (n refl)

abbrev state : PersistedRules
state = record { version = 1; saved = 1000; scopes = ("edge", ("edge/1", 32 ∷ 1 ∷ []) ∷ []) ∷ [] }

-- The encoder of rules writes a space in front, which the encoder of the document drops.
abbrev spaced : Option Bytes → Option Bytes
spaced none = none
spaced (some raw) = some (32 ∷ raw)

abbrev compact : Bytes → Bytes
compact raw = keep (λ b. not (b == 32)) raw

abbrev marshal : ProtoRule → Option Bytes
marshal r = spaced (only (rule_discrete r (pass_rule "edge/1")))

abbrev unmarshal : Bytes → Option ProtoRule
unmarshal raw = some (pass_rule "edge/1")

abbrev encode_doc : PersistedRules → Option Bytes
encode_doc doc = only (state_discrete doc state)

abbrev decode_doc : Bytes → Option PersistedRules
decode_doc bytes = some (record state { scopes = rewritten compact state.scopes })

abbrev empty_disk : Disk
empty_disk = record { file = none; temp = none; aside = [] }

encoded : encode_state_of marshal encode_doc 1000 stored ≡ ok (1 ∷ [])
unfolding encode_state_of encode_scopes encode_set
encoded =
    rw (only_same (pass_rule "edge/1") (rule_discrete (pass_rule "edge/1") (pass_rule "edge/1")))
      (rw (only_same state (state_discrete state state)) refl)

-- What is valid of the stored rules is all of them.
valid_run : restore_valid parse_prefix size_of 2000 (sort scope_before stored) ([], 0) ≡ (stored, 1)
unfolding sort parse parse_body replace check_capacity flatten
valid_run = refl

-- The write fails half-way.
save-IsIntact_example :
    let out = save marshal encode_doc (λ call. true) (7 ∷ []) 1000 stored empty_disk in
    All (IsIntact empty_disk (1 ∷ [])) out.0
    × IsDone (λ call. true) empty_disk (1 ∷ []) (last_disk empty_disk out.0) out.1
save-IsIntact_example =
    save-IsIntact marshal encode_doc (λ call. true) (7 ∷ []) 1000 stored empty_disk (1 ∷ []) encoded
      refl

load-IsAccepted_example :
    IsAccepted parse_prefix
      (load parse_prefix size_of unmarshal decode_doc works 2000
        (record empty_disk { file = some (5 ∷ []) })
        []).1
load-IsAccepted_example =
    load-IsAccepted parse_prefix size_of unmarshal 2000 decode_doc works
      (record empty_disk { file = some (5 ∷ []) }) [] tt

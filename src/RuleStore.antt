-- ===== src/RuleStore.antt =====
-- The rule store of pkg/analyzer/rules.go: the desired runtime rules of each scope, checked before they are
-- stored and sent. netip.ParsePrefix and proto.Size are the parameters `parse_prefix` and `proto_size`.
pub mod Laws
pub mod Accepted
pub mod Persist
pub mod Restore
pub mod Intact
pub mod Restored
pub mod RoundTrip
pub mod Loaded
pub mod Persistable
mod Tests
use Prim.Native.String.{◌++◌ as concat}
use packetyeeter.Common.{
  ℕ, ◌+◌, ◌*◌, ◌^◌, String, Bool, true, false, not, ◌||◌, Option, none, some, List, [], ◌∷◌, ◌++◌,
  if◌then◌else◌, ltb, leb, ◌==◌, string_key, any, nat_beq,
}
use packetyeeter.Common.Assoc.{Map, get, put, delete, has, values}
use packetyeeter.Common.Result.{Result, ok, err, ◌>>=◌, ◌>>◌, reject}
use packetyeeter.Common.Sort.{sort}
use packetyeeter.Common.Text.{codes, text_before}
use packetyeeter.ScrubRules.Types.{Prefix, ProtoRule, Rule, RuleAction, pass}
use packetyeeter.ScrubRules.Parse.{ParseError, parse}
use packetyeeter.ScrubRules.Flatten.{CapacityError, check_capacity}

abbrev pub rule_expiry_margin : ℕ
rule_expiry_margin = 5_000_000_000

abbrev pub max_rule_set_bytes : ℕ
max_rule_set_bytes = 3 * 2 ^ 20

-- Timestamp.AsTime of an absent timestamp: the Unix epoch.
abbrev pub unix_epoch : ℕ
unix_epoch = 62_135_596_800_000_000_000

abbrev pub RuleSet : Type 0
RuleSet = Map String ProtoRule

abbrev pub Scopes : Type 0
Scopes = Map String RuleSet

pub data StoreError : Type 0 where
  rejected : ParseError → StoreError
  does_not_fit : CapacityError → StoreError
  too_large : ℕ → StoreError
  api_disabled bad_scope : StoreError
  appears_twice : String → StoreError

abbrev pub expires_of : ProtoRule → ℕ
expires_of r = elim r.expires_at [ none ↦ unix_epoch | some at ↦ at ]

abbrev pub is_pass : RuleAction → Bool
is_pass pass = true
is_pass _ = false

abbrev pub lift_parse : {A : Type 0} → Result ParseError A → Result StoreError A
lift_parse (ok a) = ok a
lift_parse (err e) = err (rejected e)

abbrev pub lift_capacity : {A : Type 0} → Result CapacityError A → Result StoreError A
lift_capacity (ok a) = ok a
lift_capacity (err e) = err (does_not_fit e)

module _ (parse_prefix : String → Option Prefix) (proto_size : ProtoRule → ℕ) where
  -- The rules of another scope that still parse, with their size.
  abbrev pub add_parsed :
      String → ProtoRule → Result ParseError Rule → Map String Rule × ℕ → Map String Rule × ℕ
  add_parsed id r (err e) (parsed, size) = (parsed, size)
  add_parsed id r (ok p) (parsed, size) = (put id p parsed, size + proto_size r)

  pub parse_others : ℕ → RuleSet → Map String Rule × ℕ → Map String Rule × ℕ
  parse_others now [] acc = acc
  parse_others now ((id, r) ∷ rest) acc =
      parse_others now rest (add_parsed id r (parse parse_prefix r now) acc)

  pub parse_scopes : String → ℕ → Scopes → Map String Rule × ℕ → Map String Rule × ℕ
  unfolding parse_others
  parse_scopes scope now [] acc = acc
  parse_scopes scope now ((sc, set) ∷ rest) acc =
      parse_scopes scope now rest (if sc == scope then acc else parse_others now set acc)

  -- The new rules, each of which must parse.
  pub parse_all : ℕ → RuleSet → Map String Rule × ℕ → Result StoreError (Map String Rule × ℕ)
  parse_all now [] acc = ok acc
  parse_all now ((id, r) ∷ rest) acc = do
    p ← lift_parse (parse parse_prefix r now)
    parse_all now rest (put id p acc.0, acc.1 + proto_size r)

  -- `replace`: the scopes after it, or the error with the store unchanged.
  pub replace : String → RuleSet → ℕ → Scopes → Result StoreError Scopes
  unfolding parse_scopes parse_all
  replace scope rules now scopes = do
    parsed ← parse_all now rules (parse_scopes scope now scopes ([], 0))
    lift_capacity (check_capacity parsed.0)
    reject (ltb max_rule_set_bytes parsed.1) (too_large parsed.1)
    ok (elim rules [ [] ↦ delete scope scopes | r ∷ rs ↦ put scope (r ∷ rs) scopes ])

-- The loop over one scope: what stays in the set, and the rules to send.
pub desired_set : ℕ → Bool → RuleSet → RuleSet → RuleSet × RuleSet
desired_set now enforcing [] out = ([], out)
desired_set now enforcing ((id, r) ∷ rest) out =
    let gone = desired_set now enforcing rest out in
    let sent = desired_set now enforcing rest (put id r out) in
    if leb (expires_of r) now
    then gone
    else if leb (expires_of r) (now + rule_expiry_margin)
    then ((id, r) ∷ gone.0, gone.1)
    else if enforcing || is_pass r.action
    then ((id, r) ∷ sent.0, sent.1)
    else ((id, r) ∷ gone.0, gone.1)

abbrev keep_scope : String → RuleSet → Scopes → Scopes
keep_scope scope [] rest = rest
keep_scope scope (r ∷ rs) rest = (scope, r ∷ rs) ∷ rest

pub desired_scopes : ℕ → Bool → Scopes → RuleSet → Scopes × RuleSet
unfolding desired_set
desired_scopes now enforcing [] out = ([], out)
desired_scopes now enforcing ((scope, set) ∷ rest) out =
    let here = desired_set now enforcing set out in
    let more = desired_scopes now enforcing rest here.1 in (keep_scope scope here.0 more.0, more.1)

-- `desired`: the scopes that are left, and the rules that every scrub collector should hold.
pub desired : ℕ → Bool → Scopes → Scopes × RuleSet
unfolding desired_scopes
desired now enforcing scopes = desired_scopes now enforcing scopes []

abbrev pub id_before : ProtoRule → ProtoRule → Bool
id_before x y = text_before x.id y.id

-- The upserts of ruleSetCommand, which replaces everything on a collector.
abbrev pub command_rules : ℕ → Bool → Scopes → List ProtoRule
command_rules now enforcing scopes = sort id_before (values (desired now enforcing scopes).1)

module _ (parse_prefix : String → Option Prefix) (proto_size : ProtoRule → ℕ) where
  -- The loop of PushRules that checks the rules and puts the scope in front of their ids.
  pub wire_rules : String → ℕ → List ProtoRule → RuleSet → Result StoreError RuleSet
  wire_rules scope now [] wire = ok wire
  wire_rules scope now (r ∷ rest) wire = do
    parsed ← lift_parse (parse parse_prefix r now)
    let id = concat scope (concat "/" r.id)
    reject (has id wire) (appears_twice r.id)
    wire_rules scope now rest (put id (record r { id = id }) wire)

  abbrev is_bad_scope : String → Bool
  is_bad_scope scope = scope == "" || any (λ c. nat_beq c b'/') (codes scope)

  -- PushRules up to the change of the store.
  pub push_rules : Bool → String → List ProtoRule → ℕ → Scopes → Result StoreError Scopes
  unfolding wire_rules replace
  push_rules enabled scope rules now scopes = do
    reject (not enabled) api_disabled
    reject (is_bad_scope scope) bad_scope
    wire ← wire_rules scope now rules []
    replace parse_prefix proto_size scope wire now scopes

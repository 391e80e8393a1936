-- ===== src/RuleStore/Persistable.antt =====
-- What PushRules puts into the store can be saved.
use Prim.Native.String.{◌++◌ as concat}
use Prim.Native.String.{String}
use Prim.Native.Char.{code}
use text.Mathlib.TextLemmas as T
use packetyeeter.Common.{
  ℕ, ◌≡◌, refl, sym, ap, ◌∙◌, subst, Bool, true, false, not, Option, List, [], ◌∷◌, ◌++◌, arith,
  string_key, nat_key, nat_beq_iff, ltb,
}
use packetyeeter.Common.Assoc.{put, delete, has, All-put, All-delete, IsUnique-put}
use packetyeeter.Common.Result.{ok, reject, >>=-ok}
use packetyeeter.Common.Text.{codes}
use packetyeeter.ScrubRules.Types.{Prefix, ProtoRule}
use packetyeeter.ScrubRules.Parse.{parse}
use packetyeeter.ScrubRules.Flatten.{check_capacity}
use packetyeeter.RuleStore.{
  RuleSet, Scopes, StoreError, api_disabled, bad_scope, appears_twice, too_large,
  max_rule_set_bytes, parse_all, parse_scopes, replace, wire_rules, push_rules, is_bad_scope,
  lift_parse, lift_capacity,
}
use packetyeeter.RuleStore.Restore.{starts_with, in_scope, invalid_scope}
use packetyeeter.RuleStore.Restored.{IsScopeSet, IsPersistable}

pub starts_with-append : (xs ys : List ℕ) → starts_with xs (xs ++ ys) ≡ true
starts_with-append [] ys = refl
starts_with-append (x ∷ xs) ys = ground (arith, nat_beq_iff x x, starts_with-append xs ys)

pub codes-concat : (a b : String) → codes (concat a b) ≡ codes a ++ codes b
codes-concat String.[] b = ap codes (T.nil-append b)
codes-concat (String.◌∷◌ c a) b =
    ap codes (T.cons-append c a b) ∙ ap (λ z. code c ∷ z) (codes-concat a b)

pub wire_in_scope : (scope id : String) → in_scope scope (concat scope (concat "/" id)) ≡ true
wire_in_scope scope id =
    subst (λ z. starts_with (codes (concat scope "/")) z ≡ true)
      (sym (codes-concat (concat scope "/") id) ∙ ap codes (T.append_assoc scope "/" id))
      (starts_with-append (codes (concat scope "/")) (codes id))

module _ (parse_prefix : String → Option Prefix) (proto_size : ProtoRule → ℕ) where
  pub wire_rules-IsScopeSet :
      (scope : String) (now : ℕ) (rules : List ProtoRule) (wire out : RuleSet)
      → IsScopeSet scope wire
      → wire_rules parse_prefix proto_size scope now rules wire ≡ ok out
      → IsScopeSet scope out
  unfolding wire_rules
  wire_rules-IsScopeSet scope now [] wire out v h =
      let q : wire ≡ out = ground (arith, h) in subst (IsScopeSet scope) q v
  wire_rules-IsScopeSet scope now (r ∷ rest) wire out (u, names) h =
      let id = concat scope (concat "/" r.id) in
      let s = >>=-ok (lift_parse (parse parse_prefix r now)) _ h in
      let t = >>=-ok (reject (has id wire) (appears_twice r.id)) _ s.2 in
      let named = record r { id = id } in
      wire_rules-IsScopeSet scope now rest (put id named wire) out
        (
          IsUnique-put id named wire u,
          All-put (λ p. (p.1.id ≡ p.0) × (in_scope scope p.0 ≡ true)) id named wire
              (λ j e.
                (sym e, subst (λ i. in_scope scope i ≡ true) (sym e) (wire_in_scope scope r.id)))
              names,
        )
        t.2

  pub replace-IsPersistable :
      (scope : String) (rules : RuleSet) (now : ℕ) (scopes out : Scopes)
      → invalid_scope scope ≡ false
      → IsScopeSet scope rules
      → IsPersistable scopes
      → replace parse_prefix proto_size scope rules now scopes ≡ ok out
      → IsPersistable out
  unfolding replace
  replace-IsPersistable scope rules now scopes out good v a h =
      let s =
        >>=-ok
          (parse_all parse_prefix proto_size now rules
            (parse_scopes parse_prefix proto_size scope now scopes ([], 0)))
          _ h in
      let t = >>=-ok (lift_capacity (check_capacity s.0.0)) _ s.2 in
      let u = >>=-ok (reject (ltb max_rule_set_bytes s.0.1) (too_large s.0.1)) _ t.2 in
      kept rules v (ground arith)
    where
      kept :
          (rs : RuleSet)
          → IsScopeSet scope rs
          → elim rs [ [] ↦ delete scope scopes | r ∷ more ↦ put scope (r ∷ more) scopes ] ≡ out
          → IsPersistable out
      kept [] p k = subst IsPersistable k (All-delete _ scope scopes a)
      kept (r ∷ more) p k = subst IsPersistable k (
          All-put (λ s. (invalid_scope s.0 ≡ false) × IsScopeSet s.0 s.1) scope (r ∷ more) scopes
            (λ j e. (
              subst (λ z. invalid_scope z ≡ false) (sym e) good,
              subst (λ z. IsScopeSet z (r ∷ more)) (sym e) p,
            ))
            a)

  pub rejected_not : (b : Bool) (e : StoreError) (u : Unit {0}) → reject b e ≡ ok u → b ≡ false
  rejected_not false e u h = refl
  rejected_not true e u h = cc

  -- Whatever PushRules stores can be saved and restored: every rule is under its own id in its scope, and the name
  -- of the scope is one that a load takes.
  pub push_rules-IsPersistable :
      (enabled : Bool) (scope : String) (rules : List ProtoRule) (now : ℕ) (scopes out : Scopes)
      → IsPersistable scopes
      → push_rules parse_prefix proto_size enabled scope rules now scopes ≡ ok out
      → IsPersistable out
  unfolding push_rules
  push_rules-IsPersistable enabled scope rules now scopes out a h =
      let s = >>=-ok (reject (not enabled) api_disabled) _ h in
      let t = >>=-ok (reject (is_bad_scope parse_prefix proto_size scope) bad_scope) _ s.2 in
      let w = >>=-ok (wire_rules parse_prefix proto_size scope now rules []) _ t.2 in
      replace-IsPersistable scope w.0 now scopes out (rejected_not _ bad_scope t.0 t.1)
        (wire_rules-IsScopeSet scope now rules [] w.0 (tt, tt) w.1) a w.2

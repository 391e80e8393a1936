-- ===== src/RuleStore/Accepted.antt =====
-- What PushRules stores, every collector accepts: the analyzer's checks and the collector's agree.
use Prim.Native.String.{◌++◌ as concat}
use packetyeeter.Common.{
  ℕ, ◌+◌, ◌≤◌, ◌≡◌, refl, ◌≢◌, String, Bool, true, false, not, Option, List, [], ◌∷◌, arith, All,
  All-map_imp, ltb, string_key, eq_iff, sym, subst,
}
use packetyeeter.Common.Assoc.{
  All-put, All-delete, Map, put, delete, values, IsUnique, Misses, has, has-put,
}
use packetyeeter.Common.Result.{Result, ok, err, reject, >>=-ok}
use packetyeeter.Common.Sort.{sort, insert, All-sort, All-insert}
use packetyeeter.ScrubRules.Types.{Prefix, ProtoRule, Rule}
use packetyeeter.ScrubRules.Parse.{ParseError, parse}
use packetyeeter.ScrubRules.Parse.Accepted.{parse_later, parse_fields}
use packetyeeter.ScrubRules.Flatten.{check_capacity}
use packetyeeter.RuleEngine.Apply.{upsert_rules}
use packetyeeter.RuleStore.{
  RuleSet, Scopes, api_disabled, bad_scope, appears_twice, too_large, parse_all, parse_scopes,
  replace, wire_rules, push_rules, is_bad_scope, desired, command_rules, id_before,
  rule_expiry_margin, lift_parse, lift_capacity, max_rule_set_bytes,
}
use packetyeeter.RuleStore.Laws.{All-intro, Sends, desired-All, IsUnique-desired}

module _ (parse_prefix : String → Option Prefix) where
  -- A rule stands under its own id, and was accepted at some time.
  abbrev pub IsStored : String × ProtoRule → Type 0
  IsStored p = (p.1.id ≡ p.0) × ((t : ℕ) × (q : Rule) × (parse parse_prefix p.1 t ≡ ok q))

  abbrev pub IsAccepted : Scopes → Type 0
  IsAccepted scopes = All (λ s. All IsStored s.1) scopes

  lift_parse-ok : (o : Result ParseError Rule) (q : Rule) → lift_parse o ≡ ok q → o ≡ ok q
  lift_parse-ok (ok p) q h = ground arith
  lift_parse-ok (err e) q h = cc

  parse_all-parses :
      (proto_size : ProtoRule → ℕ) (now : ℕ) (rules : RuleSet) (acc out : Map String Rule × ℕ)
      → All (λ p. p.1.id ≡ p.0) rules
      → parse_all parse_prefix proto_size now rules acc ≡ ok out
      → All IsStored rules
  unfolding parse_all
  parse_all-parses size now [] acc out ids h = tt
  parse_all-parses size now ((id, r) ∷ rest) acc out ids h =
      let s =
        >>=-ok (lift_parse (parse parse_prefix r now))
          (λ p. parse_all parse_prefix size now rest (put id p acc.0, acc.1 + size r)) h in
      ((ids.0, (now, s.0, lift_parse-ok _ _ s.1)), parse_all-parses size now rest _ out ids.1 s.2)

  wire_rules-ids :
      (proto_size : ProtoRule → ℕ) (scope : String) (now : ℕ) (rules : List ProtoRule)
      (wire out : RuleSet)
      → All (λ p. p.1.id ≡ p.0) wire
      → wire_rules parse_prefix proto_size scope now rules wire ≡ ok out
      → All (λ p. p.1.id ≡ p.0) out
  unfolding wire_rules
  wire_rules-ids size scope now [] wire out ids h =
      subst (All (λ p. p.1.id ≡ p.0)) (ground arith) ids
  wire_rules-ids size scope now (r ∷ rest) wire out ids h =
      let s = >>=-ok (lift_parse (parse parse_prefix r now)) _ h in
      let t =
        >>=-ok (reject (has (concat scope (concat "/" r.id)) wire) (appears_twice r.id)) _ s.2 in
      wire_rules-ids size scope now rest _ out (All-put _ _ _ wire (λ j e. sym e) ids) t.2

  pub replace-IsAccepted :
      (proto_size : ProtoRule → ℕ) (scope : String) (rules : RuleSet) (now : ℕ)
      (scopes out : Scopes)
      → All (λ p. p.1.id ≡ p.0) rules
      → IsAccepted scopes
      → replace parse_prefix proto_size scope rules now scopes ≡ ok out
      → IsAccepted out
  unfolding replace
  replace-IsAccepted size scope rules now scopes out ids a h =
      let s =
        >>=-ok
          (parse_all parse_prefix size now rules
            (parse_scopes parse_prefix size scope now scopes ([], 0)))
          _ h in
      let t = >>=-ok (lift_capacity (check_capacity s.0.0)) _ s.2 in
      let u = >>=-ok (reject (ltb max_rule_set_bytes s.0.1) (too_large s.0.1)) _ t.2 in
      stored rules (parse_all-parses size now rules _ s.0 ids s.1) (ground arith)
    where
      stored :
          (rs : RuleSet)
          → All IsStored rs
          → elim rs [ [] ↦ delete scope scopes | r ∷ more ↦ put scope (r ∷ more) scopes ] ≡ out
          → IsAccepted out
      stored [] p k = subst IsAccepted k (All-delete _ scope scopes a)
      stored (r ∷ more) p k = subst IsAccepted k (All-put _ scope (r ∷ more) scopes (λ j e. p) a)

  -- Whatever PushRules stores, every rule in the store is under its own id and was accepted when it was pushed.
  pub push_rules-IsAccepted :
      (proto_size : ProtoRule → ℕ) (enabled : Bool) (scope : String) (rules : List ProtoRule)
      (now : ℕ) (scopes out : Scopes)
      → IsAccepted scopes
      → push_rules parse_prefix proto_size enabled scope rules now scopes ≡ ok out
      → IsAccepted out
  unfolding push_rules
  push_rules-IsAccepted size enabled scope rules now scopes out a h =
      let s = >>=-ok (reject (not enabled) api_disabled) _ h in
      let t = >>=-ok (reject (is_bad_scope parse_prefix size scope) bad_scope) _ s.2 in
      let w = >>=-ok (wire_rules parse_prefix size scope now rules []) _ t.2 in
      replace-IsAccepted size scope w.0 now scopes out
        (wire_rules-ids size scope now rules [] w.0 tt w.1) a w.2

-- The rules of a list have pairwise different ids.
abbrev IsDistinct : List ProtoRule → Type 0
IsDistinct [] = Unit
IsDistinct (r ∷ rest) = All (λ y. y.id ≢ r.id) rest × IsDistinct rest

insert-IsDistinct :
    (r : ProtoRule) (rest : List ProtoRule)
    → All (λ y. y.id ≢ r.id) rest
    → IsDistinct rest
    → IsDistinct (insert id_before r rest)
unfolding insert
insert-IsDistinct r [] a d = (tt, tt)
insert-IsDistinct r (y ∷ ys) a d = ground (
  arith,
  All-insert id_before (λ z. z.id ≢ y.id) r ys (ground arith) d.0,
  insert-IsDistinct r ys a.1 d.1,
)

sort-IsDistinct : (rs : List ProtoRule) → IsDistinct rs → IsDistinct (sort id_before rs)
unfolding sort
sort-IsDistinct [] d = tt
sort-IsDistinct (r ∷ rest) d =
    insert-IsDistinct r _ (All-sort id_before (λ y. y.id ≢ r.id) rest d.0)
      (sort-IsDistinct rest d.1)

Misses-values :
    (id : String) (m : RuleSet)
    → All (λ p. p.1.id ≡ p.0) m
    → Misses id m
    → All (λ y. y.id ≢ id) (values m)
Misses-values id [] ids h = tt
Misses-values id ((j, r) ∷ m) ids h = (ground arith, Misses-values id m ids.1 h.1)

values-IsDistinct : (m : RuleSet) → All (λ p. p.1.id ≡ p.0) m → IsUnique m → IsDistinct (values m)
values-IsDistinct [] ids u = tt
values-IsDistinct ((id, r) ∷ m) ids u = (
  subst (λ i. All (λ y. y.id ≢ i) (values m)) (sym ids.0) (Misses-values id m ids.1 u.0),
  values-IsDistinct m ids.1 u.1,
)

pub All-values : (P : ProtoRule → Type 0) (m : RuleSet) → All (λ p. P p.1) m → All P (values m)
All-values P [] h = tt
All-values P ((id, r) ∷ m) h = (h.0, All-values P m h.1)

module _ (parse_prefix : String → Option Prefix) (clock : ℕ) where
  abbrev Parses : ProtoRule → Type 0
  Parses r = (q : Rule) × (parse parse_prefix r clock ≡ ok q)

  Unseen-put :
      (id : String) (rs : List ProtoRule) (seen : Map String Bool)
      → All (λ y. y.id ≢ id) rs
      → All (λ y. has y.id seen ≡ false) rs
      → All (λ y. has y.id (put id true seen) ≡ false) rs
  Unseen-put id [] seen d h = tt
  Unseen-put id (y ∷ ys) seen d h =
      (ground (arith, has-put id y.id true seen, eq_iff id y.id), Unseen-put id ys seen d.1 h.1)

  -- Rules that parse and have fresh ids are all taken.
  upsert_rules-ok :
      (rs : List ProtoRule) (next : Map String Rule) (seen : Map String Bool)
      → All Parses rs
      → IsDistinct rs
      → All (λ y. has y.id seen ≡ false) rs
      → (out : Map String Rule × Map String Bool) × (upsert_rules parse_prefix clock rs next seen
          ≡ ok out)
  unfolding upsert_rules
  upsert_rules-ok [] next seen p d u = ((next, seen), refl)
  upsert_rules-ok (r ∷ rest) next seen p d u =
      let q = p.0.0 in
      let same = (parse_fields parse_prefix r q clock p.0.1).0 in
      let more = upsert_rules-ok rest (put q.id q next) (put q.id true seen) p.1 d.1 (
        subst (λ i. All (λ y. has y.id (put i true seen) ≡ false) rest) (sym same)
          (Unseen-put r.id rest seen d.0 u.1)) in
      (more.0, rw (p.0.1, subst (λ i. has i seen ≡ false) (sym same) u.0) more.1)

  -- A stored rule that may be sent parses at the collector.
  parse_stored :
      (now : ℕ) (enforcing : Bool) (p : String × ProtoRule)
      → clock ≤ now + rule_expiry_margin
      → IsStored parse_prefix p
      → Sends (λ s. (s.1.id ≡ s.0) × Parses s.1) now enforcing p
  parse_stored now enforcing p c s v j e =
      let t = s.1.0 in
      let q = s.1.1 in
      (
        ground arith,
        (
          q,
          parse_later parse_prefix p.1 q t clock s.1.2
              (ground (arith, parse_fields parse_prefix p.1 q t s.1.2)),
        ),
      )

-- Every collector accepts what the analyzer sends it, at every clock that is at most the margin ahead.
pub collector_accepts :
    (parse_prefix : String → Option Prefix) (now clock : ℕ) (enforcing : Bool) (scopes : Scopes)
    → IsAccepted parse_prefix scopes
    → clock ≤ now + rule_expiry_margin
    → (out : Map String Rule × Map String Bool) × (upsert_rules parse_prefix clock
          (command_rules now enforcing scopes)
          []
          []
        ≡ ok out)
collector_accepts parse_prefix now clock enforcing scopes a c =
    let sent = (desired now enforcing scopes).1 in
    let all =
      desired-All (λ s. (s.1.id ≡ s.0) × Parses parse_prefix clock s.1) now enforcing scopes
        (All-map_imp _ _
          (λ s. All-map_imp _ _ (λ p. parse_stored parse_prefix clock now enforcing p c) s.1) scopes
          a) in
    let ids = All-map_imp _ (λ p. p.1.id ≡ p.0) (λ p h. h.0) sent all in
    upsert_rules-ok parse_prefix clock _ [] []
      (All-sort id_before (Parses parse_prefix clock) (values sent)
        (All-values _ sent (All-map_imp _ _ (λ p h. h.1) sent all)))
      (sort-IsDistinct (values sent)
        (values-IsDistinct sent ids (IsUnique-desired now enforcing scopes)))
      (All-intro _ (λ y. refl) _)

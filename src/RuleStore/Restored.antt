-- ===== src/RuleStore/Restored.antt =====
-- What decoding and restoring the encoded rules does to the store.
use packetyeeter.Common.{
  ℕ, ◌≡◌, refl, sym, ap, ◌∙◌, subst, ◌≢◌, inl, inr, String, true, false, Option, none, some, List,
  [], ◌∷◌, ◌++◌, arith, if◌then◌else◌, keep, All, Bool-cases, ◌==◌, string_key, eq_iff,
}
use packetyeeter.Common.Assoc.{Map, put, Misses, IsUnique}
use packetyeeter.Common.Result.{ok, >>=-ok}
use packetyeeter.Common.Sort.{sort, insert}
use packetyeeter.Common.Text.{text_before}
use packetyeeter.ScrubRules.Types.{Prefix, ProtoRule}
use packetyeeter.RuleStore.{RuleSet, Scopes}
use packetyeeter.RuleStore.Persist.{
  Bytes, PersistError, encode_set, encode_scopes, or_error, encode_rule,
}
use packetyeeter.RuleStore.Restore.{
  in_scope, invalid_scope, is_valid, restore_set, add_rule, decode_set, restore_scopes,
  scope_before,
}

-- A set of the store: each rule once, under its own id, which starts with the scope.
abbrev pub IsScopeSet : String → RuleSet → Type 0
IsScopeSet scope set = IsUnique set × All (λ p. (p.1.id ≡ p.0) × (in_scope scope p.0 ≡ true)) set

abbrev pub IsPersistable : Scopes → Type 0
IsPersistable scopes = All (λ s. (invalid_scope s.0 ≡ false) × IsScopeSet s.0 s.1) scopes

append_assoc {ℓ} : {A : Type ℓ} (xs ys zs : List A) → (xs ++ ys) ++ zs ≡ xs ++ (ys ++ zs)
append_assoc [] ys zs = refl
append_assoc (x ∷ xs) ys zs = ap (λ ws. x ∷ ws) (append_assoc xs ys zs)

append_nil {ℓ} : {A : Type ℓ} (xs : List A) → xs ++ [] ≡ xs
append_nil [] = refl
append_nil (x ∷ xs) = ap (λ ws. x ∷ ws) (append_nil xs)

put-Misses :
    (id : String) (r : ProtoRule) (set : RuleSet)
    → Misses id set
    → put id r set ≡ set ++ (id, r) ∷ []
put-Misses id r [] h = refl
put-Misses id r ((j, q) ∷ set) h =
    let other : (j == id) ≡ false = ground (arith, eq_iff j id, h.0) in
    rw other (ap (λ xs. (j, q) ∷ xs) (put-Misses id r set h.1))

Misses-snoc :
    (k id : String) (r : ProtoRule) (set : RuleSet)
    → Misses k set
    → id ≢ k
    → Misses k (set ++ (id, r) ∷ [])
Misses-snoc k id r [] h n = (n, tt)
Misses-snoc k id r ((j, q) ∷ set) h n = (h.0, Misses-snoc k id r set h.1 n)

-- The ids of `set` are not in `done`.
abbrev AreNew : RuleSet → RuleSet → Type 0
AreNew done set = All (λ p. Misses p.0 done) set

all_new : (set : RuleSet) → AreNew [] set
all_new [] = tt
all_new (p ∷ set) = (tt, all_new set)

AreNew-snoc :
    (id : String) (r : ProtoRule) (done set : RuleSet)
    → AreNew done set
    → Misses id set
    → AreNew (done ++ (id, r) ∷ []) set
AreNew-snoc id r done [] h n = tt
AreNew-snoc id r done ((j, q) ∷ set) h n =
    (Misses-snoc j id r done h.0 (λ e. n.0 (sym e)), AreNew-snoc id r done set h.1 n.1)

pub or_error-some :
    {A : Type 0} (o : Option A) (e : PersistError) (a : A) → or_error o e ≡ ok a → o ≡ some a
or_error-some none e a h = cc
or_error-some (some b) e a h = ground arith

module _ (parse_prefix : String → Option Prefix) (proto_size : ProtoRule → ℕ) (now : ℕ) where
  -- The store restored from rules that were never encoded: scope by scope, what is still valid of each.
  abbrev pub restore_valid : Scopes → Scopes × ℕ → Scopes × ℕ
  restore_valid [] before = before
  restore_valid ((scope, set) ∷ rest) before = restore_valid rest (
      restore_set parse_prefix proto_size scope now
        (keep (λ p. is_valid parse_prefix proto_size now p.1) set) before)

  module _ (marshal : ProtoRule → Option Bytes) (unmarshal : Bytes → Option ProtoRule)
      (round : (r : ProtoRule) (raw : Bytes) → marshal r ≡ some raw → unmarshal raw ≡ some r) where
    added :
        (scope id : String) (r : ProtoRule) (read : Option ProtoRule) (done : RuleSet)
        → read ≡ some r
        → (r.id == id) ≡ true
        → in_scope scope id ≡ true
        → add_rule parse_prefix proto_size unmarshal scope now id read done
          ≡ (if is_valid parse_prefix proto_size now r then put id r done else done)
    added scope id r none done e own inside = cc
    added scope id r (some q) done e own inside =
        let same : q ≡ r = ground (arith, e) in rw (same, own, inside) refl

    -- What decoding adds to `done` is what is still valid of the set.
    decode-encode_set :
        (scope : String) (set done : RuleSet) (enc : Map String Bytes)
        → encode_set marshal set ≡ ok enc
        → IsScopeSet scope set
        → AreNew done set
        → decode_set parse_prefix proto_size unmarshal scope now enc done
          ≡ done ++ keep (λ p. is_valid parse_prefix proto_size now p.1) set
    unfolding encode_set decode_set
    decode-encode_set scope [] done enc e v n =
        let q : [] ≡ enc = ground (arith, e) in
        subst (λ z. decode_set parse_prefix proto_size unmarshal scope now z done ≡ done ++ []) q
          (sym (append_nil done))
    decode-encode_set scope ((id, r) ∷ set) done enc e ((u0, u), ((same, inside), names)) n =
        let (raw, mr, e2) = >>=-ok (or_error (marshal r) (encode_rule id)) _ e in
        let (more, em, e3) = >>=-ok (encode_set marshal set) _ e2 in
        let back = round r raw (or_error-some (marshal r) (encode_rule id) raw mr) in
        let own : (r.id == id) ≡ true = ground (arith, eq_iff r.id id, same) in
        let q : (id, raw) ∷ more ≡ enc = ground (arith, e3) in
        subst
          (λ z.
            decode_set parse_prefix proto_size unmarshal scope now z done
            ≡ done ++ keep (λ p. is_valid parse_prefix proto_size now p.1) ((id, r) ∷ set))
          q
          (ap (decode_set parse_prefix proto_size unmarshal scope now more)
              (added scope id r (unmarshal raw) done back own inside)
            ∙ elim (Bool-cases (is_valid parse_prefix proto_size now r)) [
              | inl valid ↦ rw valid (
                  ap (decode_set parse_prefix proto_size unmarshal scope now more)
                    (put-Misses id r done n.0)
                  ∙ decode-encode_set scope set (done ++ (id, r) ∷ []) more em (u, names)
                      (AreNew-snoc id r done set n.1 u0)
                  ∙ append_assoc done ((id, r) ∷ [])
                      (keep (λ p. is_valid parse_prefix proto_size now p.1) set))
              | inr out ↦ rw out (decode-encode_set scope set done more em (u, names) n.1)
            ])

    pub restore-encode_scopes :
        (scopes : Scopes) (enc : Map String (Map String Bytes)) (before : Scopes × ℕ)
        → encode_scopes marshal scopes ≡ ok enc
        → IsPersistable scopes
        → restore_scopes parse_prefix proto_size unmarshal now enc before
          ≡ restore_valid scopes before
    unfolding encode_scopes restore_scopes
    restore-encode_scopes [] enc before e v =
        let q : [] ≡ enc = ground (arith, e) in
        subst (λ z. restore_scopes parse_prefix proto_size unmarshal now z before ≡ before) q refl
    restore-encode_scopes ((scope, set) ∷ rest) enc before e ((named, s), v) =
        let (here, eh, e2) = >>=-ok (encode_set marshal set) _ e in
        let (more, em, e3) = >>=-ok (encode_scopes marshal rest) _ e2 in
        let q : (scope, here) ∷ more ≡ enc = ground (arith, e3) in
        let back = decode-encode_set scope set [] here eh s (all_new set) in
        subst
          (λ z.
            restore_scopes parse_prefix proto_size unmarshal now z before
            ≡ restore_valid ((scope, set) ∷ rest) before)
          q
          (ap
              (λ b. restore_scopes parse_prefix proto_size unmarshal now more (
                if b
                then before
                else restore_set parse_prefix proto_size scope now
                    (decode_set parse_prefix proto_size unmarshal scope now here []) before))
              named
            ∙ ap
                (λ z.
                  restore_scopes parse_prefix proto_size unmarshal now more
                    (restore_set parse_prefix proto_size scope now z before))
                back
            ∙ restore-encode_scopes rest more _ em v)

    encode-insert :
        (scope : String) (set : RuleSet) (here : Map String Bytes) (rest : Scopes)
        (more : Map String (Map String Bytes))
        → encode_set marshal set ≡ ok here
        → encode_scopes marshal rest ≡ ok more
        → encode_scopes marshal (insert scope_before (scope, set) rest)
          ≡ ok (insert scope_before (scope, here) more)
    unfolding encode_scopes insert
    encode-insert scope set here [] more eh em =
        let q : [] ≡ more = ground (arith, em) in
        subst
          (λ z.
            encode_scopes marshal ((scope, set) ∷ []) ≡ ok (insert scope_before (scope, here) z))
          q (rw eh refl)
    encode-insert scope set here ((other, os) ∷ rest) more eh em =
        let (first, ef, e2) = >>=-ok (encode_set marshal os) _ em in
        let (tail, et, e3) = >>=-ok (encode_scopes marshal rest) _ e2 in
        let q : (other, first) ∷ tail ≡ more = ground (arith, e3) in
        let deeper = encode-insert scope set here rest tail eh et in
        subst
          (λ z.
            encode_scopes marshal (insert scope_before (scope, set) ((other, os) ∷ rest))
            ≡ ok (insert scope_before (scope, here) z))
          q
          (elim (Bool-cases (text_before other scope)) [
            | inl earlier ↦ rw earlier (rw (ef, deeper) refl)
            | inr later ↦ rw later (rw (eh, ef, et) refl)
          ])

    pub encode-sort :
        (scopes : Scopes) (enc : Map String (Map String Bytes))
        → encode_scopes marshal scopes ≡ ok enc
        → encode_scopes marshal (sort scope_before scopes) ≡ ok (sort scope_before enc)
    unfolding encode_scopes sort
    encode-sort [] enc e =
        let q : [] ≡ enc = ground (arith, e) in
        subst (λ z. encode_scopes marshal [] ≡ ok (sort scope_before z)) q refl
    encode-sort ((scope, set) ∷ rest) enc e =
        let (here, eh, e2) = >>=-ok (encode_set marshal set) _ e in
        let (more, em, e3) = >>=-ok (encode_scopes marshal rest) _ e2 in
        let q : (scope, here) ∷ more ≡ enc = ground (arith, e3) in
        subst
          (λ z.
            encode_scopes marshal (sort scope_before ((scope, set) ∷ rest))
            ≡ ok (sort scope_before z))
          q
          (encode-insert scope set here (sort scope_before rest) (sort scope_before more) eh
            (encode-sort rest more em))

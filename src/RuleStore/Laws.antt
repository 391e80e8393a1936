-- ===== src/RuleStore/Laws.antt =====
-- What the store sends: rules that stay valid long enough, and no restricting rule while not enforcing.
use packetyeeter.Common.{
  ℕ, ◌+◌, ◌<◌, ◌≡◌, inl, inr, String, Bool, true, ◌||◌, List, [], ◌∷◌, arith, All, leb, string_key,
  Bool-cases,
}
use packetyeeter.Common.Assoc.{All-put, put, IsUnique, IsUnique-put}
use packetyeeter.ScrubRules.Types.{ProtoRule}
use packetyeeter.RuleStore.{
  RuleSet, Scopes, desired_set, desired_scopes, desired, expires_of, is_pass, rule_expiry_margin,
}

-- A rule that may be sent: it outlives the margin, and it passes traffic if the analyzer does not enforce.
abbrev pub IsSendable : ℕ → Bool → ProtoRule → Type 0
IsSendable now enforcing r =
    (now + rule_expiry_margin < expires_of r) × ((enforcing || is_pass r.action) ≡ true)

-- A loop over a set keeps what holds of all that it sends.
module _ (P : String × ProtoRule → Type 0) (now : ℕ) (enforcing : Bool) where
  -- What the loop needs to know of a rule: if it may be sent, it satisfies P.
  abbrev pub Sends : String × ProtoRule → Type 0
  Sends p = IsSendable now enforcing p.1 → (j : String) → j ≡ p.0 → P (j, p.1)

  pub desired_set-All :
      (set out : RuleSet) → All Sends set → All P out → All P (desired_set now enforcing set out).1
  unfolding desired_set
  desired_set-All [] out s h = h
  desired_set-All ((id, r) ∷ rest) out s h = elim (Bool-cases (leb (expires_of r) now)) [
    | inl expired ↦ rw expired (desired_set-All rest out s.1 h)
    | inr live ↦ elim (Bool-cases (leb (expires_of r) (now + rule_expiry_margin))) [
      | inl close ↦ rw (live, close) (desired_set-All rest out s.1 h)
      | inr far ↦ elim (Bool-cases (enforcing || is_pass r.action)) [
        | inl sent ↦
            rw (live, far, sent)
              (desired_set-All rest (put id r out) s.1
                (All-put P id r out (s.0 (ground arith, sent)) h))
        | inr held ↦ rw (live, far, held) (desired_set-All rest out s.1 h)
      ]
    ]
  ]

  pub desired_scopes-All :
      (scopes : Scopes) (out : RuleSet)
      → All (λ p. All Sends p.1) scopes
      → All P out
      → All P (desired_scopes now enforcing scopes out).1
  unfolding desired_scopes
  desired_scopes-All [] out s h = h
  desired_scopes-All ((scope, set) ∷ rest) out s h =
      desired_scopes-All rest (desired_set now enforcing set out).1 s.1
        (desired_set-All set out s.0 h)

  pub desired-All :
      (scopes : Scopes) → All (λ p. All Sends p.1) scopes → All P (desired now enforcing scopes).1
  unfolding desired
  desired-All scopes s = desired_scopes-All scopes [] s tt

pub All-intro {ℓ} : {A : Type ℓ} (P : A → Type 0) (h : (a : A) → P a) (xs : List A) → All P xs
All-intro P h [] = tt
All-intro P h (x ∷ xs) = (h x, All-intro P h xs)

-- Every rule that the analyzer sends expires more than the margin later, and while the analyzer is not
-- enforcing every rule that it sends passes traffic.
pub desired-IsSendable :
    (now : ℕ) (enforcing : Bool) (scopes : Scopes)
    → All (λ p. IsSendable now enforcing p.1) (desired now enforcing scopes).1
desired-IsSendable now enforcing scopes =
    desired-All (λ p. IsSendable now enforcing p.1) now enforcing scopes
      (All-intro _ (λ p. All-intro _ (λ q s j e. s) p.1) scopes)

pub IsUnique-desired_set :
    (now : ℕ) (enforcing : Bool) (set out : RuleSet)
    → IsUnique out
    → IsUnique (desired_set now enforcing set out).1
unfolding desired_set
IsUnique-desired_set now enforcing [] out u = u
IsUnique-desired_set now enforcing ((id, r) ∷ rest) out u = ground (
  arith,
  IsUnique-desired_set now enforcing rest out u,
  IsUnique-desired_set now enforcing rest (put id r out) (IsUnique-put id r out u),
)

pub IsUnique-desired :
    (now : ℕ) (enforcing : Bool) (scopes : Scopes) → IsUnique (desired now enforcing scopes).1
unfolding desired
IsUnique-desired now enforcing scopes = each scopes [] tt
  where
    each :
        (s : Scopes) (out : RuleSet)
        → IsUnique out
        → IsUnique (desired_scopes now enforcing s out).1
    each [] out u = u
    each ((scope, set) ∷ rest) out u =
        each rest (desired_set now enforcing set out).1
          (IsUnique-desired_set now enforcing set out u)

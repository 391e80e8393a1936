-- ===== src/GrpcTls/Authorized.antt =====
-- A restricted method is handled exactly for the clients whose verified certificate carries an allowed name.
use packetyeeter.Common.{
  String, Bool, true, none, some, List, [], ◌∷◌, ◌≡◌, ◌⊎◌, inl, inr, refl, sym, ap, arith, any,
  ◌==◌, string_key, eq_iff, Bool-cases, Option-cases,
}
use packetyeeter.Common.Result.{Result, ok, err}
use packetyeeter.GrpcTls.Authorize.{
  Certificate, TlsInfo, tls, insecure, Context, MethodAuthorizer, Denied, permission_denied,
  leaf_of, verified_leaf, cert_matches_names, leaf_matches, authorize, handled, intercept,
}

-- The name is in the list.
abbrev pub IsIn : String → List String → Type 0
IsIn name [] = ⊥
IsIn name (x ∷ names) = (name ≡ x) ⊎ IsIn name names

IsIn-any :
    (name : String) (names : List String) → any (λ x. x == name) names ≡ true → IsIn name names
IsIn-any name [] h = absurd (ground (arith, h))
IsIn-any name (x ∷ names) h = elim (Bool-cases (x == name)) [
  | inl same ↦ inl (sym ((eq_iff x name).0 same))
  | inr other ↦ inr (IsIn-any name names (ground (arith, h, other)))
]

any-IsIn :
    (name : String) (names : List String) → IsIn name names → any (λ x. x == name) names ≡ true
any-IsIn name [] i = absurd i
any-IsIn name (x ∷ names) (inl same) = ground (arith, (eq_iff x name).1 (sym same))
any-IsIn name (x ∷ names) (inr more) = ground (arith, any-IsIn name names more)

module _ (equal_fold : String → String → Bool) where
  -- One of the names is the common name of the certificate, or a name of it but for case.
  abbrev pub Carries : Certificate → List String → Type 0
  Carries cert [] = ⊥
  Carries cert (want ∷ names) =
      (cert.common_name ≡ want)
      ⊎ ((any (λ dns. equal_fold dns want) cert.dns_names ≡ true) ⊎ Carries cert names)

  Carries-matches :
      (cert : Certificate) (names : List String)
      → cert_matches_names equal_fold cert names ≡ true
      → Carries cert names
  unfolding cert_matches_names
  Carries-matches cert [] h = absurd (ground (arith, h))
  Carries-matches cert (want ∷ names) h = elim (Bool-cases (cert.common_name == want)) [
    | inl same ↦ inl ((eq_iff cert.common_name want).0 same)
    | inr other ↦ elim (Bool-cases (any (λ dns. equal_fold dns want) cert.dns_names)) [
      | inl dns ↦ inr (inl dns)
      | inr missed ↦ inr (inr (Carries-matches cert names (rw (other, missed) at h)))
    ]
  ]

  matches-Carries :
      (cert : Certificate) (names : List String)
      → Carries cert names
      → cert_matches_names equal_fold cert names ≡ true
  unfolding cert_matches_names
  matches-Carries cert [] h = absurd h
  matches-Carries cert (want ∷ names) (inl same) =
      ground (arith, (eq_iff cert.common_name want).1 same)
  matches-Carries cert (want ∷ names) (inr (inl dns)) = ground (arith, dns)
  matches-Carries cert (want ∷ names) (inr (inr more)) =
      ground (arith, matches-Carries cert names more)

  -- The first certificate of the first chain that the handshake verified.
  abbrev pub IsVerified : Context → Certificate → Type 0
  IsVerified ctx leaf =
      (info : TlsInfo) × (ctx ≡ some (tls info))
      × ((chain : List Certificate) × (chains : List (List Certificate)) × (info.verified_chains
            ≡ (leaf ∷ chain) ∷ chains))

  leaf-IsVerified :
      (ctx : Context) (leaf : Certificate) → verified_leaf ctx ≡ some leaf → IsVerified ctx leaf
  leaf-IsVerified none leaf h = cc
  leaf-IsVerified (some insecure) leaf h = cc
  leaf-IsVerified (some (tls info)) leaf h =
      let (chain, chains, e) = first info.verified_chains h in (info, refl, (chain, chains, e))
    where
      first :
          (all : List (List Certificate))
          → leaf_of all ≡ some leaf
          → (chain : List Certificate) × (chains : List (List Certificate)) × (all
              ≡ (leaf ∷ chain) ∷ chains)
      first [] h = cc
      first ([] ∷ chains) h = cc
      first ((x ∷ chain) ∷ chains) h = (
        chain,
        chains,
        (let q : x ≡ leaf = ground (arith, h) in ap (λ z. (z ∷ chain) ∷ chains) q),
      )

  IsVerified-leaf :
      (ctx : Context) (leaf : Certificate) → IsVerified ctx leaf → verified_leaf ctx ≡ some leaf
  IsVerified-leaf ctx leaf (info, e, (chain, chains, q)) = rw (e, q) refl

  -- The method is not restricted, or the client's verified certificate carries an allowed name.
  abbrev pub IsAllowed : MethodAuthorizer → Context → String → Type 0
  IsAllowed a ctx method =
      IsIn method a.methods → (leaf : Certificate) × IsVerified ctx leaf × Carries leaf a.names

  leaf_matches-IsAllowed :
      (a : MethodAuthorizer) (ctx : Context) (method : String)
      → leaf_matches equal_fold (verified_leaf ctx) a.names ≡ true
      → IsAllowed a ctx method
  leaf_matches-IsAllowed a ctx method h i = elim (Option-cases (verified_leaf ctx)) [
    | inl gone ↦ absurd (ground (arith, rw gone at h))
    | inr (leaf, found) ↦
        (leaf, leaf-IsVerified ctx leaf found, Carries-matches leaf a.names (rw found at h))
  ]

  IsAllowed-matches :
      (a : MethodAuthorizer) (ctx : Context) (method : String)
      → IsAllowed a ctx method
      → IsIn method a.methods
      → leaf_matches equal_fold (verified_leaf ctx) a.names ≡ true
  IsAllowed-matches a ctx method allowed i =
      let (leaf, verified, carries) = allowed i in
      rw (IsVerified-leaf ctx leaf verified) (matches-Carries leaf a.names carries)

  -- If the method is not restricted, or the first certificate of the first chain that the handshake verified carries an
  -- allowed name, the handler answers. If not, the answer is that permission is denied, and the handler does not run,
  -- whatever certificates the client sent.
  pub intercept-IsAllowed :
      {S R : Type 0} (a : MethodAuthorizer) (ctx : Context) (method : String)
      (handler : S → S × Result Denied R) (state : S)
      → (IsAllowed a ctx method → intercept equal_fold a ctx method handler state ≡ handler state)
        × (¬ IsAllowed a ctx method
            → intercept equal_fold a ctx method handler state ≡ (state, err permission_denied))
  unfolding intercept authorize
  intercept-IsAllowed a ctx method handler state =
      elim (Bool-cases (any (λ m. m == method) a.methods)) [
        | inr free ↦
            let passed : authorize equal_fold a ctx method ≡ ok tt = rw free refl in
            (
              λ allowed. ap (λ o. handled equal_fold o handler state) passed,
              λ denied.
                  absurd (denied (λ i. absurd (ground (arith, free, any-IsIn method a.methods i)))),
            )
        | inl restricted ↦ elim (Bool-cases (leaf_matches equal_fold (verified_leaf ctx) a.names)) [
          | inl matched ↦
              let passed : authorize equal_fold a ctx method ≡ ok tt =
                rw (restricted, matched) refl in
              (
                λ allowed. ap (λ o. handled equal_fold o handler state) passed,
                λ denied. absurd (denied (leaf_matches-IsAllowed a ctx method matched)),
              )
          | inr missed ↦
              let refused : authorize equal_fold a ctx method ≡ err permission_denied =
                rw (restricted, missed) refl in
              (
                λ allowed. absurd (
                    ground (
                      arith,
                      missed,
                      IsAllowed-matches a ctx method allowed (IsIn-any method a.methods restricted),
                    )),
                λ denied. ap (λ o. handled equal_fold o handler state) refused,
              )
        ]
      ]

-- ===== src/Common/Assoc.antt =====
-- Go's maps as association lists. A range loop runs in the order of the list.
use packetyeeter.Common.{
  suc, ◌+◌, ◌≤◌, ◌≡◌, refl, ◌≢◌, Bool, true, false, Option, none, some, List, [], ◌∷◌, arith, Key,
  ◌==◌, if◌then◌else◌, length, keep, All, ap, subst, Bool-cases, inl, inr,
}

abbrev pub Map {ℓ κ} : Type ℓ → Type κ → Type (ℓ ⊔ κ)
Map K V = List (K × V)

module _ {ℓ κ} {K : Type ℓ} {V : Type κ} where
  abbrev pub keys : Map K V → List K
  keys [] = []
  keys ((k, v) ∷ m) = k ∷ keys m

  abbrev pub values : Map K V → List V
  values [] = []
  values ((k, v) ∷ m) = v ∷ values m

  -- No key of the map is `k`.
  abbrev pub Misses : K → Map K V → Type ℓ
  Misses k [] = Unit
  Misses k ((j, v) ∷ m) = (j ≢ k) × Misses k m

  -- The keys are pairwise different.
  abbrev pub IsUnique : Map K V → Type ℓ
  IsUnique [] = Unit
  IsUnique ((k, v) ∷ m) = Misses k m × IsUnique m

module _ {ℓ κ} {K : Type ℓ} {V : Type κ} ⦃e : Key K⦄ where
  abbrev pub get : K → Map K V → Option V
  get k [] = none
  get k ((j, v) ∷ m) = if j == k then some v else get k m

  abbrev pub has : K → Map K V → Bool
  has k [] = false
  has k ((j, v) ∷ m) = if j == k then true else has k m

  abbrev pub put : K → V → Map K V → Map K V
  put k v [] = (k, v) ∷ []
  put k v ((j, w) ∷ m) = let rest = put k v m in if j == k then (j, v) ∷ m else (j, w) ∷ rest

  abbrev pub delete : K → Map K V → Map K V
  delete k [] = []
  delete k ((j, v) ∷ m) = let rest = delete k m in if j == k then rest else (j, v) ∷ rest

  pub get-put :
      (k j : K) (v : V) (m : Map K V) → get j (put k v m) ≡ (if k == j then some v else get j m)
  get-put k j v [] = refl
  get-put k j v ((i, w) ∷ m) =
      ground (arith, e.same_iff k j, e.same_iff i k, e.same_iff i j, get-put k j v m)

  pub get-delete : (k j : K) (m : Map K V) → get j (delete k m) ≡ (if k == j then none else get j m)
  get-delete k j [] = ground arith
  get-delete k j ((i, w) ∷ m) =
      ground (arith, e.same_iff k j, e.same_iff i k, e.same_iff i j, get-delete k j m)

  pub length-put : (k : K) (v : V) (m : Map K V) → length (put k v m) ≤ length m + 1
  length-put k v [] = omega arith
  length-put k v ((i, w) ∷ m) = ground (arith, length-put k v m)

  pub length-put-has :
      (k : K) (v : V) (m : Map K V) → has k m ≡ true → length (put k v m) ≡ length m
  length-put-has k v ((i, w) ∷ m) h = ground (arith, length-put-has k v m)
  length-put-has k v [] h = ground arith

  pub length-delete-le : (k : K) (m : Map K V) → length (delete k m) ≤ length m
  length-delete-le k [] = omega arith
  length-delete-le k ((i, w) ∷ m) = ground (arith, length-delete-le k m)

  pub length-delete-lt :
      (k : K) (m : Map K V) → has k m ≡ true → suc (length (delete k m)) ≤ length m
  length-delete-lt k [] h = ground arith
  length-delete-lt k ((i, w) ∷ m) h = ground (arith, length-delete-lt k m, length-delete-le k m)

  pub has-get : (k : K) (m : Map K V) (v : V) → get k m ≡ some v → has k m ≡ true
  has-get k [] v h = ground arith
  has-get k ((i, w) ∷ m) v h = ground (arith, has-get k m v)

  pub get-has-false : (k : K) (m : Map K V) → has k m ≡ false → get k m ≡ none
  get-has-false k [] h = refl
  get-has-false k ((i, w) ∷ m) h = ground (arith, get-has-false k m)

  pub Misses-get : (k : K) (m : Map K V) → Misses k m → get k m ≡ none
  Misses-get k [] h = refl
  Misses-get k ((i, w) ∷ m) h = ground (arith, e.same_iff i k, Misses-get k m)

  pub get-Misses : (k : K) (m : Map K V) → get k m ≡ none → Misses k m
  get-Misses k [] h = tt
  get-Misses k ((i, w) ∷ m) h =
      (ground (arith, e.same_iff i k), get-Misses k m (ground (arith, e.same_iff i k)))

  pub Misses-put : (i k : K) (v : V) (m : Map K V) → k ≢ i → Misses i m → Misses i (put k v m)
  Misses-put i k v [] n h = (n, tt)
  Misses-put i k v ((j, w) ∷ m) n h = ground (arith, Misses-put i k v m n h.1)

  pub IsUnique-put : (k : K) (v : V) (m : Map K V) → IsUnique m → IsUnique (put k v m)
  IsUnique-put k v [] h = (tt, tt)
  IsUnique-put k v ((j, w) ∷ m) h =
      ground (arith, e.same_iff j k, Misses-put j k v m, IsUnique-put k v m h.1)

  pub Misses-delete : (i k : K) (m : Map K V) → Misses i m → Misses i (delete k m)
  Misses-delete i k [] h = tt
  Misses-delete i k ((j, w) ∷ m) h = ground (arith, Misses-delete i k m h.1)

  pub IsUnique-delete : (k : K) (m : Map K V) → IsUnique m → IsUnique (delete k m)
  IsUnique-delete k [] h = tt
  IsUnique-delete k ((j, w) ∷ m) h =
      ground (arith, Misses-delete j k m h.0, IsUnique-delete k m h.1)

  pub Misses-keep : (i : K) (p : K × V → Bool) (m : Map K V) → Misses i m → Misses i (keep p m)
  Misses-keep i p [] h = tt
  Misses-keep i p ((j, w) ∷ m) h = ground (arith, Misses-keep i p m h.1)

  pub IsUnique-keep : (p : K × V → Bool) (m : Map K V) → IsUnique m → IsUnique (keep p m)
  IsUnique-keep p [] h = tt
  IsUnique-keep p ((j, w) ∷ m) h = ground (arith, Misses-keep j p m h.0, IsUnique-keep p m h.1)

  delete-Misses : (k : K) (m : Map K V) → Misses k m → delete k m ≡ m
  delete-Misses k [] h = refl
  delete-Misses k ((i, w) ∷ m) h = ground (arith, e.same_iff i k, delete-Misses k m h.1)

  pub length-delete :
      (k : K) (v : V) (m : Map K V)
      → IsUnique m
      → get k m ≡ some v
      → suc (length (delete k m)) ≡ length m
  length-delete k v [] u h = ground arith
  length-delete k v ((i, w) ∷ m) u h = elim (Bool-cases (i == k)) [
    | inl same ↦ rw same (
        ap (λ (t : Map K V). suc (length t))
          (delete-Misses k m (subst (λ j. Misses j m) ((e.same_iff i k).0 same) u.0)))
    | inr other ↦ rw other (ap suc (length-delete k v m u.1 (rw other at h)))
  ]

  pub has-put :
      (k j : K) (v : V) (m : Map K V) → has j (put k v m) ≡ (if k == j then true else has j m)
  has-put k j v [] = refl
  has-put k j v ((i, w) ∷ m) =
      ground (arith, e.same_iff k j, e.same_iff i k, e.same_iff i j, has-put k j v m)

  pub All-put {μ} :
      (P : K × V → Type μ) (k : K) (v : V) (m : Map K V)
      → ((j : K) → j ≡ k → P (j, v))
      → All P m
      → All P (put k v m)
  All-put P k v [] q h = (q k refl, tt)
  All-put P k v ((j, w) ∷ m) q h = ground (arith, e.same_iff j k, q j, All-put P k v m q h.1)

  pub All-delete {μ} : (P : K × V → Type μ) (k : K) (m : Map K V) → All P m → All P (delete k m)
  All-delete P k [] h = tt
  All-delete P k ((j, w) ∷ m) h = ground (arith, All-delete P k m h.1)

  -- What holds of every value holds of the value found.
  pub All-get {μ} :
      (P : V → Type μ) (k : K) (m : Map K V) (v : V) → All (λ p. P p.1) m → get k m ≡ some v → P v
  All-get P k [] v h e = cc
  All-get P k ((j, w) ∷ m) v h e = elim (Bool-cases (j == k)) [
    | inl same ↦ let found : w ≡ v = ground (arith, same) in subst P found h.0
    | inr other ↦ All-get P k m v h.1 (ground (arith, other))
  ]

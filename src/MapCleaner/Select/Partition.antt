-- ===== src/MapCleaner/Select/Partition.antt =====
-- The partitioning loop of selectOldest ends, stays in range and splits the range at the pivot.
use packetyeeter.Common.{
  ℕ, zero, suc, ◌+◌, ◌≤◌, ◌<◌, ◌≡◌, refl, sym, ap, subst, ◌∙◌, inl, inr, Option, some, List, arith,
  ltb, length, get_elem?, get_elem?-lt, Bool-cases,
}
use packetyeeter.MapCleaner.Select.{OldestEntry, scan_up, scan_down}

module _ {K : Type 0} where
  -- Every entry from lo to before hi has an age with the property.
  abbrev pub Within : List (OldestEntry K) → ℕ → ℕ → (ℕ → Type 0) → Type 0
  Within e lo hi P =
      (k : ℕ) (x : OldestEntry K) → lo ≤ k → k < hi → get_elem? e k ≡ some x → P x.age

  pub same_age :
      (e : List (OldestEntry K)) (i k : ℕ) (x y : OldestEntry K)
      → get_elem? e i ≡ some x
      → get_elem? e k ≡ some y
      → i ≡ k
      → x.age ≡ y.age
  same_age e i k x y at_i at_k same =
      let both : some x ≡ some y = sym at_i ∙ ap (get_elem? e) same ∙ at_k in cc

  -- Another property for a range with one more entry in front, or behind.
  pub Within-front :
      (e : List (OldestEntry K)) (lo hi : ℕ) (P : ℕ → Type 0) (x : OldestEntry K)
      → get_elem? e lo ≡ some x
      → P x.age
      → Within e (suc lo) hi P
      → Within e lo hi P
  Within-front e lo hi P x at_lo p rest k y le lt at_k = elim (Bool-cases (ltb lo k)) [
    | inl after ↦ rest k y (ground arith) lt at_k
    | inr here ↦ subst P (same_age e lo k x y at_lo at_k (ground arith)) p
  ]

  pub Within-back :
      (e : List (OldestEntry K)) (lo hi : ℕ) (P : ℕ → Type 0) (x : OldestEntry K)
      → get_elem? e hi ≡ some x
      → P x.age
      → Within e lo hi P
      → Within e lo (suc hi) P
  Within-back e lo hi P x at_hi p rest k y le lt at_k = elim (Bool-cases (ltb k hi)) [
    | inl before ↦ rest k y le (ground arith) at_k
    | inr here ↦ subst P (same_age e hi k x y at_hi at_k (ground arith)) p
  ]

  pub Within-empty : (e : List (OldestEntry K)) (i : ℕ) (P : ℕ → Type 0) → Within e i i P
  Within-empty e i P k x le lt at_k = absurd (omega arith)

  -- An entry that is not below the pivot stops the loop that advances i, at it or before it.
  abbrev pub Stops : List (OldestEntry K) → ℕ → ℕ → ℕ → Option ℕ → Type 0
  Stops e pivot i k found =
      (at : ℕ) × (x : OldestEntry K) × (found ≡ some at)
      × (i ≤ at)
      × (at ≤ k)
      × (get_elem? e at ≡ some x)
      × (pivot ≤ x.age)
      × Within e i at (λ a. a ≤ pivot)

  pub scan_up-Stops :
      (rounds pivot : ℕ) (e : List (OldestEntry K)) (i k : ℕ) (s : OldestEntry K)
      → i ≤ k
      → k < length e
      → get_elem? e k ≡ some s
      → pivot ≤ s.age
      → k < i + rounds
      → Stops e pivot i k (scan_up rounds pivot e i)
  unfolding scan_up
  scan_up-Stops zero pivot e i k s le lt here above enough = absurd (omega arith)
  scan_up-Stops (suc rounds) pivot e i k s le lt here above enough =
      let (x, at_i) = get_elem?-lt e i (omega arith) in
      elim (Bool-cases (ltb x.age pivot)) [
        | inl below ↦
            let next : suc i ≤ k = ground (arith, same_age e i k x s at_i here) in
            let (at, y, ran, low, high, got, stop, passed) =
              scan_up-Stops rounds pivot e (suc i) k s next lt here above (omega arith) in
            (
              at,
              y,
              rw at_i (rw below ran),
              omega arith,
              high,
              got,
              stop,
              Within-front e i at (λ a. a ≤ pivot) x at_i (ground arith) passed,
            )
        | inr not_below ↦ (
          i,
          x,
          rw at_i (rw not_below refl),
          omega arith,
          le,
          at_i,
          ground arith,
          Within-empty e i (λ a. a ≤ pivot),
        )
      ]

  -- The same for the loop that takes j back, with an entry that is not above the pivot.
  abbrev pub Halts : List (OldestEntry K) → ℕ → ℕ → ℕ → Option ℕ → Type 0
  Halts e pivot j k found =
      (at : ℕ) × (x : OldestEntry K) × (found ≡ some (suc at))
      × (k ≤ at)
      × (at < j)
      × (get_elem? e at ≡ some x)
      × (x.age ≤ pivot)
      × Within e (suc at) j (λ a. pivot ≤ a)

  pub scan_down-Halts :
      (rounds pivot : ℕ) (e : List (OldestEntry K)) (j k : ℕ) (s : OldestEntry K)
      → k < j
      → j ≤ length e
      → get_elem? e k ≡ some s
      → s.age ≤ pivot
      → j ≤ k + rounds
      → Halts e pivot j k (scan_down rounds pivot e j)
  unfolding scan_down
  scan_down-Halts rounds pivot e zero k s le lt here below enough = absurd (omega arith)
  scan_down-Halts zero pivot e (suc j) k s le lt here below enough = absurd (omega arith)
  scan_down-Halts (suc rounds) pivot e (suc j) k s le lt here below enough =
      let (x, at_j) = get_elem?-lt e j (omega arith) in
      elim (Bool-cases (ltb pivot x.age)) [
        | inl above ↦
            let next : k < j = ground (arith, same_age e j k x s at_j here) in
            let (at, y, ran, low, high, got, stop, passed) =
              scan_down-Halts rounds pivot e j k s next (omega arith) here below (omega arith) in
            (
              at,
              y,
              rw at_j (rw above ran),
              low,
              omega arith,
              got,
              stop,
              Within-back e (suc at) j (λ a. pivot ≤ a) x at_j (ground arith) passed,
            )
        | inr not_above ↦ (
          j,
          x,
          rw at_j (rw not_above refl),
          omega arith,
          omega arith,
          at_j,
          ground arith,
          Within-empty e (suc j) (λ a. pivot ≤ a),
        )
      ]

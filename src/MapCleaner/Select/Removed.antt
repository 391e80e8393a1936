-- ===== src/MapCleaner/Select/Removed.antt =====
-- How many entries RemoveOldestN and EnforceMaxSizeBatch leave.
use packetyeeter.Common.{
  ℕ, suc, ◌+◌, ◌-◌, ◌/◌, ◌≤◌, ◌<◌, ◌≡◌, refl, ap, subst, inl, inr, true, false, some, List, [], ◌∷◌,
  arith, if◌then◌else◌, leb, length, Bool-cases, ◌||◌, ◌==◌, nat_key, nat_beq_iff, take,
  length-take, Key,
}
use packetyeeter.Common.Assoc.{
  Map, has, get, delete, Misses, IsUnique, IsUnique-delete, length-delete,
}
use packetyeeter.Common.Sums.{sum, sum-take}
use packetyeeter.MapCleaner.Select.{
  OldestEntry, entries_of, delete_each, remove_oldest_n, enforce_max_size_batch,
}
use packetyeeter.MapCleaner.Select.Selected.{select_oldest-IsSelected}

-- One for an entry with the key, and one for a map with the key.
abbrev is_key : {K : Type 0} → ⦃key_eq : Key K⦄ → K → OldestEntry K → ℕ
is_key k x = if x.key == k then 1 else 0

module _ {K V : Type 0} ⦃key_eq : Key K⦄ where
  abbrev present : K → Map K V → ℕ
  present k m = if has k m then 1 else 0

  has-Misses : (k : K) (m : Map K V) → Misses k m → has k m ≡ false
  has-Misses k [] h = refl
  has-Misses k ((j, v) ∷ m) h = ground (arith, key_eq.same_iff j k, has-Misses k m h.1)

  has-delete : (k j : K) (m : Map K V) → has j (delete k m) ≡ (if k == j then false else has j m)
  has-delete k j [] = ground arith
  has-delete k j ((i, w) ∷ m) =
      ground
        (arith, key_eq.same_iff k j, key_eq.same_iff i k, key_eq.same_iff i j, has-delete k j m)

  has-some : (k : K) (m : Map K V) → has k m ≡ true → (v : V) × (get k m ≡ some v)
  has-some k [] h = absurd (ground arith)
  has-some k ((j, v) ∷ m) h = elim (Bool-cases (j == k)) [
    | inl same ↦ (v, rw same refl)
    | inr other ↦ let (w, at_k) = has-some k m (rw other at h) in (w, rw other at_k)
  ]

  length-delete-has :
      (k : K) (m : Map K V) → IsUnique m → has k m ≡ true → suc (length (delete k m)) ≡ length m
  length-delete-has k m u h = let (v, at_k) = has-some k m h in length-delete k v m u at_k

  -- Deleting entries with different keys of the map removes as many entries.
  length-delete_each :
      (ref : ℕ) (stamp : K → V → ℕ) (es : List (OldestEntry K)) (m : Map K V)
      → IsUnique m
      → ((k : K) → sum (is_key k) es ≤ present k m)
      → length (delete_each ref stamp es m) + length es ≡ length m
  unfolding delete_each
  length-delete_each ref stamp [] m u h = omega arith
  length-delete_each ref stamp (e ∷ es) m u h =
      let here : has e.key m ≡ true = ground (arith, h e.key, key_eq.same_iff e.key e.key) in
      let one_less : suc (length (delete e.key m)) ≡ length m = length-delete-has e.key m u here in
      let rest =
        length-delete_each ref stamp es (delete e.key m) (IsUnique-delete e.key m u)
          (λ k. ground (arith, h k, has-delete e.key k m, key_eq.same_iff e.key k)) in
      omega arith

  entries_of-present :
      (ref : ℕ) (stamp : K → V → ℕ) (m : Map K V)
      → IsUnique m
      → (k : K) → sum (is_key k) (entries_of ref stamp m) ≡ present k m
  unfolding entries_of
  entries_of-present ref stamp [] u k = refl
  entries_of-present ref stamp ((j, v) ∷ m) u k = elim (Bool-cases (j == k)) [
    | inl same ↦
        let miss : has k m ≡ false =
          has-Misses k m (subst (λ i. Misses i m) ((key_eq.same_iff j k).0 same) u.0) in
        rw same (ground (arith, entries_of-present ref stamp m u.1 k))
    | inr other ↦ rw other (ground (arith, entries_of-present ref stamp m u.1 k))
  ]

  length-entries_of :
      (ref : ℕ) (stamp : K → V → ℕ) (m : Map K V) → length (entries_of ref stamp m) ≡ length m
  unfolding entries_of
  length-entries_of ref stamp [] = refl
  length-entries_of ref stamp ((j, v) ∷ m) = ap suc (length-entries_of ref stamp m)

  -- RemoveOldestN ends, and removes n entries or all of them.
  length-remove_oldest_n :
      (ref : ℕ) (stamp : K → V → ℕ) (m : Map K V) (n : ℕ)
      → IsUnique m
      → (out : Map K V) × (remove_oldest_n ref stamp m n ≡ some out) × (length out ≡ length m - n)
  unfolding remove_oldest_n
  length-remove_oldest_n ref stamp m n u = elim (Bool-cases (n == 0 || length m == 0)) [
    | inl nothing ↦
        (m, rw nothing refl, ground (arith, nothing, nat_beq_iff n 0, nat_beq_iff (length m) 0))
    | inr some_left ↦ elim (Bool-cases (leb (length m) n)) [
      | inl all ↦ ([], rw some_left (rw all refl), ground arith)
      | inr part ↦
          let (selected, ran, parted, s) = select_oldest-IsSelected (entries_of ref stamp m) n in
          (
            delete_each ref stamp (take n selected) m,
            rw some_left (rw part (rw ran refl)),
            shorter selected s.len s.sums (ground arith),
          )
    ]
  ]
    where
      shorter :
          (selected : List (OldestEntry K))
          → length selected ≡ length (entries_of ref stamp m)
          → ((weight : OldestEntry K → ℕ)
              → sum weight selected ≡ sum weight (entries_of ref stamp m))
          → n < length m
          → length (delete_each ref stamp (take n selected) m) ≡ length m - n
      shorter selected len sums few = omega (
        arith,
        length-entries_of ref stamp m,
        length-take n selected,
        length-delete_each ref stamp (take n selected) m u (λ k. omega (
          arith,
          sum-take (is_key k) n selected,
          sums (is_key k),
          entries_of-present ref stamp m u k,
        )),
      )

  -- EnforceMaxSizeBatch of a map with distinct keys and a positive cap ends: it leaves a map within the cap
  -- at its size, and takes any other down to the cap less a tenth of it.
  pub length-enforce_max_size_batch :
      (ref : ℕ) (stamp : K → V → ℕ) (m : Map K V) (max_size : ℕ)
      → IsUnique m
      → 0 < max_size
      → (out : Map K V) × (enforce_max_size_batch ref stamp m max_size ≡ some out)
        × (length out ≡ (if leb (length m) max_size then length m else max_size - max_size / 10))
  unfolding enforce_max_size_batch
  length-enforce_max_size_batch ref stamp m max_size u positive =
      elim (Bool-cases (max_size == 0 || leb (length m) max_size)) [
        | inl within ↦ (m, rw within refl, ground (arith, within, nat_beq_iff max_size 0))
        | inr over ↦
            let (out, ran, len) =
              length-remove_oldest_n ref stamp m (length m - max_size + max_size / 10) u in
            (out, rw over ran, ground (arith, over, len))
      ]

-- ===== src/MapCleaner/Select/Selected.antt =====
-- selectOldest puts the oldest entries first.
use packetyeeter.Common.{
  ℕ, zero, suc, ◌+◌, ◌-◌, ◌*◌, ◌/◌, ◌≤◌, ◌<◌, ◌≡◌, refl, sym, subst, ◌∙◌, ◌⊎◌, inl, inr, true,
  false, Option, some, List, arith, if◌then◌else◌, ltb, leb, length, get_elem?, get_elem?-lt,
  Bool-cases, ◌&&◌, ◌||◌, ◌==◌, nat_key, nat_beq_iff,
}
use packetyeeter.MapCleaner.Select.{
  OldestEntry, median_of_three, bit_length, partition, sort_range, select_rounds, select_oldest,
}
use packetyeeter.MapCleaner.Select.Partition.{Within-empty}
use packetyeeter.MapCleaner.Select.Split.{IsSplit, Ends, partition-Ends}
use packetyeeter.MapCleaner.Select.Parted.{
  median_of_three-one, IsParted, IsShuffled, IsParted-low, IsParted-high, IsSplit-IsShuffled,
  IsSplit-IsParted,
}
use packetyeeter.MapCleaner.Select.Sorted.{get-lt, sort_range-IsShuffled, sort_range-IsParted}

module _ {K : Type 0} where
  IsShuffled-refl : (e : List (OldestEntry K)) (lo hi : ℕ) → IsShuffled e lo hi e
  IsShuffled-refl e lo hi = record {
    len = refl;
    sums = λ weight. refl;
    kept = λ P w. w;
    outside = λ k o. refl;
  }

  IsParted-front : (e : List (OldestEntry K)) → IsParted e 0
  IsParted-front e k l x y lt le at_k at_l = absurd (omega arith)

  IsParted-end : (e : List (OldestEntry K)) (m : ℕ) → length e ≤ m → IsParted e m
  IsParted-end e m long k l x y lt le at_k at_l = absurd (omega (arith, get-lt e l y at_l))

  trivially :
      (e : List (OldestEntry K)) (n : ℕ) → (n == 0 || leb (length e) n) ≡ true → IsParted e n
  trivially e n h = elim (Bool-cases (leb (length e) n)) [
    | inl long ↦ IsParted-end e n (ground arith)
    | inr short ↦
        subst (IsParted e) {x = 0} {y = n} (ground (arith, h, nat_beq_iff n 0)) (IsParted-front e)
  ]

  in_range :
      (e : List (OldestEntry K)) (n : ℕ)
      → (n == 0 || leb (length e) n) ≡ false
      → (0 < n) × (n ≤ length e)
  in_range e n h = (ground (arith, h, nat_beq_iff n 0), ground (arith, h))

  -- A range within a range.
  IsShuffled-trans :
      (e : List (OldestEntry K)) (lo hi : ℕ) (e' : List (OldestEntry K)) (a b : ℕ)
      (out : List (OldestEntry K))
      → IsShuffled e lo hi e'
      → lo ≤ a
      → b ≤ hi
      → IsShuffled e' a b out
      → IsShuffled e lo hi out
  IsShuffled-trans e lo hi e' a b out s low high t = record {
    len = t.len ∙ s.len;
    sums = λ weight. t.sums weight ∙ s.sums weight;
    kept = λ P w k x from to at_k.
        let w' = s.kept P w in
        elim (Bool-cases (ltb k a)) [
          | inl before ↦ w' k x from to (sym (t.outside k (inl (ground arith))) ∙ at_k)
          | inr later ↦ elim (Bool-cases (ltb k b)) [
            | inl inside ↦
                t.kept P (λ m z c d. w' m z (omega arith) (omega arith)) k x (ground arith)
                  (ground arith) at_k
            | inr after ↦ w' k x from to (sym (t.outside k (inr (ground arith))) ∙ at_k)
          ]
        ];
    outside = λ k o. wider k o;
  }
    where
      wider : (k : ℕ) → (k < lo) ⊎ (hi ≤ k) → get_elem? out k ≡ get_elem? e k
      wider k (inl h) = t.outside k (inl (omega arith)) ∙ s.outside k (inl h)
      wider k (inr h) = t.outside k (inr (omega arith)) ∙ s.outside k (inr h)

  abbrev pub IsSelected : ℕ → List (OldestEntry K) → ℕ → ℕ → Option (List (OldestEntry K)) → Type 1
  IsSelected n e lo hi result =
      (out : List (OldestEntry K)) × (result ≡ some out) × IsParted out n × IsShuffled e lo hi out

  partition_start :
      (e : List (OldestEntry K)) (lo hi c : ℕ) (pivot : ℕ) (x : OldestEntry K)
      → lo ≤ c
      → c < hi
      → hi ≤ length e
      → get_elem? e c ≡ some x
      → pivot ≡ x.age
      → Ends e lo hi pivot (partition (suc (length e)) pivot e lo hi)
  partition_start e lo hi c pivot x low high fit at_c same =
      partition-Ends (suc (length e)) e lo hi pivot e lo hi fit
        (record {
          len = refl;
          sums = λ weight. refl;
          low = omega arith;
          fits = omega arith;
          high = omega arith;
          small = Within-empty e lo (λ a. a ≤ pivot);
          large = Within-empty e hi (λ a. pivot ≤ a);
          kept = λ P w. w;
          outside = λ k o. refl;
        })
        (λ more. ((c, x, low, high, at_c, omega arith), (c, x, low, high, at_c, omega arith)))
        (omega arith)

  -- The median is an age of the range, so neither scan leaves the range.
  partition_median :
      (e : List (OldestEntry K)) (lo hi : ℕ) (x y z : OldestEntry K)
      → lo + 1 < hi
      → hi ≤ length e
      → get_elem? e lo ≡ some x
      → get_elem? e (lo + (hi - 1 - lo) / 2) ≡ some y
      → get_elem? e (hi - 1) ≡ some z
      → Ends e lo hi
          (median_of_three x.age y.age z.age)
          (partition (suc (length e)) (median_of_three x.age y.age z.age) e lo hi)
  partition_median e lo hi x y z more fit at_x at_y at_z =
      elim (median_of_three-one x.age y.age z.age) [
        | inl is_x ↦ partition_start e lo hi lo _ x (omega arith) (omega arith) fit at_x is_x
        | inr (inl is_y) ↦
            partition_start e lo hi (lo + (hi - 1 - lo) / 2) _ y (omega arith) (omega arith) fit
              at_y is_y
        | inr (inr is_z) ↦
            partition_start e lo hi (hi - 1) _ z (omega arith) (omega arith) fit at_z is_z
      ]

  -- What follows the partition, given that the rounds after it select.
  select_after :
      (budget n : ℕ) (e : List (OldestEntry K)) (lo hi pivot : ℕ) (e' : List (OldestEntry K))
      (i j : ℕ)
      → lo < n
      → n ≤ hi
      → IsParted e lo
      → IsParted e hi
      → IsSplit e lo hi pivot e' i j
      → j ≤ i
      → ((a b : ℕ)
          → a < n
          → n ≤ b
          → b ≤ hi
          → IsParted e' a
          → IsParted e' b
          → IsSelected n e' a b (select_rounds budget n e' a b))
      → IsSelected n e lo hi (
          if ltb j n && leb n i
          then some e'
          else select_rounds budget n e' (if leb n j then lo else i) (if leb n j then j else hi))
  select_after budget n e lo hi pivot e' i j low high p q v crossed next =
      let s = IsSplit-IsShuffled e lo hi pivot e' i j v in
      let p' = IsParted-low e lo hi e' (omega arith) s p in
      let q' = IsParted-high e lo hi e' (omega arith) s q in
      elim (Bool-cases (leb n j)) [
        | inl left ↦
            let go : ltb j n ≡ false = ground arith in
            let (out, ran, parted, t) = next lo j low (ground arith) v.high p' (
              IsSplit-IsParted e lo hi pivot e' i j j v (ground arith) v.high (omega arith) crossed
                p' q') in
            (
              out,
              rw go (rw left ran),
              parted,
              IsShuffled-trans e lo hi e' lo j out s (omega arith) v.high t,
            )
        | inr not_left ↦
            let at_j : ltb j n ≡ true = ground arith in
            elim (Bool-cases (leb n i)) [
              | inl ended ↦ (
                e',
                rw at_j (rw ended refl),
                IsSplit-IsParted e lo hi pivot e' i j n v (omega arith) high (ground arith)
                    (ground arith) p' q',
                s,
              )
              | inr right ↦
                  let (out, ran, parted, t) =
                    next i hi (ground arith) high (omega arith)
                      (IsSplit-IsParted e lo hi pivot e' i j i v v.low v.fits crossed (omega arith)
                        p' q')
                      q' in
                  (
                    out,
                    rw at_j (rw right (rw not_left ran)),
                    parted,
                    IsShuffled-trans e lo hi e' i hi out s v.low (omega arith) t,
                  )
            ]
      ]

  -- A round, in terms of what the partition gives.
  select_rounds-ran :
      (budget n : ℕ) (e : List (OldestEntry K)) (lo hi : ℕ) (x y z : OldestEntry K)
      (e' : List (OldestEntry K)) (i j : ℕ)
      → ltb (lo + 1) hi ≡ true
      → get_elem? e lo ≡ some x
      → get_elem? e (lo + (hi - 1 - lo) / 2) ≡ some y
      → get_elem? e (hi - 1) ≡ some z
      → partition (suc (length e)) (median_of_three x.age y.age z.age) e lo hi ≡ some (e', i, j)
      → (if ltb j n && leb n i
          then some e'
          else select_rounds budget n e' (if leb n j then lo else i) (if leb n j then j else hi))
        ≡ select_rounds (suc budget) n e lo hi
  unfolding select_rounds
  select_rounds-ran budget n e lo hi x y z e' i j more at_x at_y at_z ran =
      sym (rw more (rw at_x (rw at_y (rw at_z (rw ran refl)))))

  select_rounds-IsSelected :
      (budget n : ℕ) (e : List (OldestEntry K)) (lo hi : ℕ)
      → lo < n
      → n ≤ hi
      → hi ≤ length e
      → IsParted e lo
      → IsParted e hi
      → IsSelected n e lo hi (select_rounds budget n e lo hi)
  unfolding select_rounds
  select_rounds-IsSelected zero n e lo hi low high fit p q = elim (Bool-cases (ltb (lo + 1) hi)) [
    | inl more ↦ (
      sort_range e lo hi,
      rw more refl,
      sort_range-IsParted e lo hi (omega arith) fit n (omega arith) high p q,
      sort_range-IsShuffled e lo hi (omega arith) fit,
    )
    | inr single ↦ (
      e,
      rw single refl,
      subst (IsParted e) {x = hi} {y = n} (ground arith) q,
      IsShuffled-refl e lo hi,
    )
  ]
  select_rounds-IsSelected (suc budget) n e lo hi low high fit p q =
      elim (Bool-cases (ltb (lo + 1) hi)) [
        | inl more ↦
            let (x, at_x) = get_elem?-lt e lo (omega arith) in
            let (y, at_y) = get_elem?-lt e (lo + (hi - 1 - lo) / 2) (omega arith) in
            let (z, at_z) = get_elem?-lt e (hi - 1) (omega arith) in
            let (e', i, j, ran, v, crossed) =
              partition_median e lo hi x y z (ground arith) fit at_x at_y at_z in
            subst (IsSelected n e lo hi)
              (select_rounds-ran budget n e lo hi x y z e' i j more at_x at_y at_z ran)
              (select_after budget n e lo hi _ e' i j low high p q v crossed (λ a b c d f p' q'.
                select_rounds-IsSelected budget n e' a b c d (omega (arith, v.len)) p' q'))
        | inr single ↦ (
          e,
          rw single refl,
          subst (IsParted e) {x = hi} {y = n} (ground arith) q,
          IsShuffled-refl e lo hi,
        )
      ]

  -- selectOldest never leaves the slice, ends, and only reorders it, since every weight of entries has the
  -- same sum over the slice as before; and then no entry before n is younger than one from n on.
  pub select_oldest-IsSelected :
      (e : List (OldestEntry K)) (n : ℕ) → IsSelected n e 0 (length e) (select_oldest e n)
  unfolding select_oldest
  select_oldest-IsSelected e n = elim (Bool-cases (n == 0 || leb (length e) n)) [
    | inl trivial ↦ (e, rw trivial refl, trivially e n trivial, IsShuffled-refl e 0 (length e))
    | inr work ↦
        let (low, high) = in_range e n work in
        let (out, ran, parted, s) =
          select_rounds-IsSelected (4 * bit_length 64 (length e)) n e 0 (length e) low high
            (omega arith) (IsParted-front e) (IsParted-end e (length e) (omega arith)) in
        (out, rw work ran, parted, s)
  ]

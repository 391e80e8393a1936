-- ===== src/MapCleaner/Select/Split.antt =====
-- The partitioning loop of selectOldest ends, stays in range and splits the range at the pivot.
use packetyeeter.Common.{
  ℕ, zero, suc, ◌+◌, ◌-◌, ◌≤◌, ◌<◌, ◌≡◌, ◌≢◌, refl, sym, ap, subst, ◌∙◌, ◌⊎◌, inl, inr, true, false,
  Option, some, List, arith, ltb, length, get_elem?, Bool-cases, set, length-set,
  get_elem?-set_self, get_elem?-set_ne,
}
use packetyeeter.Common.Sums.{sum, sum-set}
use packetyeeter.Common.Panic.{store-lt}
use packetyeeter.MapCleaner.Select.{OldestEntry, swap, scan_up, scan_down, partition}
use packetyeeter.MapCleaner.Select.Partition.{
  Within, same_age, Within-front, Within-back, Stops, Halts, scan_up-Stops, scan_down-Halts,
}

same_or_apart : (a b : ℕ) → (a ≡ b) ⊎ (a ≢ b)
same_or_apart a b = elim (Bool-cases (ltb a b)) [
  | inl below ↦ inr (λ same. absurd (ground arith))
  | inr up ↦ elim (Bool-cases (ltb b a)) [
    | inl above ↦ inr (λ same. absurd (ground arith))
    | inr down ↦ inl (ground arith)
  ]
]

apart_from : (k i lo hi : ℕ) → (k < lo) ⊎ (hi ≤ k) → lo ≤ i → i < hi → k ≢ i
apart_from k i lo hi (inl out) low high same = absurd (omega arith)
apart_from k i lo hi (inr out) low high same = absurd (omega arith)

module _ {K : Type 0} where
  -- Two entries have changed places, and the others stay.
  pub record Swapped (e : List (OldestEntry K)) (i j : ℕ) (x y : OldestEntry K)
      (e' : List (OldestEntry K)) : Type 0 where
    pub was_i : get_elem? e i ≡ some x
    pub was_j : get_elem? e j ≡ some y
    pub now_i : get_elem? e' i ≡ some y
    pub now_j : get_elem? e' j ≡ some x
    pub others : (k : ℕ) → k ≢ i → k ≢ j → get_elem? e' k ≡ get_elem? e k
    pub len : length e' ≡ length e
    pub sums : (weight : OldestEntry K → ℕ) → sum weight e' ≡ sum weight e

  swap-Swapped :
      (e : List (OldestEntry K)) (i j : ℕ) (x y : OldestEntry K)
      → i ≤ j
      → j < length e
      → get_elem? e i ≡ some x
      → get_elem? e j ≡ some y
      → (e' : List (OldestEntry K)) × (swap e i j ≡ some e') × Swapped e i j x y e'
  unfolding swap
  swap-Swapped e i j x y le lt at_i at_j =
      let first : length (set e i y) ≡ length e = length-set e i y in
      let now_j : get_elem? (set (set e i y) j x) j ≡ some x =
        get_elem?-set_self (set e i y) j x (omega arith) in
      let mid_j : get_elem? (set e i y) j ≡ some y = elim (Bool-cases (ltb i j)) [
        | inl apart ↦ get_elem?-set_ne e i j y (λ same. absurd (ground arith)) ∙ at_j
        | inr together ↦
            let same : j ≡ i = ground arith in
            ap (get_elem? (set e i y)) same ∙ get_elem?-set_self e i y (omega arith)
      ] in
      (
        set (set e i y) j x,
        rw at_i
            (rw at_j (rw (store-lt e i y (omega arith)) (store-lt (set e i y) j x (omega arith)))),
        record {
          was_i = at_i;
          was_j = at_j;
          now_i = elim (Bool-cases (ltb i j)) [
            | inl apart ↦
                get_elem?-set_ne (set e i y) j i x (λ same. absurd (ground arith))
                ∙ get_elem?-set_self e i y (omega arith)
            | inr together ↦
                let same : i ≡ j = ground arith in
                ap (get_elem? (set (set e i y) j x)) same
                ∙ now_j
                ∙ sym at_i
                ∙ ap (get_elem? e) same
                ∙ at_j
          ];
          now_j = now_j;
          others = λ k not_i not_j.
              get_elem?-set_ne (set e i y) j k x (λ h. not_j (sym h))
              ∙ get_elem?-set_ne e i k y (λ h. not_i (sym h));
          len = length-set (set e i y) j x ∙ first;
          sums = λ weight.
              omega (arith, sum-set weight e i x y at_i, sum-set weight (set e i y) j y x mid_j);
        },
      )

  Within-join :
      (e : List (OldestEntry K)) (a b c : ℕ) (P : ℕ → Type 0)
      → Within e a b P
      → Within e b c P
      → Within e a c P
  Within-join e a b c P first second k x le lt at_k = elim (Bool-cases (ltb k b)) [
    | inl before ↦ first k x le (ground arith) at_k
    | inr after ↦ second k x (ground arith) lt at_k
  ]

  -- A range that a swap does not touch.
  Within-swap :
      (e e' : List (OldestEntry K)) (x y : OldestEntry K) (i j a b : ℕ) (P : ℕ → Type 0)
      → Swapped e i j x y e'
      → i ≤ j
      → (b ≤ i) ⊎ (j < a)
      → Within e a b P
      → Within e' a b P
  Within-swap e e' x y i j a b P s le away w k z from to at_k =
      w k z from to
        (sym (s.others k (λ same. absurd (ground arith)) (λ same. absurd (ground arith))) ∙ at_k)

  -- A range that a swap stays in.
  Within-inside :
      (e e' : List (OldestEntry K)) (x y : OldestEntry K) (i j lo hi : ℕ) (P : ℕ → Type 0)
      → Swapped e i j x y e'
      → lo ≤ i
      → i ≤ j
      → j < hi
      → Within e lo hi P
      → Within e' lo hi P
  Within-inside e e' x y i j lo hi P s low le high w k z from to at_k = elim (same_or_apart k i) [
    | inl is_i ↦
        subst P (same_age e' i k y z s.now_i at_k (sym is_i)) (w j y (omega arith) high s.was_j)
    | inr not_i ↦ elim (same_or_apart k j) [
      | inl is_j ↦
          subst P (same_age e' j k x z s.now_j at_k (sym is_j)) (w i x low (omega arith) s.was_i)
      | inr not_j ↦ w k z from to (sym (s.others k not_i not_j) ∙ at_k)
    ]
  ]

  -- Some entry from lo to before hi has an age with the property.
  abbrev pub Holds : List (OldestEntry K) → ℕ → ℕ → (ℕ → Type 0) → Type 0
  Holds e lo hi P =
      (k : ℕ) × (x : OldestEntry K) × (lo ≤ k) × (k < hi) × (get_elem? e k ≡ some x) × P x.age

  -- What the rounds keep: the entries e differ from the entries before only by their order in the range
  -- from lo to before hi, those before i are at most the pivot, and those from j on at least the pivot.
  pub record IsSplit (before : List (OldestEntry K)) (lo hi pivot : ℕ) (e : List (OldestEntry K))
      (i j : ℕ) : Type 1 where
    pub len : length e ≡ length before
    pub sums : (weight : OldestEntry K → ℕ) → sum weight e ≡ sum weight before
    pub low : lo ≤ i
    pub fits : i ≤ hi
    pub high : j ≤ hi
    pub small : Within e lo i (λ a. a ≤ pivot)
    pub large : Within e j hi (λ a. pivot ≤ a)
    pub kept : (P : ℕ → Type 0) → Within before lo hi P → Within e lo hi P
    pub outside : (k : ℕ) → (k < lo) ⊎ (hi ≤ k) → get_elem? e k ≡ get_elem? before k

  -- An entry in each direction at which the scans stop.
  abbrev pub IsGuarded : List (OldestEntry K) → ℕ → ℕ → ℕ → ℕ → ℕ → Type 0
  IsGuarded e lo hi pivot i j =
      i < j → Holds e i hi (λ a. pivot ≤ a) × Holds e lo j (λ a. a ≤ pivot)

  -- Both scans move on, and the two entries where they stopped change places.
  IsSplit-swap :
      (before : List (OldestEntry K)) (lo hi pivot : ℕ) (e : List (OldestEntry K)) (i j : ℕ)
      (x y : OldestEntry K) (e' : List (OldestEntry K))
      → IsSplit before lo hi pivot e i (suc j)
      → Swapped e i j x y e'
      → i ≤ j
      → pivot ≤ x.age
      → y.age ≤ pivot
      → IsSplit before lo hi pivot e' (suc i) j × IsGuarded e' lo hi pivot (suc i) j
  IsSplit-swap before lo hi pivot e i j x y e' v s le x_large y_small =
      let high : j < hi = v.high in
      let small : Within e' lo (suc i) (λ a. a ≤ pivot) =
        Within-back e' lo i (λ a. a ≤ pivot) y s.now_i y_small
          (Within-swap e e' x y i j lo i (λ a. a ≤ pivot) s le (inl (omega arith)) v.small) in
      let large : Within e' j hi (λ a. pivot ≤ a) =
        Within-front e' j hi (λ a. pivot ≤ a) x s.now_j x_large
          (Within-swap e e' x y i j (suc j) hi (λ a. pivot ≤ a) s le (inr (omega arith)) v.large) in
      (
        record {
          len = s.len ∙ v.len;
          sums = λ weight. s.sums weight ∙ v.sums weight;
          low = omega (arith, v.low);
          fits = omega arith;
          high = omega arith;
          small = small;
          large = large;
          kept = λ P w. Within-inside e e' x y i j lo hi P s v.low le high (v.kept P w);
          outside = λ k out.
              s.others k (apart_from k i lo hi out v.low (omega arith))
                (apart_from k j lo hi out (omega (arith, v.low)) high)
              ∙ v.outside k out;
        },
        λ more. (
          (j, x, omega arith, high, s.now_j, x_large),
          (i, y, v.low, omega arith, s.now_i, y_small),
        ),
      )

  -- The scans move on, and the entries they pass are on their side of the pivot.
  IsSplit-scan :
      (before : List (OldestEntry K)) (lo hi pivot : ℕ) (e : List (OldestEntry K)) (i j i' j' : ℕ)
      → IsSplit before lo hi pivot e i j
      → i ≤ i'
      → i' ≤ hi
      → j' ≤ j
      → Within e i i' (λ a. a ≤ pivot)
      → Within e j' j (λ a. pivot ≤ a)
      → IsSplit before lo hi pivot e i' j'
  IsSplit-scan before lo hi pivot e i j i' j' v up fits down passed skipped = record {
    len = v.len;
    sums = v.sums;
    low = omega (arith, v.low);
    fits = fits;
    high = omega (arith, v.high);
    small = Within-join e lo i i' (λ a. a ≤ pivot) v.small passed;
    large = Within-join e j' j hi (λ a. pivot ≤ a) skipped v.large;
    kept = v.kept;
    outside = v.outside;
  }

  -- The loop has ended with the range split.
  abbrev pub Ends :
      List (OldestEntry K) → ℕ → ℕ → ℕ → Option (List (OldestEntry K) × ℕ × ℕ) → Type 1
  Ends before lo hi pivot result =
      (e : List (OldestEntry K)) × (i : ℕ) × (j : ℕ) × (result ≡ some (e, i, j))
      × IsSplit before lo hi pivot e i j
      × (j ≤ i)

  -- A round that swaps, and one that ends the loop.
  partition-swap :
      (rounds pivot : ℕ) (e : List (OldestEntry K)) (i j i' j' : ℕ) (e' : List (OldestEntry K))
      → ltb i j ≡ true
      → scan_up (suc (length e)) pivot e i ≡ some i'
      → scan_down (suc (length e)) pivot e j ≡ some (suc j')
      → ltb i' (suc j') ≡ true
      → swap e i' j' ≡ some e'
      → partition (suc rounds) pivot e i j ≡ partition rounds pivot e' (suc i') j'
  unfolding partition
  partition-swap rounds pivot e i j i' j' e' more up down meet ran =
      let here : suc j' - 1 ≡ j' = omega arith in
      rw more (rw up (rw down (rw meet (rw here (rw ran refl)))))

  partition-last :
      (rounds pivot : ℕ) (e : List (OldestEntry K)) (i j i' j' : ℕ)
      → ltb i j ≡ true
      → scan_up (suc (length e)) pivot e i ≡ some i'
      → scan_down (suc (length e)) pivot e j ≡ some (suc j')
      → ltb i' (suc j') ≡ false
      → partition (suc rounds) pivot e i j ≡ some (e, i', suc j')
  unfolding partition
  partition-last rounds pivot e i j i' j' more up down apart =
      rw more (rw up (rw down (rw apart refl)))

  -- One round, given that the rounds after it end.
  partition-round :
      (rounds : ℕ) (before : List (OldestEntry K)) (lo hi pivot : ℕ) (e : List (OldestEntry K))
      (i j k : ℕ)
      → hi ≤ length before
      → IsSplit before lo hi pivot e i j
      → ltb i j ≡ true
      → k < hi
      → j ≤ i + suc rounds
      → Stops e pivot i k (scan_up (suc (length e)) pivot e i)
      → (l : ℕ) → Halts e pivot j l (scan_down (suc (length e)) pivot e j)
      → ((e' : List (OldestEntry K)) (i' j' : ℕ)
          → IsSplit before lo hi pivot e' i' j'
          → IsGuarded e' lo hi pivot i' j'
          → j' ≤ i' + rounds
          → Ends before lo hi pivot (partition rounds pivot e' i' j'))
      → Ends before lo hi pivot (partition (suc rounds) pivot e i j)
  partition-round rounds before lo hi pivot e i j k fit v more k_high enough
        (i', x, ran_up, up, i_le, at_i, x_large, passed) l
        (j', y, ran_down, down, j_lt, at_j, y_small, skipped) next =
      let v' =
        IsSplit-scan before lo hi pivot e i j i' (suc j') v up (omega arith) j_lt passed skipped in
      elim (Bool-cases (ltb i' (suc j'))) [
        | inl meet ↦
            let (e', ran_swap, s) =
              swap-Swapped e i' j' x y (ground arith) (omega (arith, v.high, v.len)) at_i at_j in
            let (v2, guard) =
              IsSplit-swap before lo hi pivot e i' j' x y e' v' s (ground arith) x_large y_small in
            subst (Ends before lo hi pivot)
              (sym (partition-swap rounds pivot e i j i' j' e' more ran_up ran_down meet ran_swap))
              (next e' (suc i') j' v2 guard (omega arith))
        | inr apart ↦ (
          e,
          i',
          suc j',
          partition-last rounds pivot e i j i' j' more ran_up ran_down apart,
          v',
          ground arith,
        )
      ]

  pub partition-Ends :
      (rounds : ℕ) (before : List (OldestEntry K)) (lo hi pivot : ℕ) (e : List (OldestEntry K))
      (i j : ℕ)
      → hi ≤ length before
      → IsSplit before lo hi pivot e i j
      → IsGuarded e lo hi pivot i j
      → j ≤ i + rounds
      → Ends before lo hi pivot (partition rounds pivot e i j)
  unfolding partition
  partition-Ends zero before lo hi pivot e i j fit v guard enough =
      let ended : ltb i j ≡ false = ground arith in (e, i, j, rw ended refl, v, omega arith)
  partition-Ends (suc rounds) before lo hi pivot e i j fit v guard enough =
      elim (Bool-cases (ltb i j)) [
        | inl more ↦
            let ((k, s, k_low, k_high, at_k, s_large), (l, t, l_low, l_high, at_l, t_small)) =
              guard (ground arith) in
            partition-round rounds before lo hi pivot e i j k fit v more k_high enough
              (scan_up-Stops (suc (length e)) pivot e i k s k_low (omega (arith, v.len)) at_k
                s_large (omega (arith, v.len)))
              l
              (scan_down-Halts (suc (length e)) pivot e j l t l_high (omega (arith, v.high, v.len))
                at_l t_small (omega (arith, v.high, v.len)))
              (λ e' i' j' v' guard' enough'.
                partition-Ends rounds before lo hi pivot e' i' j' fit v' guard' enough')
        | inr done ↦ (e, i, j, rw done refl, v, ground arith)
      ]

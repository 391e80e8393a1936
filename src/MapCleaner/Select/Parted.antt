-- ===== src/MapCleaner/Select/Parted.antt =====
-- selectOldest puts the oldest entries first.
use packetyeeter.Common.{
  ℕ, ◌≤◌, ◌<◌, ◌≡◌, sym, ◌∙◌, ◌⊎◌, inl, inr, some, List, arith, ltb, length, get_elem?, Bool-cases,
}
use packetyeeter.Common.Sums.{sum}
use packetyeeter.MapCleaner.Select.{OldestEntry, median_of_three}
use packetyeeter.MapCleaner.Select.Partition.{Within}
use packetyeeter.MapCleaner.Select.Split.{IsSplit}

-- The median is one of the three.
pub median_of_three-one :
    (a b c : ℕ)
    → (median_of_three a b c ≡ a) ⊎ ((median_of_three a b c ≡ b) ⊎ (median_of_three a b c ≡ c))
unfolding median_of_three
median_of_three-one a b c = ground arith

module _ {K : Type 0} where
  -- No entry before m is younger than one from m on.
  abbrev pub IsParted : List (OldestEntry K) → ℕ → Type 0
  IsParted e m =
      (k l : ℕ) (x y : OldestEntry K)
      → k < m
      → m ≤ l
      → get_elem? e k ≡ some x
      → get_elem? e l ≡ some y
      → x.age ≤ y.age

  -- The entries of a range have changed places.
  pub record IsShuffled (before : List (OldestEntry K)) (lo hi : ℕ) (e : List (OldestEntry K))
      : Type 1 where
    pub len : length e ≡ length before
    pub sums : (weight : OldestEntry K → ℕ) → sum weight e ≡ sum weight before
    pub kept : (P : ℕ → Type 0) → Within before lo hi P → Within e lo hi P
    pub outside : (k : ℕ) → (k < lo) ⊎ (hi ≤ k) → get_elem? e k ≡ get_elem? before k

  pub IsParted-low :
      (before : List (OldestEntry K)) (lo hi : ℕ) (e : List (OldestEntry K))
      → lo ≤ hi
      → IsShuffled before lo hi e
      → IsParted before lo
      → IsParted e lo
  IsParted-low before lo hi e le s p k l x y below from at_k at_l =
      let was_k : get_elem? before k ≡ some x = sym (s.outside k (inl below)) ∙ at_k in
      elim (Bool-cases (ltb l hi)) [
        | inl inside ↦
            s.kept (λ a. x.age ≤ a) (λ m z low high at_m. p k m x z below low was_k at_m) l y from
              (ground arith) at_l
        | inr after ↦ p k l x y below from was_k (sym (s.outside l (inr (ground arith))) ∙ at_l)
      ]

  pub IsParted-high :
      (before : List (OldestEntry K)) (lo hi : ℕ) (e : List (OldestEntry K))
      → lo ≤ hi
      → IsShuffled before lo hi e
      → IsParted before hi
      → IsParted e hi
  IsParted-high before lo hi e le s p k l x y below from at_k at_l =
      let was_l : get_elem? before l ≡ some y = sym (s.outside l (inr from)) ∙ at_l in
      elim (Bool-cases (ltb k lo)) [
        | inl outside ↦ p k l x y below from (sym (s.outside k (inl (ground arith))) ∙ at_k) was_l
        | inr inside ↦
            s.kept (λ a. a ≤ y.age) (λ m z low high at_m. p m l z y high from at_m was_l) k x
              (ground arith) below at_k
      ]

  -- A range that is parted inside, between parts that are older and younger.
  pub IsParted-inside :
      (e : List (OldestEntry K)) (lo hi m : ℕ)
      → lo ≤ m
      → m ≤ hi
      → IsParted e lo
      → IsParted e hi
      → ((k l : ℕ) (x y : OldestEntry K)
          → lo ≤ k
          → k < m
          → m ≤ l
          → l < hi
          → get_elem? e k ≡ some x
          → get_elem? e l ≡ some y
          → x.age ≤ y.age)
      → IsParted e m
  IsParted-inside e lo hi m low high p q inside k l x y below from at_k at_l =
      elim (Bool-cases (ltb k lo)) [
        | inl before ↦ p k l x y (ground arith) (omega arith) at_k at_l
        | inr later ↦ elim (Bool-cases (ltb l hi)) [
          | inl within ↦ inside k l x y (ground arith) below from (ground arith) at_k at_l
          | inr after ↦ q k l x y (omega arith) (ground arith) at_k at_l
        ]
      ]

  pub IsSplit-IsShuffled :
      (before : List (OldestEntry K)) (lo hi pivot : ℕ) (e : List (OldestEntry K)) (i j : ℕ)
      → IsSplit before lo hi pivot e i j
      → IsShuffled before lo hi e
  IsSplit-IsShuffled before lo hi pivot e i j v = record {
    len = v.len;
    sums = v.sums;
    kept = v.kept;
    outside = v.outside;
  }

  pub IsSplit-IsParted :
      (before : List (OldestEntry K)) (lo hi pivot : ℕ) (e : List (OldestEntry K)) (i j m : ℕ)
      → IsSplit before lo hi pivot e i j
      → lo ≤ m
      → m ≤ hi
      → j ≤ m
      → m ≤ i
      → IsParted e lo
      → IsParted e hi
      → IsParted e m
  IsSplit-IsParted before lo hi pivot e i j m v low high from to p q =
      IsParted-inside e lo hi m low high p q (λ k l x y a b c d at_k at_l.
        let small : x.age ≤ pivot = v.small k x a (omega arith) at_k in
        let large : pivot ≤ y.age = v.large l y (omega arith) d at_l in omega arith)

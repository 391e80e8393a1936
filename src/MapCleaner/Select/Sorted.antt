-- ===== src/MapCleaner/Select/Sorted.antt =====
-- The sort that selectOldest falls back to.
use packetyeeter.Common.{
  ℕ, zero, suc, ◌+◌, ◌-◌, ◌≤◌, ◌<◌, ◌≡◌, refl, sym, ap, subst, ◌∙◌, ◌⊎◌, inl, inr, false, some,
  List, [], ◌∷◌, ◌++◌, arith, ltb, length, get_elem?, take, drop, All, length-take, length-drop,
  length-append, get_elem?-take, get_elem?-drop, get_elem?-append_left, get_elem?-append_right,
}
use packetyeeter.Common.Sort.{sort, length-sort, All-sort, IsSorted, IsOrder, sort-IsSorted}
use packetyeeter.Common.Sums.{sum, sum-append, sum-sort, sum-range, sum-take}
use packetyeeter.MapCleaner.Select.{OldestEntry, sort_range, younger}
use packetyeeter.MapCleaner.Select.Partition.{Within}
use packetyeeter.MapCleaner.Select.Parted.{
  IsParted, IsShuffled, IsParted-inside, IsParted-low, IsParted-high,
}

module _ {ℓ κ} {A : Type ℓ} (P : A → Type κ) where
  All-get : (xs : List A) (k : ℕ) (x : A) → All P xs → get_elem? xs k ≡ some x → P x
  All-get [] k x h at_k = absurd cc
  All-get (y ∷ xs) zero x h at_k = let same : y ≡ x = cc in subst P same h.0
  All-get (y ∷ xs) (suc k) x h at_k = All-get xs k x h.1 at_k

  get-All : (xs : List A) → ((k : ℕ) (x : A) → get_elem? xs k ≡ some x → P x) → All P xs
  get-All [] h = tt
  get-All (x ∷ xs) h = (h 0 x refl, get-All xs (λ k. h (suc k)))

pub get-lt {ℓ} :
    {A : Type ℓ} (xs : List A) (k : ℕ) (x : A) → get_elem? xs k ≡ some x → k < length xs
get-lt [] k x h = absurd cc
get-lt (y ∷ xs) zero x h = omega arith
get-lt (y ∷ xs) (suc k) x h = omega (arith, get-lt xs k x h)

module _ {K : Type 0} where
  younger-IsOrder : IsOrder (younger {K = K})
  younger-IsOrder = record { asym = λ x y h. ground arith; trans = λ x y z h k. ground arith }

  IsSorted-get :
      (xs : List (OldestEntry K)) (k l : ℕ) (x y : OldestEntry K)
      → IsSorted younger xs
      → k < l
      → get_elem? xs k ≡ some x
      → get_elem? xs l ≡ some y
      → x.age ≤ y.age
  IsSorted-get [] k l x y s lt at_k at_l = absurd cc
  IsSorted-get (z ∷ xs) k zero x y s lt at_k at_l = absurd (omega arith)
  IsSorted-get (z ∷ xs) zero (suc l) x y s lt at_k at_l =
      let same : z ≡ x = cc in
      let not_younger : ltb y.age z.age ≡ false =
        All-get (λ w. younger w z ≡ false) xs l y s.0 at_l in
      subst (λ w. w.age ≤ y.age) same (ground arith)
  IsSorted-get (z ∷ xs) (suc k) (suc l) x y s lt at_k at_l =
      IsSorted-get xs k l x y s.1 (omega arith) at_k at_l

  module _ (e : List (OldestEntry K)) (lo hi : ℕ) (lt : lo < hi) (fit : hi ≤ length e) where
    abbrev middle : List (OldestEntry K)
    middle = take (hi - lo) (drop lo e)

    abbrev sorted : List (OldestEntry K)
    sorted = sort younger middle

    length-front : length (take lo e) ≡ lo
    length-front = omega (arith, length-take lo e)

    length-sorted : length sorted ≡ hi - lo
    length-sorted =
        omega
          (arith, length-sort younger middle, length-take (hi - lo) (drop lo e), length-drop lo e)

    get-middle : (m : ℕ) → m < hi - lo → get_elem? middle m ≡ get_elem? e (lo + m)
    get-middle m h = get_elem?-take (hi - lo) m (drop lo e) h ∙ get_elem?-drop lo m e

    get-before : (k : ℕ) → k < lo → get_elem? (sort_range e lo hi) k ≡ get_elem? e k
    unfolding sort_range
    get-before k h =
        get_elem?-append_left k (take lo e) (sorted ++ drop hi e) (omega (arith, length-front))
        ∙ get_elem?-take lo k e h

    get-inside :
        (m : ℕ) → m < hi - lo → get_elem? (sort_range e lo hi) (lo + m) ≡ get_elem? sorted m
    unfolding sort_range
    get-inside m h =
        ap (λ n. get_elem? (take lo e ++ (sorted ++ drop hi e)) (n + m)) (sym length-front)
        ∙ get_elem?-append_right m (take lo e) (sorted ++ drop hi e)
        ∙ get_elem?-append_left m sorted (drop hi e) (omega (arith, length-sorted))

    get-after : (m : ℕ) → get_elem? (sort_range e lo hi) (hi + m) ≡ get_elem? e (hi + m)
    unfolding sort_range
    get-after m =
        let index : hi + m ≡ length (take lo e) + (length sorted + m) =
          omega (arith, length-front, length-sorted) in
        ap (get_elem? (take lo e ++ (sorted ++ drop hi e))) index
        ∙ get_elem?-append_right (length sorted + m) (take lo e) (sorted ++ drop hi e)
        ∙ get_elem?-append_right m sorted (drop hi e)
        ∙ get_elem?-drop hi m e

    -- An entry of the sorted range was in the range.
    All-middle : (P : ℕ → Type 0) → Within e lo hi P → All (λ x. P x.age) sorted
    All-middle P w =
        All-sort younger (λ x. P x.age) middle
          (get-All (λ x. P x.age) middle
            (λ k x at_k.
              let inside : k < hi - lo =
                omega (arith, get-lt middle k x at_k, length-sorted, length-sort younger middle) in
              w (lo + k) x (omega arith) (omega arith) (sym (get-middle k inside) ∙ at_k)))

    from_low :
        (k : ℕ) → lo ≤ k → k < hi → get_elem? (sort_range e lo hi) k ≡ get_elem? sorted (k - lo)
    from_low k low high =
        ap (get_elem? (sort_range e lo hi)) {x = k} {y = lo + (k - lo)} (omega arith)
        ∙ get-inside (k - lo) (omega arith)

    from_high : (k : ℕ) → hi ≤ k → get_elem? (sort_range e lo hi) k ≡ get_elem? e k
    from_high k high =
        let index : hi + (k - hi) ≡ k = omega arith in
        ap (get_elem? (sort_range e lo hi)) (sym index)
        ∙ get-after (k - hi)
        ∙ ap (get_elem? e) index

    length-sort_range : length (sort_range e lo hi) ≡ length e
    unfolding sort_range
    length-sort_range = omega (
      arith,
      length-append (take lo e) (sorted ++ drop hi e),
      length-append sorted (drop hi e),
      length-front,
      length-sorted,
      length-drop hi e,
    )

    sums-sort_range : (weight : OldestEntry K → ℕ) → sum weight (sort_range e lo hi) ≡ sum weight e
    unfolding sort_range
    sums-sort_range weight = omega (
      arith,
      sum-append weight (take lo e) (sorted ++ drop hi e),
      sum-append weight sorted (drop hi e),
      sum-sort weight younger middle,
      sum-range weight lo hi e (omega arith),
      sum-take weight lo e,
    )

    pub sort_range-IsShuffled : IsShuffled e lo hi (sort_range e lo hi)
    sort_range-IsShuffled = record {
      len = length-sort_range;
      sums = sums-sort_range;
      kept = λ P w k x low high at_k.
          All-get (λ y. P y.age) sorted (k - lo) x (All-middle P w)
            (sym (from_low k low high) ∙ at_k);
      outside = λ k out. outside k out;
    }
      where
        outside : (k : ℕ) → (k < lo) ⊎ (hi ≤ k) → get_elem? (sort_range e lo hi) k ≡ get_elem? e k
        outside k (inl h) = get-before k h
        outside k (inr h) = from_high k h

    -- After the sort every cut of the range parts it, when the parts around it are parted from it.
    pub sort_range-IsParted :
        (m : ℕ) → lo ≤ m → m ≤ hi → IsParted e lo → IsParted e hi → IsParted (sort_range e lo hi) m
    sort_range-IsParted m low high p q =
        let s = sort_range-IsShuffled in
        IsParted-inside (sort_range e lo hi) lo hi m low high
          (IsParted-low e lo hi (sort_range e lo hi) (omega arith) s p)
          (IsParted-high e lo hi (sort_range e lo hi) (omega arith) s q)
          (λ k l x y a b c d at_k at_l.
            IsSorted-get sorted (k - lo) (l - lo) x y (sort-IsSorted younger younger-IsOrder middle)
              (omega arith) (sym (from_low k a (omega arith)) ∙ at_k)
              (sym (from_low l (omega arith) d) ∙ at_l))

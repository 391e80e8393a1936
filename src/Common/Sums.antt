-- ===== src/Common/Sums.antt =====
-- Sums over a list: two lists with the same sums for every weight hold the same elements equally often.
use mathlib.Core.Path.{◌≡◌, refl, ap, ◌∙◌}
use mathlib.Core.Bool.{Bool}
use mathlib.Core.List.{List, [], ◌∷◌, ◌++◌}
use mathlib.Core.Option.{some}
use native.Mathlib.Omega.{arith}
use packetyeeter.Common.{ℕ, zero, suc, ◌+◌, ◌-◌, ◌≤◌, get_elem?, set, take, drop}
use packetyeeter.Common.Sort.{insert, sort}

module _ {ℓ} {A : Type ℓ} (weight : A → ℕ) where
  abbrev pub sum : List A → ℕ
  sum [] = 0
  sum (x ∷ xs) = weight x + sum xs

  pub sum-append : (xs ys : List A) → sum (xs ++ ys) ≡ sum xs + sum ys
  sum-append [] ys = omega arith
  sum-append (x ∷ xs) ys = omega (arith, sum-append xs ys)

  pub sum-set :
      (xs : List A) (i : ℕ) (old new : A)
      → get_elem? xs i ≡ some old
      → sum (set xs i new) + weight old ≡ sum xs + weight new
  sum-set [] i old new h = absurd cc
  sum-set (x ∷ xs) zero old new h = let same : x ≡ old = cc in omega (arith, ap weight same)
  sum-set (x ∷ xs) (suc i) old new h = omega (arith, sum-set xs i old new h)

  pub sum-take : (n : ℕ) (xs : List A) → sum (take n xs) + sum (drop n xs) ≡ sum xs
  sum-take zero xs = omega arith
  sum-take (suc n) [] = refl
  sum-take (suc n) (x ∷ xs) = omega (arith, sum-take n xs)

  sum-insert :
      (before : A → A → Bool) (x : A) (xs : List A) → sum (insert before x xs) ≡ weight x + sum xs
  unfolding insert
  sum-insert before x [] = refl
  sum-insert before x (y ∷ ys) = ground (arith, sum-insert before x ys)

  pub sum-sort : (before : A → A → Bool) (xs : List A) → sum (sort before xs) ≡ sum xs
  unfolding sort
  sum-sort before [] = refl
  sum-sort before (x ∷ xs) = omega (arith, sum-insert before x (sort before xs), sum-sort before xs)

  -- The elements from lo to before hi, and those from hi on.
  pub sum-range :
      (lo hi : ℕ) (xs : List A)
      → lo ≤ hi
      → sum (take (hi - lo) (drop lo xs)) + sum (drop hi xs) ≡ sum (drop lo xs)
  sum-range zero hi xs le =
      let all : hi - 0 ≡ hi = omega arith in
      ap (λ n. sum (take n xs) + sum (drop hi xs)) all ∙ sum-take hi xs
  sum-range (suc lo) zero xs le = absurd (omega arith)
  sum-range (suc lo) (suc hi) [] le =
      omega (arith, sum-take (suc hi - suc lo) [], sum-empty (suc hi - suc lo))
    where
      sum-empty : (n : ℕ) → sum (take n []) ≡ 0
      sum-empty zero = refl
      sum-empty (suc n) = refl
  sum-range (suc lo) (suc hi) (x ∷ xs) le =
      let same : suc hi - suc lo ≡ hi - lo = omega arith in
      ap (λ n. sum (take n (drop lo xs)) + sum (drop hi xs)) same ∙ sum-range lo hi xs (omega arith)

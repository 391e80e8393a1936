-- ===== src/Common/Text.antt =====
-- `cmp.Compare` on strings: UTF-8 keeps the order of the code points.
use Prim.Native.Char.{code}
use Prim.Native.String.{String}
use mathlib.Core.Path.{◌≡◌, refl}
use mathlib.Core.Bool.{Bool, true, false}
use mathlib.Core.List.{List, [], ◌∷◌}
use native.Mathlib.Omega.{arith}
use packetyeeter.Common.{ℕ, if◌then◌else◌, ltb}
use packetyeeter.Common.Sort.{IsOrder}

abbrev pub codes : String → List ℕ
codes String.[] = []
codes (String.◌∷◌ c s) = code c ∷ codes s

pub codes_before : List ℕ → List ℕ → Bool
codes_before [] [] = false
codes_before [] (y ∷ ys) = true
codes_before (x ∷ xs) [] = false
codes_before (x ∷ xs) (y ∷ ys) =
    if ltb x y then true else if ltb y x then false else codes_before xs ys

codes_before_asym : (xs ys : List ℕ) → codes_before xs ys ≡ true → codes_before ys xs ≡ false
unfolding codes_before
codes_before_asym [] [] h = refl
codes_before_asym [] (y ∷ ys) h = refl
codes_before_asym (x ∷ xs) [] h = ground arith
codes_before_asym (x ∷ xs) (y ∷ ys) h = ground (arith, codes_before_asym xs ys)

codes_before_trans :
    (xs ys zs : List ℕ)
    → codes_before ys xs ≡ false
    → codes_before zs ys ≡ false
    → codes_before zs xs ≡ false
unfolding codes_before
codes_before_trans [] [] zs h k = k
codes_before_trans [] (y ∷ ys) [] h k = ground arith
codes_before_trans [] (y ∷ ys) (z ∷ zs) h k = refl
codes_before_trans (x ∷ xs) [] zs h k = ground arith
codes_before_trans (x ∷ xs) (y ∷ ys) [] h k = ground arith
codes_before_trans (x ∷ xs) (y ∷ ys) (z ∷ zs) h k = ground (arith, codes_before_trans xs ys zs)

pub codes-IsOrder : IsOrder codes_before
codes-IsOrder = record { asym = codes_before_asym; trans = codes_before_trans }

unfoldable pub text_before : String → String → Bool
unfolding codes_before
text_before s t = codes_before (codes s) (codes t)

pub text-IsOrder : IsOrder text_before
unfolding text_before
text-IsOrder = record {
  asym = λ x y h. codes_before_asym (codes x) (codes y) h;
  trans = λ x y z h k. codes_before_trans (codes x) (codes y) (codes z) h k;
}

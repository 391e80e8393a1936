-- ===== src/Common/Count.antt =====
-- How often a number stands in a list, for arguments about who owns which slot.
use Prim.Native.Nat.{ℕ, ◌+◌}
use mathlib.Core.Path.{◌≡◌}
use mathlib.Core.List.{List, [], ◌∷◌, ◌++◌}
use native.Mathlib.Omega.{arith}
use packetyeeter.Common.Tests.{if◌then◌else◌, nat_beq}

abbrev pub one_if : ℕ → ℕ → ℕ
one_if s x = if nat_beq s x then 1 else 0

abbrev pub count : ℕ → List ℕ → ℕ
count s [] = 0
count s (x ∷ xs) = one_if s x + count s xs

pub count-append : (s : ℕ) (xs ys : List ℕ) → count s (xs ++ ys) ≡ count s xs + count s ys
count-append s [] ys = omega arith
count-append s (x ∷ xs) ys = omega (arith, count-append s xs ys)

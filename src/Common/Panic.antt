-- ===== src/Common/Panic.antt =====
-- Steps that may panic: `none` is a panic, such as an index out of range.
use Prim.Native.Nat.{ℕ, ◌<◌}
use mathlib.Core.Path.{◌≡◌}
use native.Mathlib.Omega.{arith}
use mathlib.Core.List.{List}
use mathlib.Core.Option.{Option, none, some}
use packetyeeter.Common.{if◌then◌else◌, ltb, length, set}

infixl 5 ◌>>=◌
abbrev pub ◌>>=◌ {ℓ κ} : {A : Type ℓ} {B : Type κ} → Option A → (A → Option B) → Option B
none >>= next = none
some value >>= next = next value

-- buf[i] = v
abbrev pub store {ℓ} : {A : Type ℓ} → List A → ℕ → A → Option (List A)
store buf i v = if ltb i (length buf) then some (set buf i v) else none

pub store-lt {ℓ} :
    {A : Type ℓ} (buf : List A) (i : ℕ) (v : A)
    → i < length buf
    → store buf i v ≡ some (set buf i v)
store-lt buf i v h = ground arith

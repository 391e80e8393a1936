-- ===== src/Sustained/Hashing.antt =====
-- resourceKeys of pkg/analyzer/sustained/tracker.go: a request as two hashes. A Go string is its list of bytes.
-- strings.ToLower is the parameter `to_lower`; hash/fnv's 64-bit FNV-1a is written out.
use Prim.Native.Nat.{bit_xor}
use packetyeeter.Common.{ℕ, ◌*◌, ◌%◌, ◌^◌, List, [], ◌∷◌, if◌then◌else◌, ◌==◌, nat_key}

abbrev pub Bytes : Type 0
Bytes = List ℕ

-- Write of fnv.New64a.
pub fnv_write : ℕ → Bytes → ℕ
fnv_write h [] = h
fnv_write h (b ∷ bs) = fnv_write (bit_xor h b * 1099511628211 % 2 ^ 64) bs

abbrev pub fnv_offset : ℕ
fnv_offset = 14695981039346656037

-- hash64 of two parts, with a zero byte between them.
unfoldable pub hash64 : Bytes → Bytes → ℕ
unfolding fnv_write
hash64 first second = fnv_write (fnv_write (fnv_write fnv_offset first) (0 ∷ [])) second

-- What stands before the first byte `c`, or everything.
pub before_byte : ℕ → Bytes → Bytes
before_byte c [] = []
before_byte c (b ∷ bs) = let rest = before_byte c bs in if b == c then [] else b ∷ rest

abbrev pub trim_slash : Bytes → Bytes
trim_slash [] = []
trim_slash (b ∷ bs) = if b == b'/' then bs else b ∷ bs

unfoldable pub first_segment : Bytes → Bytes
unfolding before_byte
first_segment path = b'/' ∷ before_byte b'/' (trim_slash path)

-- The hashes of the resource and of its section.
unfoldable pub resource_keys : (Bytes → Bytes) → Bytes → Bytes → ℕ × ℕ
unfolding hash64 first_segment before_byte
resource_keys to_lower host path =
    let lower = to_lower host in
    let bare = before_byte b'?' path in (hash64 lower bare, hash64 lower (first_segment bare))

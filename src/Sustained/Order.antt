-- ===== src/Sustained/Order.antt =====
-- The order of the clients holds the keys of the client map.
use packetyeeter.Common.{
  ◌≡◌, refl, String, Bool, true, false, List, [], ◌∷◌, ◌++◌, arith, if◌then◌else◌, any, length,
  ◌==◌, string_key, eq_iff,
}
use packetyeeter.Common.Assoc.{Map, has, delete}
use packetyeeter.Sustained.Tracker.{without, to_front}

abbrev pub in_order : String → List String → Bool
in_order ip order = any (λ other. other == ip) order

-- The order and the map hold the same addresses.
abbrev pub AreSame {ℓ} : {V : Type ℓ} → List String → Map String V → Type 0
AreSame order m = (ip : String) → in_order ip order ≡ has ip m

pub in_order-snoc :
    (ip new : String) (order : List String)
    → in_order ip (order ++ new ∷ []) ≡ (if new == ip then true else in_order ip order)
in_order-snoc ip new [] = ground arith
in_order-snoc ip new (x ∷ order) = ground (arith, in_order-snoc ip new order)

pub in_order-without :
    (ip gone : String) (order : List String)
    → in_order ip (without gone order) ≡ (if gone == ip then false else in_order ip order)
in_order-without ip gone [] = ground arith
in_order-without ip gone (x ∷ order) =
    ground (arith, in_order-without ip gone order, eq_iff x gone, eq_iff x ip, eq_iff gone ip)

pub in_order-to_front :
    (ip new : String) (order : List String)
    → in_order ip (to_front new order) ≡ (if new == ip then true else in_order ip order)
in_order-to_front ip new order =
    ground (arith, in_order-snoc ip new (without new order), in_order-without ip new order)

pub has-delete {ℓ} :
    {V : Type ℓ} (k j : String) (m : Map String V)
    → has j (delete k m) ≡ (if k == j then false else has j m)
has-delete k j [] = ground arith
has-delete k j ((i, w) ∷ m) = ground (arith, has-delete k j m, eq_iff k j, eq_iff i k, eq_iff i j)

pub no_entries {ℓ} : {V : Type ℓ} (m : Map String V) → AreSame [] m → length m ≡ 0
no_entries [] h = refl
no_entries ((k, v) ∷ m) h = absurd (ground (arith, h k, eq_iff k k))

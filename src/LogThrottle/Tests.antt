-- ===== src/LogThrottle/Tests.antt =====
-- The throttle's laws at a map of one address.
use packetyeeter.Common.{ℕ, ◌≡◌, refl, true, [], ◌∷◌, arith, nat_key, ◌*◌}
use packetyeeter.LogThrottle.{Throttle, allow, second}
use packetyeeter.LogThrottle.Laws.{IsBounded, Recorded, allow-Recorded}

abbrev busy : Throttle ℕ
busy = record {
  interval = 30 * second;
  max_keys = 1;
  last_logged = (7, 100 * second) ∷ [];
  last_sweep = 100 * second;
  last_overflow = 100 * second;
}

busy-IsBounded : IsBounded busy
busy-IsBounded = record { room = omega arith; within = omega arith; unique = (tt, tt) }

overflow_line : (allow 8 (110 * second) busy).1 ≡ true
unfolding allow
overflow_line = refl

allow-Recorded_example : Recorded 8 (110 * second) busy (allow 8 (110 * second) busy).0
allow-Recorded_example = allow-Recorded 8 (110 * second) busy overflow_line

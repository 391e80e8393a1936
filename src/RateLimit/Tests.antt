-- ===== src/RateLimit/Tests.antt =====
-- Runs of the rate limiter with whole numbers for floats, and its theorems at concrete inputs.
use packetyeeter.Common.{
  ℕ, ◌+◌, ◌-◌, ◌*◌, ◌/◌, ◌≡◌, refl, none, some, ltb, leb, arith, eq_iff, string_key,
}
use packetyeeter.Common.Assoc.{get}
use packetyeeter.Sampling.{evict_oldest}
use packetyeeter.RateLimit.Bucket.{Floats, TokenBucket, take_token}
use packetyeeter.RateLimit.Limiter.{Config, Limiter, new_limiter, allow_ip, allow_both}
use packetyeeter.RateLimit.Bounds.{FloatLaws, IsLimiter, allow, operate, operate-IsLimiter}
use packetyeeter.RateLimit.Isolation.{Untouched, allow_ip-Untouched}

abbrev whole : Floats
whole = record {
  F = ℕ;
  zero_f = 0;
  one_f = 1;
  plus = λ x y. x + y;
  minus = λ x y. x - y;
  times = λ x y. x * y;
  less = ltb;
  at_most = leb;
  of_nat = λ n. n;
  seconds = λ now last. (now - last) / 1_000_000_000;
}

whole-FloatLaws : FloatLaws whole
whole-FloatLaws = record { less-self = λ x. ground arith; less-minus = λ c x h. ground arith }

abbrev config : Config whole
config = record {
  ip_rate = 1;
  asn_rate = 1;
  ip_burst = 2;
  asn_burst = 5;
  cleanup_interval = 100;
  max_age = 1000;
  max_ip_entries = 2;
  max_asn_entries = 2;
  ip_rate_exact = some 0;
  asn_rate_exact = none;
}

abbrev start : Limiter whole
start = new_limiter whole config 0

start-IsLimiter : IsLimiter whole whole-FloatLaws start
start-IsLimiter = record {
  ips = record { room = omega arith; bounded = omega arith; distinct = tt; within = tt };
  asns = record { room = omega arith; bounded = omega arith; distinct = tt; within = tt };
}

abbrev one_seen : Limiter whole
one_seen = operate whole whole-FloatLaws (allow (some "10.0.0.1") "AS1" 5 6) start

operate-IsLimiter_example : IsLimiter whole whole-FloatLaws one_seen
operate-IsLimiter_example =
    operate-IsLimiter whole whole-FloatLaws (allow (some "10.0.0.1") "AS1" 5 6) start
      start-IsLimiter

abbrev held : TokenBucket whole
held = record { capacity = 2; tokens = 1; rate = 0; last_seen = 6 }

held_run : get "10.0.0.1" one_seen.ip_limiters ≡ some held
unfolding allow_both allow_ip take_token evict_oldest
held_run = refl

allow_ip-Untouched_example :
    Untouched whole whole-FloatLaws one_seen.max_ip_limiters "10.0.0.1" held one_seen.ip_limiters
      (allow_ip whole (some "10.0.0.2") 7 8 one_seen).0.ip_limiters
allow_ip-Untouched_example =
    allow_ip-Untouched whole whole-FloatLaws "10.0.0.2" "10.0.0.1" held 7 8 one_seen
      operate-IsLimiter_example (λ e. ground (arith, (eq_iff "10.0.0.2" "10.0.0.1").1 e)) held_run

-- ===== src/RateLimit/Bucket.antt =====
-- TokenBucket of pkg/ratelimit/limiter.go. The clock is read by the caller, as `now`.
use packetyeeter.Common.{ℕ, Bool, true, false, if◌then◌else◌}

-- float64, as far as the limiter uses it. `seconds now last` is `now.Sub(last).Seconds()`.
pub record Floats : Type 1 where
  pub F : Type 0
  pub zero_f : F
  pub one_f : F
  pub plus : F → F → F
  pub minus : F → F → F
  pub times : F → F → F
  pub less : F → F → Bool
  pub at_most : F → F → Bool
  pub of_nat : ℕ → F
  pub seconds : ℕ → ℕ → F

module _ (fl : Floats) where
  open fl use {F, zero_f, one_f, plus, minus, times, less, at_most, seconds}

  pub record TokenBucket : Type 0 where
    pub capacity : F
    pub tokens : F
    pub rate : F
    pub last_seen : ℕ

  abbrev pub new_token_bucket : F → F → ℕ → TokenBucket
  new_token_bucket capacity rate now = record {
    capacity = capacity;
    tokens = capacity;
    rate = rate;
    last_seen = now;
  }

  -- `if tb.tokens > tb.capacity { tb.tokens = tb.capacity }`
  abbrev pub capped : F → F → F
  capped capacity tokens = if less capacity tokens then capacity else tokens

  unfoldable pub take_token : ℕ → TokenBucket → TokenBucket × Bool
  take_token now tb =
      let tokens = capped tb.capacity (plus tb.tokens (times (seconds now tb.last_seen) tb.rate)) in
      let seen = record tb { tokens = tokens; last_seen = now } in
      if at_most one_f tokens
      then (record seen { tokens = minus tokens one_f }, true)
      else (seen, false)

  -- The part of setRate that settles what was earned at the old rate.
  abbrev settled : ℕ → TokenBucket → TokenBucket
  settled now tb =
      let elapsed = seconds now tb.last_seen in
      if less zero_f elapsed
      then record tb {
        tokens = capped tb.capacity (plus tb.tokens (times elapsed tb.rate));
        last_seen = now;
      }
      else tb

  unfoldable pub set_rate : F → F → ℕ → TokenBucket → TokenBucket
  set_rate rate capacity now tb = record (settled now tb) {
    rate = rate;
    capacity = capacity;
    tokens = capped capacity (settled now tb).tokens;
  }

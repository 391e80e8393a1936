-- ===== src/LogThrottle/Laws.antt =====
-- What the throttle guarantees: bounded memory, one line per address and interval, spaced overflow lines.
use packetyeeter.Common.{
  ℕ, ◌+◌, ◌≤◌, ◌≡◌, refl, ◌⊎◌, true, Option, none, some, arith, Key, length, length-keep-le, ltb,
  leb,
}
use packetyeeter.Common.Assoc.{
  get, IsUnique, IsUnique-put, IsUnique-keep, length-put, length-put-has, has-get, get-put,
}
use packetyeeter.Common.{beq_self}
use packetyeeter.LogThrottle.{
  Throttle, allow, allow_known, allow_full, sweep_expired, allow_overflow, new, overflow_interval,
}

module _ {K : Type 0} ⦃key : Key K⦄ where
  pub record IsBounded (t : Throttle K) : Type 0 where
    pub room : 1 ≤ t.max_keys
    pub within : length t.last_logged ≤ t.max_keys
    pub unique : IsUnique t.last_logged

  pub new-IsBounded : (interval max_keys : ℕ) → IsBounded (new {K = K} interval max_keys)
  unfolding new
  new-IsBounded interval max_keys = record { room = omega arith; within = omega arith; unique = tt }

  sweep-IsBounded : (now : ℕ) (t : Throttle K) → IsBounded t → IsBounded (sweep_expired now t)
  unfolding sweep_expired
  sweep-IsBounded now t v = ground (
    arith,
    length-keep-le (λ (p : K × ℕ). ltb now (p.1 + t.interval)) t.last_logged,
    IsUnique-keep (λ (p : K × ℕ). ltb now (p.1 + t.interval)) t.last_logged v.unique,
  )

  overflow-IsBounded : (now : ℕ) (t : Throttle K) → IsBounded t → IsBounded (allow_overflow now t).0
  unfolding allow_overflow
  overflow-IsBounded now t v = ground arith

  full-IsBounded :
      (addr : K) (now : ℕ) (t : Throttle K) → IsBounded t → IsBounded (allow_full addr now t).0
  full-IsBounded addr now t v = ground (
    arith,
    overflow-IsBounded now t v,
    length-put addr now t.last_logged,
    IsUnique-put addr now t.last_logged v.unique,
  )

  known-IsBounded :
      (addr : K) (now : ℕ) (t : Throttle K) (o : Option ℕ)
      → get addr t.last_logged ≡ o
      → IsBounded t
      → IsBounded (allow_known addr now t o).0
  known-IsBounded addr now t (some prev) h v = ground (
    arith,
    length-put-has addr now t.last_logged (has-get addr t.last_logged prev h),
    IsUnique-put addr now t.last_logged v.unique,
  )
  known-IsBounded addr now t none h v = ground (
    arith,
    full-IsBounded addr now (sweep_expired now t) (sweep-IsBounded now t v),
    length-put addr now t.last_logged,
    IsUnique-put addr now t.last_logged v.unique,
  )

  -- However often it is called, Allow tracks at most max_keys addresses.
  pub allow-IsBounded :
      (addr : K) (now : ℕ) (t : Throttle K) → IsBounded t → IsBounded (allow addr now t).0
  unfolding allow
  allow-IsBounded addr now t v = known-IsBounded addr now t (get addr t.last_logged) refl v

  -- Where a line that is let through is recorded.
  abbrev pub Recorded : K → ℕ → Throttle K → Throttle K → Type 0
  Recorded addr now t t' =
      (get addr t'.last_logged ≡ some now)
      ⊎ ((t'.last_overflow ≡ now)
          × (t'.max_keys ≤ length t'.last_logged)
          × ((t.last_overflow ≡ 0) ⊎ (t.last_overflow + overflow_interval ≤ now)))

  full-Recorded :
      (addr : K) (now : ℕ) (t : Throttle K)
      → (allow_full addr now t).1 ≡ true
      → Recorded addr now t (allow_full addr now t).0
  unfolding allow_overflow
  full-Recorded addr now t h = ground (arith, get-put addr addr now t.last_logged, beq_self addr)

  sweep-overflow :
      (now : ℕ) (t : Throttle K) → (sweep_expired now t).last_overflow ≡ t.last_overflow
  unfolding sweep_expired
  sweep-overflow now t = ground arith

  known-Recorded :
      (addr : K) (now : ℕ) (t : Throttle K) (o : Option ℕ)
      → (allow_known addr now t o).1 ≡ true
      → Recorded addr now t (allow_known addr now t o).0
  known-Recorded addr now t (some prev) h =
      ground (arith, get-put addr addr now t.last_logged, beq_self addr)
  known-Recorded addr now t none h = ground (
    arith,
    get-put addr addr now t.last_logged,
    beq_self addr,
    full-Recorded addr now (sweep_expired now t),
    sweep-overflow now t,
  )

  -- A line that Allow lets through is recorded: for its address, or as the last overflow line, and then
  -- the map is full and the overflow line before it is at least a second old, or there was none.
  pub allow-Recorded :
      (addr : K) (now : ℕ) (t : Throttle K)
      → (allow addr now t).1 ≡ true
      → Recorded addr now t (allow addr now t).0
  unfolding allow
  allow-Recorded addr now t h = known-Recorded addr now t (get addr t.last_logged) h

  -- When the last line for a tracked address was at `now`, Allow lets the next one through exactly at or
  -- after the end of the interval.
  pub allow_again :
      (addr : K) (now later : ℕ) (t : Throttle K)
      → get addr t.last_logged ≡ some now
      → (allow addr later t).1 ≡ leb (now + t.interval) later
  unfolding allow
  allow_again addr now later t h = ground arith

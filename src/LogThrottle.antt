-- ===== src/LogThrottle.antt =====
-- pkg/analyzer/logthrottle/logthrottle.go: one log line per address and interval, and one line per second
-- for the addresses that do not fit. The clock is the argument `now`.
pub mod Laws
mod Tests
use packetyeeter.Common.{
  ℕ, ◌+◌, max, Bool, true, false, not, ◌&&◌, Option, none, some, List, [], ◌∷◌, if◌then◌else◌, ltb,
  leb, length, keep, Key, ◌==◌, nat_key,
}
use packetyeeter.Common.Assoc.{Map, get, put}

abbrev pub second : ℕ
second = 1_000_000_000

abbrev pub overflow_interval : ℕ
overflow_interval = second

-- `zero` is Go's zero time, which a time of zero nanoseconds stands for.
pub record Throttle (K : Type 0) : Type 0 where
  pub interval : ℕ
  pub max_keys : ℕ
  pub last_logged : Map K ℕ
  pub last_sweep : ℕ
  pub last_overflow : ℕ

pub new : {K : Type 0} → ℕ → ℕ → Throttle K
new interval max_keys = record {
  interval = max interval second;
  max_keys = max max_keys 1;
  last_logged = [];
  last_sweep = 0;
  last_overflow = 0;
}

module _ {K : Type 0} ⦃key : Key K⦄ where
  pub sweep_expired : ℕ → Throttle K → Throttle K
  sweep_expired now t = if ltb now (t.last_sweep + t.interval) then t else record t {
    last_sweep = now;
    last_logged = keep (λ (p : K × ℕ). ltb now (p.1 + t.interval)) t.last_logged;
  }

  pub allow_overflow : ℕ → Throttle K → Throttle K × Bool
  allow_overflow now t =
      if not (t.last_overflow == 0) && ltb now (t.last_overflow + overflow_interval)
      then (t, false)
      else (record t { last_overflow = now }, true)

  abbrev pub log_now : K → ℕ → Throttle K → Throttle K × Bool
  log_now addr now t = (record t { last_logged = put addr now t.last_logged }, true)

  -- The map is full: expired entries go, and if it stays full the line is an overflow line.
  abbrev pub allow_full : K → ℕ → Throttle K → Throttle K × Bool
  allow_full addr now t =
      if leb t.max_keys (length t.last_logged) then allow_overflow now t else log_now addr now t

  abbrev pub allow_known : K → ℕ → Throttle K → Option ℕ → Throttle K × Bool
  allow_known addr now t (some prev) =
      if ltb now (prev + t.interval) then (t, false) else log_now addr now t
  allow_known addr now t none =
      if leb t.max_keys (length t.last_logged)
      then allow_full addr now (sweep_expired now t)
      else log_now addr now t

  pub allow : K → ℕ → Throttle K → Throttle K × Bool
  unfolding sweep_expired allow_overflow
  allow addr now t = allow_known addr now t (get addr t.last_logged)

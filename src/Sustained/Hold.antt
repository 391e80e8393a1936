-- ===== src/Sustained/Hold.antt =====
-- assess of pkg/analyzer/sustained/tracker.go: what happens to one client in an evaluation.
use packetyeeter.Common.{
  ℕ, ◌-◌, ◌+◌, ◌*◌, ◌/◌, ◌%◌, ◌^◌, String, Bool, true, false, not, ◌&&◌, ◌||◌, Option, none, some,
  if◌then◌else◌, ltb, leb,
}
use packetyeeter.Sustained.Config.{Settings}
use packetyeeter.Sustained.Client.{ClientWindow, second}
use packetyeeter.Sustained.Thresholds.{Match, Measured, over, path, times64}

pub record Assessment : Type 0 where
  pub base : Match
  pub current : Match
  pub good : Bool
  pub measured : Measured
  pub now : ℕ

-- The counters that an evaluation changes.
pub record Tally : Type 0 where
  pub reputation_deferrals : ℕ
  pub long_deferred : ℕ
  pub held : ℕ

-- The decision on a client, as far as assess fills it in.
pub record Verdict : Type 0 where
  pub path : String
  pub held : Bool

abbrev pub or_now : Option ℕ → ℕ → ℕ
or_now none now = now
or_now (some at) now = at

abbrev pub fresh : Match → Verdict
fresh m = record { path = path m; held = false }

-- A client that is not selected.
abbrev pub assess_new :
    Settings → Assessment → ClientWindow → Tally → ClientWindow × Tally × Option Verdict
assess_new s a c t =
    let since = or_now c.deferred_since a.now in
    if not (over a.base)
    then (record c { deferred_since = none }, t, none)
    else if a.good && not (over a.current)
    then (
      record c { deferred_since = some since },
      record t {
        reputation_deferrals = (t.reputation_deferrals + 1) % 2 ^ 64;
        long_deferred =
            if leb (since + s.config.window_seconds * second) a.now
            then t.long_deferred + 1
            else t.long_deferred;
      },
      none,
    )
    else (
      record c {
        deferred_since = none;
        selected_since = if s.hold_disabled then c.selected_since else some a.now;
      },
      t,
      some (fresh a.current),
    )

unfoldable pub still_active : Settings → Measured → Bool
still_active s m =
    leb (times64 s.config.minimum_requests s.config.release_factor_percent / 100) m.requests
    && leb (s.config.minimum_resources * s.config.release_factor_percent / 100) m.resources
    && leb (s.config.minimum_sections * s.config.release_factor_percent / 100) m.sections

abbrev pub hold_limit : Settings → Bool → ℕ
hold_limit s good = if good && ltb s.hold s.maximum_hold then s.hold else s.maximum_hold

-- heldFor >= time.Duration(seconds) * time.Second, where the product is an int64 that may wrap and be negative.
abbrev pub held_for : ℕ → ℕ → ℕ → Bool
held_for since seconds now =
    let duration = seconds * second % 2 ^ 64 in
    if ltb duration (2 ^ 63)
    then leb (since + duration) now
    else leb since (now + (2 ^ 64 - duration))

-- A client that was selected at `since`.
abbrev pub assess_selected :
    Settings → Assessment → ℕ → ClientWindow → Tally → ClientWindow × Tally × Option Verdict
assess_selected s a since c t =
    let beyond_maximum = held_for since (hold_limit s a.good) a.now in
    let beyond_minimum = held_for since s.hold a.now in
    if over a.current
    then (record c { selected_since = some a.now }, t, some (fresh a.current))
    else if beyond_maximum || (beyond_minimum && not (still_active s a.measured))
    then (record c { selected_since = none; deferred_since = none }, t, none)
    else (c, record t { held = t.held + 1 }, some (record { path = ""; held = true }))

abbrev pub assess_since :
    Settings → Assessment → Option ℕ → ClientWindow → Tally → ClientWindow × Tally × Option Verdict
assess_since s a none c t = assess_new s a c t
assess_since s a (some since) c t = assess_selected s a since c t

unfoldable pub assess :
    Settings → Assessment → ClientWindow → Tally → ClientWindow × Tally × Option Verdict
unfolding still_active
assess s a c t = assess_since s a c.selected_since c t

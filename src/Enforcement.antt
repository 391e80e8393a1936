-- ===== src/Enforcement.antt =====
-- The kill switch of pkg/analyzer/enforcement.go, and the two limits on a trusted scrub stream of
-- pkg/analyzer/scrub_trust.go that decide whether a source is blocked.
pub mod Laws
mod Tests
use packetyeeter.Common.{
  ℕ, ◌+◌, String, Bool, true, false, not, ◌&&◌, ◌||◌, if◌then◌else◌, ◌==◌, string_key, List, [],
  ◌∷◌, Option, none, some,
}

pub record EnforcementState : Type 0 where
  pub stopped : Bool
  pub reason : String

pub data CommandType : Type 0 where
  unknown block_ip unblock_ip block_cidr unblock_cidr allowlist_ip remove_allowlist_ip set_rules :
      CommandType

abbrev pub running : EnforcementState
running = record { stopped = false; reason = "" }

pub stop : String → EnforcementState → EnforcementState
stop reason e = record {
  stopped = true;
  reason = if reason == "" then "no reason given" else reason;
}

pub status : EnforcementState → Bool × String
status e = if not e.stopped then (false, "") else (true, e.reason)

unfoldable pub enforcing : Bool → EnforcementState → Bool
unfolding status
enforcing dry_run e = not dry_run && not (status e).0

pub is_enforcing_command : CommandType → Bool
is_enforcing_command block_ip = true
is_enforcing_command block_cidr = true
is_enforcing_command unknown = false
is_enforcing_command unblock_ip = false
is_enforcing_command unblock_cidr = false
is_enforcing_command allowlist_ip = false
is_enforcing_command remove_allowlist_ip = false
is_enforcing_command set_rules = false

pub suppressed_by_kill_switch : EnforcementState → CommandType → Bool
unfolding is_enforcing_command status
suppressed_by_kill_switch e cmd =
    if not (is_enforcing_command cmd) then false else if not (status e).0 then false else true

-- The limiters of an analyzer, what trackBlocked has recorded, and the penalties of the shared reputation.
-- `allow` is what a limiter does with the request at hand. An absent limiter lets it pass.
pub record Limits (L : Type 0) : Type 0 where
  pub shared : Option L
  pub scrub : Option L
  pub blocked : ℕ
  pub penalties : ℕ

pub record Verdict : Type 0 where
  pub limited : Bool
  pub fanout : Bool

module _ {L : Type 0} (allow : L → L × Bool) (dry_run : Bool) where
  abbrev pub ask : Option L → Option L × Bool
  ask none = (none, true)
  ask (some l) = let out = allow l in (some out.0, out.1)

  abbrev pub record_rate_limit_trip : Limits L → Limits L
  record_rate_limit_trip a = if dry_run then a else record a { blocked = a.blocked + 1 }

  pub check_rate_limit : Limits L → Limits L × Bool
  check_rate_limit a =
      let asked = ask a.shared in
      let a' = record a { shared = asked.0 } in
      if asked.1 then (a', false) else (record_rate_limit_trip a', true)

  -- A trusted scrub stream with its own limiter.
  abbrev pub check_trusted : L → Limits L → Limits L × Verdict
  check_trusted scrub a =
      let shared = ask a.shared in
      let own = allow scrub in
      let a' = record a { shared = shared.0; scrub = some own.0 } in
      if not own.1 then (record_rate_limit_trip a', record { limited = true; fanout = true }) else (
        (if not shared.1 && not dry_run then record a' { penalties = a'.penalties + 1 } else a'),
        record { limited = false; fanout = false },
      )

  abbrev pub check_shared : Limits L × Bool → Limits L × Verdict
  check_shared (a, limited) = (a, record { limited = limited; fanout = false })

  -- `trusted` is whether the signal came on a trusted scrub stream.
  pub check_rate_limit_for : Bool → Limits L → Limits L × Verdict
  unfolding check_rate_limit
  check_rate_limit_for false a = check_shared (check_rate_limit a)
  check_rate_limit_for true a = elim a.scrub [
    | none ↦ check_shared (check_rate_limit a)
    | some scrub ↦ check_trusted scrub a
  ]

-- The score that decides a block of a source, whether it is over the threshold, and whether the block fans out.
-- `over` compares a float64 with the threshold; an absent reputation scores `zero_score`.
module _ {F : Type 0} (zero_score : F) (over : F → Bool) where
  abbrev pub score_of : Option F → F
  score_of none = zero_score
  score_of (some score) = score

  pub reputation_verdict : Bool → Option F → Option F → F × Bool × Bool
  reputation_verdict false shared scrub = (score_of shared, over (score_of shared), false)
  reputation_verdict true shared scrub =
      (score_of scrub, over (score_of scrub), over (score_of scrub))

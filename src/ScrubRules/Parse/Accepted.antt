-- ===== src/ScrubRules/Parse/Accepted.antt =====
-- What a rule that Parse accepts satisfies, and how acceptance depends on the clock.
use packetyeeter.Common.{ℕ, ◌≤◌, ◌<◌, ◌≡◌, ◌≢◌, String, Option, some, arith, eq_iff}
use packetyeeter.Common.Result.{ok, err}
use packetyeeter.ScrubRules.Types.{Prefix, ProtoRule, Rule}
use packetyeeter.ScrubRules.Parse.{parse, already_expired}

module _ (parse_prefix : String → Option Prefix) (pr : ProtoRule) (r : Rule) (now : ℕ) where
  -- Acceptance depends on the clock through the expiry alone: a rule that Parse accepts at one time is
  -- accepted, with the same encoding, at every time before its expiry.
  pub parse_later :
      (later : ℕ)
      → parse parse_prefix pr now ≡ ok r
      → later < r.expires
      → parse parse_prefix pr later ≡ ok r
  unfolding parse
  parse_later later h before = ground (arith, eq_iff pr.id "")

  -- A rule that was accepted at some time is rejected as already expired at every time from its expiry on.
  pub parse_expired :
      (later : ℕ)
      → parse parse_prefix pr now ≡ ok r
      → r.expires ≤ later
      → parse parse_prefix pr later ≡ err already_expired
  unfolding parse
  parse_expired later h after = ground (arith, eq_iff pr.id "")

  pub parse_fields :
      parse parse_prefix pr now ≡ ok r
      → (r.id ≡ pr.id)
        × (r.priority ≡ pr.priority)
        × (pr.expires_at ≡ some r.expires)
        × (now < r.expires)
        × (r.id ≢ "")
  unfolding parse
  parse_fields h = ground (arith, eq_iff pr.id "")

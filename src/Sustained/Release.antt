-- ===== src/Sustained/Release.antt =====
-- The hold of a selected client that clears its thresholds no more: not released before the minimum, and released
-- by the maximum.
use packetyeeter.Common.{
  ℕ, zero, suc, ◌^◌, ◌%◌, ◌+◌, ◌*◌, ◌≤◌, ◌<◌, ◌≡◌, refl, ◌∙◌, inl, inr, Bool, true, false, not,
  ◌&&◌, ◌||◌, ◌⊎◌, none, some, List, [], ◌∷◌, ◌++◌, arith, length, All, Bool-cases,
}
use packetyeeter.Sustained.Client.{ClientWindow, second}
use packetyeeter.Sustained.Config.{Config, Settings, settle}
use packetyeeter.Sustained.Thresholds.{over}
use packetyeeter.Sustained.Hold.{Assessment, Tally, assess, still_active, hold_limit, held_for}

-- The assessments of one client in evaluations that follow one another.
abbrev pub assess_all : Settings → List Assessment → ClientWindow → Tally → ClientWindow × Tally
assess_all s [] c t = (c, t)
assess_all s (a ∷ more) c t = let out = assess s a c t in assess_all s more out.0 out.1

-- The client does not clear its thresholds. Those without a good reputation are the base ones.
abbrev pub IsQuiet : Assessment → Type 0
IsQuiet a = (over a.current ≡ false) × (over a.base ≡ true → a.good ≡ true)

free_remains :
    (s : Settings) (a : Assessment) (c : ClientWindow) (t : Tally)
    → IsQuiet a
    → c.selected_since ≡ none
    → (assess s a c t).0.selected_since ≡ none
unfolding assess
free_remains s a c t q free = rw free (ground (arith, q.0, q.1, free))

all_free :
    (s : Settings) (assessments : List Assessment) (c : ClientWindow) (t : Tally)
    → All IsQuiet assessments
    → c.selected_since ≡ none
    → (assess_all s assessments c t).0.selected_since ≡ none
all_free s [] c t q free = free
all_free s (a ∷ more) c t q free =
    all_free s more (assess s a c t).0 (assess s a c t).1 q.1 (free_remains s a c t q.0 free)

hold_limit-bounds : (s : Settings) (good : Bool) → hold_limit s good ≤ s.maximum_hold
hold_limit-bounds s good = ground arith

hold_limit-least :
    (s : Settings) (good : Bool) → s.hold ≤ s.maximum_hold → s.hold ≤ hold_limit s good
hold_limit-least s good bounds = ground arith

times_le : (a b n : ℕ) → a ≤ b → a * n ≤ b * n
times_le zero b n h = omega arith
times_le (suc a) zero n h = absurd (omega (arith, h))
times_le (suc a) (suc b) n h = omega (arith, times_le a b n (omega (arith, h)))

-- A wrapped product is at most the product, so no wrap makes a hold longer.
held_for-late :
    (since seconds most now : ℕ)
    → seconds ≤ most
    → since + most * second ≤ now
    → held_for since seconds now ≡ true
held_for-late since seconds most now le late = ground (arith, times_le seconds most second le)

held_for-early :
    (since least seconds most now : ℕ)
    → least ≤ seconds
    → seconds ≤ most
    → most * second < 2 ^ 63
    → now < since + least * second
    → held_for since seconds now ≡ false
held_for-early since least seconds most now le up fits early =
    let product : seconds * second % 2 ^ 64 ≡ seconds * second =
      omega (arith, times_le seconds most second up) in
    ground (arith, product, times_le seconds most second up, times_le least seconds second le)

-- The hold of a client selected at `since` is over.
abbrev is_over : Settings → Assessment → ℕ → Bool
is_over s a since =
    held_for since (hold_limit s a.good) a.now
    || held_for since s.hold a.now && not (still_active s a.measured)

held_or_free :
    (s : Settings) (a : Assessment) (c : ClientWindow) (t : Tally) (since : ℕ)
    → IsQuiet a
    → c.selected_since ≡ some since
    → ((assess s a c t).0.selected_since ≡ none) ⊎ ((assess s a c t).0.selected_since ≡ some since)
unfolding assess
held_or_free s a c t since q held = elim (Bool-cases (is_over s a since)) [
  | inl out ↦ rw held (rw (q.0, out) (inl refl))
  | inr holds ↦ rw held (rw (q.0, holds) (inr refl))
]

expires :
    (s : Settings) (a : Assessment) (c : ClientWindow) (t : Tally) (since : ℕ)
    → IsQuiet a
    → c.selected_since ≡ some since
    → since + s.maximum_hold * second ≤ a.now
    → (assess s a c t).0.selected_since ≡ none
unfolding assess
expires s a c t since q held late =
    let limit : held_for since (hold_limit s a.good) a.now ≡ true =
      held_for-late since (hold_limit s a.good) s.maximum_hold a.now (hold_limit-bounds s a.good)
        late in
    let out : is_over s a since ≡ true = ground (arith, limit) in rw held (rw (q.0, out) refl)

stays :
    (s : Settings) (a : Assessment) (c : ClientWindow) (t : Tally) (since : ℕ)
    → s.hold ≤ s.maximum_hold
    → s.maximum_hold * second < 2 ^ 63
    → IsQuiet a
    → c.selected_since ≡ some since
    → a.now < since + s.hold * second
    → ((assess s a c t).0 ≡ c) × ((assess s a c t).1.held ≡ t.held + 1)
unfolding assess
stays s a c t since bounds fits q held early =
    let longer : held_for since (hold_limit s a.good) a.now ≡ false =
      held_for-early since s.hold (hold_limit s a.good) s.maximum_hold a.now
        (hold_limit-least s a.good bounds) (hold_limit-bounds s a.good) fits early in
    let shorter : held_for since s.hold a.now ≡ false =
      held_for-early since s.hold s.hold s.maximum_hold a.now (omega arith) bounds fits early in
    let holds : is_over s a since ≡ false = ground (arith, longer, shorter) in
    rw held (rw (q.0, holds) (refl, refl))

settle-bounds : (cfg : Config) → (settle cfg).hold ≤ (settle cfg).maximum_hold
unfolding settle
settle-bounds cfg = ground arith

-- A client selected at `since` whose assessments are quiet from there on is selected no more after the assessments
-- up to one at or after the maximum hold, and later, however many there are, whatever it was measured at in each
-- and whether it was released before.
pub released_by_maximum :
    (s : Settings) (before after : List Assessment) (a : Assessment) (c : ClientWindow) (t : Tally)
    (since : ℕ)
    → c.selected_since ≡ some since
    → All IsQuiet (before ++ a ∷ after)
    → since + s.maximum_hold * second ≤ a.now
    → (assess_all s (before ++ a ∷ after) c t).0.selected_since ≡ none
released_by_maximum s [] after a c t since held q late =
    all_free s after (assess s a c t).0 (assess s a c t).1 q.1 (expires s a c t since q.0 held late)
released_by_maximum s (b ∷ before) after a c t since held q late =
    let out = assess s b c t in
    elim (held_or_free s b c t since q.0 held) [
      | inl free ↦ all_free s (before ++ a ∷ after) out.0 out.1 q.1 free
      | inr still ↦ released_by_maximum s before after a out.0 out.1 since still q.1 late
    ]

-- With the settings of a configuration whose maximum hold fits in an int64 of nanoseconds, a client selected at `since` is left as it is by quiet assessments before
-- the minimum hold, however little it does, and each of them counts it as held.
pub held_for_minimum :
    (cfg : Config) (assessments : List Assessment) (c : ClientWindow) (t : Tally) (since : ℕ)
    → c.selected_since ≡ some since
    → All IsQuiet assessments
    → (settle cfg).maximum_hold * second < 2 ^ 63
    → All (λ a. a.now < since + (settle cfg).hold * second) assessments
    → ((assess_all (settle cfg) assessments c t).0 ≡ c)
      × ((assess_all (settle cfg) assessments c t).1.held ≡ t.held + length assessments)
held_for_minimum cfg [] c t since held q fits early = (refl, omega arith)
held_for_minimum cfg (a ∷ more) c t since held q fits early =
    let out = assess (settle cfg) a c t in
    let (same, counted) =
      stays (settle cfg) a c t since (settle-bounds cfg) fits q.0 held early.0 in
    let rest = held_for_minimum cfg more out.0 out.1 since (rw same held) q.1 fits early.1 in
    (rest.0 ∙ same, omega (arith, rest.1, counted))

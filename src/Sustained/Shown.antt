-- ===== src/Sustained/Shown.antt =====
-- After an evaluation, what Snapshot shows of the clients is what the evaluation selected.
use packetyeeter.Common.{
  ℕ, zero, suc, ◌+◌, ◌*◌, ◌%◌, ◌^◌, ◌≤◌, ◌<◌, ◌≡◌, refl, sym, ap, ◌∙◌, subst, inl, inr, String,
  Bool, true, false, not, ◌||◌, ◌&&◌, Option, none, some, [], ◌∷◌, arith, if◌then◌else◌, ltb, leb,
  All, Bool-cases, Option-cases,
}
use packetyeeter.Common.Assoc.{Map}
use packetyeeter.Sustained.Client.{ClientWindow, prune_client, second}
use packetyeeter.Sustained.Config.{Config, Settings}
use packetyeeter.Sustained.Thresholds.{
  Measured, Match, over, match_thresholds, times64, resources_per_section_within,
}
use packetyeeter.Sustained.Hold.{Assessment, Tally, Verdict, assess}
use packetyeeter.Sustained.Tracker.{Tracker, measure}
use packetyeeter.Sustained.Evaluate.{
  Evaluation, factor_of, assessment_of, emit, evaluate_client, evaluate_each, evaluate, too_soon,
}
use packetyeeter.Sustained.Round.{Marked, assess-Marked, emit-Marked}
use packetyeeter.Sustained.Snapshot.{
  Action, watching, would_block, blocking, action_of, is_held, snapshot_client,
}

-- No threshold that is raised for a good reputation wraps.
pub record IsRaisable (cfg : Config) : Type 0 where
  pub least : 1 ≤ cfg.reputation_factor
  pub factor : cfg.reputation_factor < 2 ^ 64
  pub requests : cfg.minimum_requests * cfg.reputation_factor < 2 ^ 64
  pub bytes : cfg.minimum_bytes * cfg.reputation_factor < 2 ^ 64

raise_le : (n f : ℕ) → 1 ≤ f → n ≤ n * f
raise_le n zero h = omega (arith, h)
raise_le n (suc f) h = omega arith

raised_times :
    (n f : ℕ) → 1 ≤ f → f < 2 ^ 64 → n * f < 2 ^ 64 → times64 n 1 ≤ times64 n (f % 2 ^ 64)
raised_times n f least small product =
    let e : f % 2 ^ 64 ≡ f = omega arith in rw e (omega (arith, raise_le n f least))

raised_over :
    (base raised requests : ℕ) (resources sections shape : Bool) (base_bytes raised_bytes bytes : ℕ)
    → base ≤ raised
    → base_bytes ≤ raised_bytes
    → over (
        if not (leb raised requests && resources && sections)
        then record { volume = false; shape = false }
        else record { volume = leb raised_bytes bytes; shape = shape })
      ≡ true
    → over (
        if not (leb base requests && resources && sections)
        then record { volume = false; shape = false }
        else record { volume = leb base_bytes bytes; shape = shape })
      ≡ true
raised_over base raised requests resources sections shape base_bytes raised_bytes bytes le le' h =
    ground arith

raised-base :
    (cfg : Config) (m : Measured)
    → IsRaisable cfg
    → over (match_thresholds cfg m (cfg.reputation_factor % 2 ^ 64)) ≡ true
    → over (match_thresholds cfg m 1) ≡ true
unfolding match_thresholds
raised-base cfg m r h =
    let requests =
      raised_times cfg.minimum_requests cfg.reputation_factor r.least r.factor r.requests in
    let bytes = raised_times cfg.minimum_bytes cfg.reputation_factor r.least r.factor r.bytes in
    raised_over (times64 cfg.minimum_requests 1)
      (times64 cfg.minimum_requests (cfg.reputation_factor % 2 ^ 64)) m.requests
      (leb cfg.minimum_resources m.resources) (leb cfg.minimum_sections m.sections)
      (resources_per_section_within cfg.maximum_resources_per_section_percent m.resources
        m.sections)
      (times64 cfg.minimum_bytes 1) (times64 cfg.minimum_bytes (cfg.reputation_factor % 2 ^ 64))
      m.bytes requests bytes h

assess-selected :
    (s : Settings) (a : Assessment) (c : ClientWindow) (t : Tally)
    → s.hold_disabled ≡ false
    → (over a.current ≡ true → over a.base ≡ true)
    → over a.current ≡ true
    → (assess s a c t).0.selected_since ≡ some a.now
unfolding assess
assess-selected s a c t holds mono h = elim (Option-cases c.selected_since) [
  | inl free ↦ rw free (ground (arith, holds, h, mono h))
  | inr (since, held) ↦ rw held (ground (arith, h))
]

-- What an action says of a client that is selected or not.
abbrev pub shown_as : Bool → Option ℕ → Action
shown_as enforcing none = watching
shown_as enforcing (some since) = if enforcing then blocking else would_block

action_shown :
    (enforcing : Bool) (matched : Match) (since : Option ℕ) (now : ℕ)
    → (over matched ≡ true → since ≡ some now)
    → action_of enforcing matched (is_held matched since) ≡ shown_as enforcing since
action_shown enforcing matched none now h = elim (Bool-cases (over matched)) [
  | inl up ↦ absurd (ground (arith, h up))
  | inr down ↦ rw down refl
]
action_shown enforcing matched (some since) now h = ground arith

measure-Marked : (c c' : ClientWindow) → Marked c c' → measure c' ≡ measure c
measure-Marked c c' (b, r, refs, last) = rw (b, r, refs) refl

module _ (good : String → Bool) (s : Settings) (now : ℕ) (enforcing : Bool) where
  -- The snapshot of a client that stays shows what it is selected as.
  abbrev pub IsShown : String → ClientWindow → Type 0
  IsShown ip c =
      (snapshot_client good s now enforcing ip c).action ≡ shown_as enforcing c.selected_since

  abbrev IsShownIf : String → Option ClientWindow → Type 0
  IsShownIf ip none = Unit
  IsShownIf ip (some c) = IsShown ip c

  current_shown :
      (ip : String) (c : ClientWindow)
      → (assessment_of good s now ip c).current
        ≡ match_thresholds s.config (measure c) (factor_of good s now ip % 2 ^ 64)
  current_shown ip c = elim (Bool-cases (good ip)) [
    | inl well ↦ rw well refl
    | inr ill ↦ rw ill refl
  ]

  current-base :
      IsRaisable s.config
      → (ip : String) (c : ClientWindow) → over (assessment_of good s now ip c).current ≡ true
      → over (assessment_of good s now ip c).base ≡ true
  current-base r ip c h = elim (Bool-cases (good ip)) [
    | inl well ↦ raised-base s.config (measure c) r (rw well at h)
    | inr ill ↦ rw ill at h
  ]

  emit-selected :
      (ip : String) (measured : ClientWindow) (p : ClientWindow × Tally × Option Verdict)
      (e : Evaluation)
      → (emit good s now ip measured p e).0.selected_since ≡ p.0.selected_since
  emit-selected ip measured (c, tally, none) e = refl
  emit-selected ip measured (c, tally, some v) e = ground arith

  module _ (holds : s.hold_disabled ≡ false) (raisable : IsRaisable s.config) where
    emitted-IsShown :
        (ip : String) (c : ClientWindow) (t : Tally) (e : Evaluation)
        → IsShown ip (emit good s now ip c (assess s (assessment_of good s now ip c) c t) e).0
    unfolding snapshot_client
    emitted-IsShown ip c t e =
        let a = assessment_of good s now ip c in
        let p = assess s a c t in
        let out = (emit good s now ip c p e).0 in
        let same =
          measure-Marked p.0 out (emit-Marked good s now ip c p e)
          ∙ measure-Marked c p.0 (assess-Marked s a c t) in
        let factor = factor_of good s now ip % 2 ^ 64 in
        action_shown enforcing (match_thresholds s.config (measure out) factor) out.selected_since
          now
          (λ h.
            emit-selected ip c p e
            ∙ assess-selected s a c t holds (current-base raisable ip c) (
                ap over
                  (current_shown ip c ∙ ap (λ m. match_thresholds s.config m factor) (sym same))
                ∙ h))

    evaluate_client-IsShown :
        (ip : String) (c : ClientWindow) (e : Evaluation)
        → IsShownIf ip (evaluate_client good s now ip c e).0
    unfolding evaluate_client
    evaluate_client-IsShown ip c e =
        elim (Bool-cases (ltb (c.last_seen + 2 * (s.config.window_seconds * second)) now)) [
          | inl old ↦ rw old tt
          | inr young ↦
              rw young (
                emitted-IsShown ip (prune_client (s.config.window_seconds * second) now c) e.tally
                  e)
        ]

    evaluate_each-IsShown :
        (m : Map String ClientWindow) (e : Evaluation)
        → All (λ p. IsShown p.0 p.1) (evaluate_each good s now m e).0
    unfolding evaluate_each
    evaluate_each-IsShown [] e = tt
    evaluate_each-IsShown ((ip, c) ∷ m) e =
        let one = evaluate_client good s now ip c e in
        let first = evaluate_client-IsShown ip c e in
        let more = evaluate_each-IsShown m one.1 in
        elim (Option-cases one.0) [
          | inl out ↦ rw out more
          | inr (c', stays) ↦ rw stays (subst (IsShownIf ip) stays first, more)
        ]

-- With holds enabled and a reputation factor that makes no threshold wrap, an evaluation that is due leaves each
-- client so that a snapshot at its clock shows it as being watched exactly when it is not selected, and otherwise as
-- blocked if blocks are enforced, and as one that would be blocked if not.
pub evaluate-IsShown :
    (good : String → Bool) (now : ℕ) (enforcing : Bool) (t : Tracker)
    → t.settings.config.enabled ≡ true
    → too_soon now t t.last_evaluation ≡ false
    → t.settings.hold_disabled ≡ false
    → IsRaisable t.settings.config
    → All
        (λ p.
          (snapshot_client good t.settings now enforcing p.0 p.1).action
          ≡ shown_as enforcing p.1.selected_since)
        (evaluate good now t).0.clients
unfolding evaluate
evaluate-IsShown good now enforcing t on due holds raisable =
    let runs : (not t.settings.config.enabled || too_soon now t t.last_evaluation) ≡ false =
      ground (arith, on, due) in
    rw runs (evaluate_each-IsShown good t.settings now enforcing holds raisable t.clients _)

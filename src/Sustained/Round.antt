-- ===== src/Sustained/Round.antt =====
-- An evaluation's round for one client: the client goes from the order and the map, or stays in both.
use packetyeeter.Common.{
  ℕ, ◌+◌, ◌*◌, ◌≡◌, refl, ◌⊎◌, inl, inr, String, Bool, Option, none, some, arith, if◌then◌else◌,
  ltb, Bool-cases, Option-cases, string_key, nat_key,
}
use packetyeeter.Sustained.Client.{ClientWindow, prune_client, second}
use packetyeeter.Sustained.Pruning.{prune_client-IsWindow}
use packetyeeter.Sustained.Config.{Settings}
use packetyeeter.Sustained.Hold.{Assessment, Tally, Verdict, assess}
use packetyeeter.Sustained.Tracker.{without}
use packetyeeter.Sustained.Evaluate.{Evaluation, emit, evaluate_client, assessment_of}
use packetyeeter.Sustained.Invariant.{IsClient}

-- The window is the same but for when the client was published, deferred and selected.
abbrev pub Marked : ClientWindow → ClientWindow → Type 0
Marked c c' =
    (c'.buckets ≡ c.buckets)
    × (c'.resources ≡ c.resources)
    × (c'.section_refs ≡ c.section_refs)
    × (c'.last_seen ≡ c.last_seen)

Marked-IsClient :
    (limit clock : ℕ) (c c' : ClientWindow)
    → Marked c c'
    → IsClient limit clock c
    → IsClient limit clock c'
Marked-IsClient limit clock c c' (b, r, s, l) (w, le) = (
  record {
    counted = rw (r, s) w.counted;
    limited = rw r w.limited;
    capped = rw r w.capped;
    once = rw r w.once;
    seen = rw (r, l) w.seen;
    starts = rw b w.starts;
  },
  rw l le,
)

pub assess-Marked :
    (s : Settings) (a : Assessment) (c : ClientWindow) (t : Tally) → Marked c (assess s a c t).0
unfolding assess
assess-Marked s a c t = elim (Option-cases c.selected_since) [
  | inl free ↦ rw free (ground arith)
  | inr (since, held) ↦ rw held (ground arith)
]

module _ (good : String → Bool) (s : Settings) (now : ℕ) where
  pub emit-Marked :
      (ip : String) (measured : ClientWindow) (p : ClientWindow × Tally × Option Verdict)
      (e : Evaluation)
      → Marked p.0 (emit good s now ip measured p e).0
  emit-Marked ip measured (c, tally, none) e = (refl, refl, refl, refl)
  emit-Marked ip measured (c, tally, some v) e = ground arith

  emit-order :
      (ip : String) (measured : ClientWindow) (p : ClientWindow × Tally × Option Verdict)
      (e : Evaluation)
      → (emit good s now ip measured p e).1.order ≡ e.order
  emit-order ip measured (c, tally, none) e = refl
  emit-order ip measured (c, tally, some v) e = ground arith

  -- Whether the round removes the client.
  abbrev gone : ClientWindow → Bool
  gone c = ltb (c.last_seen + 2 * (s.config.window_seconds * second)) now

  evaluate_client-order :
      (ip : String) (c : ClientWindow) (e : Evaluation)
      → (evaluate_client good s now ip c e).1.order
        ≡ (if gone c then without ip e.order else e.order)
  unfolding evaluate_client prune_client
  evaluate_client-order ip c e =
      let pruned = prune_client (s.config.window_seconds * second) now c in
      elim (Bool-cases (gone c)) [
        | inl old ↦ rw old refl
        | inr young ↦
            rw young (
              emit-order ip pruned (assess s (assessment_of good s now ip pruned) pruned e.tally) e)
      ]

  -- The window that the round leaves, if it keeps the client.
  evaluate_client-kept :
      (limit clock : ℕ) (ip : String) (c : ClientWindow) (e : Evaluation)
      → IsClient limit clock c
      → if gone c
        then ((evaluate_client good s now ip c e).0 ≡ none)
        else ((c' : ClientWindow) × ((evaluate_client good s now ip c e).0 ≡ some c')
            × IsClient limit clock c')
  unfolding evaluate_client prune_client
  evaluate_client-kept limit clock ip c e (w, le) =
      let pruned = prune_client (s.config.window_seconds * second) now c in
      let p = assess s (assessment_of good s now ip pruned) pruned e.tally in
      let out = emit good s now ip pruned p e in
      elim (Bool-cases (gone c)) [
        | inl old ↦ rw old refl
        | inr young ↦ rw young (
          out.0,
          refl,
          Marked-IsClient limit clock p.0 out.0 (emit-Marked ip pruned p e) (
              Marked-IsClient limit clock pruned p.0
                (assess-Marked s (assessment_of good s now ip pruned) pruned e.tally)
                (prune_client-IsWindow (s.config.window_seconds * second) now limit c w, le)),
        )
      ]

  -- The client leaves the order and the map, or it stays in both with a well-formed window.
  abbrev pub Round : ℕ → ℕ → String → Evaluation → Option ClientWindow × Evaluation → Type 0
  Round limit clock ip e one =
      ((one.0 ≡ none) × (one.1.order ≡ without ip e.order))
      ⊎ ((c : ClientWindow) × (one.0 ≡ some c) × IsClient limit clock c × (one.1.order ≡ e.order))

  pub evaluate_client-Round :
      (limit clock : ℕ) (ip : String) (c : ClientWindow) (e : Evaluation)
      → IsClient limit clock c
      → Round limit clock ip e (evaluate_client good s now ip c e)
  evaluate_client-Round limit clock ip c e v =
      let order = evaluate_client-order ip c e in
      let kept = evaluate_client-kept limit clock ip c e v in
      elim (Bool-cases (gone c)) [
        | inl old ↦ inl (rw old at kept, rw old at order)
        | inr young ↦
            let (c', stays, w) : (c' : ClientWindow) × ((evaluate_client good s now ip c e).0
                  ≡ some c')
                × IsClient limit clock c' =
              rw young at kept in
            inr (c', stays, w, rw young at order)
      ]

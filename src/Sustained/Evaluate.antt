-- ===== src/Sustained/Evaluate.antt =====
-- Evaluate of pkg/analyzer/sustained/tracker.go: the loop over the clients, in the order of the list that stands for
-- the map, and what it emits. `good` is the reputation callback.
use packetyeeter.Common.{
  ℕ, ◌+◌, ◌*◌, ◌%◌, ◌^◌, String, Bool, false, not, ◌||◌, Option, none, some, List, [], ◌∷◌, ◌++◌,
  if◌then◌else◌, ltb, length, nat_key, string_key,
}
use packetyeeter.Common.Assoc.{Map}
use packetyeeter.Sustained.Client.{ClientWindow, prune_client, second}
use packetyeeter.Sustained.Config.{Settings}
use packetyeeter.Sustained.Thresholds.{Measured, match_thresholds}
use packetyeeter.Sustained.Hold.{Assessment, Tally, Verdict, assess}
use packetyeeter.Sustained.Tracker.{Tracker, without, measure}

pub record Decision : Type 0 where
  pub ip : String
  pub measured : Measured
  pub good_reputation : Bool
  pub threshold_factor : ℕ
  pub path : String
  pub held : Bool

-- What an evaluation gathers on its way.
pub record Evaluation : Type 0 where
  pub tally : Tally
  pub emitted : List Decision
  pub order : List String

module _ (good : String → Bool) (s : Settings) (now : ℕ) where
  abbrev pub factor_of : String → ℕ
  factor_of ip = if good ip then s.config.reputation_factor else 1

  abbrev pub assessment_of : String → ClientWindow → Assessment
  assessment_of ip c =
      let m = measure c in
      let base = match_thresholds s.config m 1 in
      record {
        base = base;
        current =
            if good ip
            then match_thresholds s.config m (s.config.reputation_factor % 2 ^ 64)
            else base;
        good = good ip;
        measured = m;
        now = now;
      }

  abbrev pub decision_of : String → ClientWindow → Verdict → Decision
  decision_of ip c v = record {
    ip = ip;
    measured = measure c;
    good_reputation = good ip;
    threshold_factor = factor_of ip;
    path = v.path;
    held = v.held;
  }

  abbrev pub is_recent : Option ℕ → Bool
  is_recent none = false
  is_recent (some at) = ltb now (at + s.config.publish_interval_seconds * second)

  -- A decision is emitted unless the last one for the client was too recent.
  abbrev pub emit :
      String
      → ClientWindow
      → ClientWindow × Tally × Option Verdict
      → Evaluation
      → ClientWindow × Evaluation
  emit ip measured (c, tally, none) e = (c, record e { tally = tally })
  emit ip measured (c, tally, some v) e =
      if is_recent c.last_publish then (c, record e { tally = tally }) else (
        record c { last_publish = some now },
        record e { tally = tally; emitted = e.emitted ++ decision_of ip measured v ∷ [] },
      )

  abbrev pub is_silent : ClientWindow → Bool
  is_silent c = ltb (c.last_seen + 2 * (s.config.window_seconds * second)) now

  -- One round of the loop: the client, unless it is removed.
  unfoldable pub evaluate_client :
      String → ClientWindow → Evaluation → Option ClientWindow × Evaluation
  unfolding prune_client match_thresholds assess
  evaluate_client ip c e =
      let pruned = prune_client (s.config.window_seconds * second) now c in
      let out = emit ip pruned (assess s (assessment_of ip pruned) pruned e.tally) e in
      if is_silent pruned
      then (none, record e { order = without ip e.order })
      else (some out.0, out.1)

  abbrev pub keep_client :
      String → Option ClientWindow → Map String ClientWindow → Map String ClientWindow
  keep_client ip none m = m
  keep_client ip (some c) m = (ip, c) ∷ m

  unfoldable pub evaluate_each :
      Map String ClientWindow → Evaluation → Map String ClientWindow × Evaluation
  unfolding evaluate_client
  evaluate_each [] e = ([], e)
  evaluate_each ((ip, c) ∷ rest) e =
      let one = evaluate_client ip c e in
      let more = evaluate_each rest one.1 in (keep_client ip one.0 more.0, more.1)

abbrev pub too_soon : ℕ → Tracker → Option ℕ → Bool
too_soon now t none = false
too_soon now t (some last) = ltb now (last + t.settings.config.evaluation_interval_seconds * second)

abbrev pub evaluated : ℕ → Tracker → Map String ClientWindow × Evaluation → Tracker × List Decision
evaluated now t (clients, e) = (
  record t {
    clients = clients;
    client_order = e.order;
    last_evaluation = some now;
    reputation_deferrals = e.tally.reputation_deferrals;
    long_deferred_clients = e.tally.long_deferred;
    held_clients = e.tally.held;
    decisions = (t.decisions + length e.emitted) % 2 ^ 64;
  },
  e.emitted,
)

unfoldable pub evaluate : (String → Bool) → ℕ → Tracker → Tracker × List Decision
unfolding evaluate_each
evaluate good now t =
    let start : Evaluation = record {
      tally = record { reputation_deferrals = t.reputation_deferrals; long_deferred = 0; held = 0 };
      emitted = [];
      order = t.client_order;
    } in
    if not t.settings.config.enabled || too_soon now t t.last_evaluation
    then (t, [])
    else evaluated now t (evaluate_each good t.settings now t.clients start)

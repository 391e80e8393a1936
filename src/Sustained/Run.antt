-- ===== src/Sustained/Run.antt =====
-- The tracker from New on, under a sequence of requests, response sizes and evaluations whose clocks do not run
-- backwards.
use packetyeeter.Common.{ℕ, ◌≤◌, ◌≡◌, String, Bool, List, [], ◌∷◌, arith, All, All-map_imp, nat_key}
use packetyeeter.Sustained.Config.{Config, settle}
use packetyeeter.Sustained.Refs.{distinct, length-refs}
use packetyeeter.Sustained.Window.{sections_of}
use packetyeeter.Sustained.Tracker.{Tracker, new_tracker, observe_request, observe_bytes, measure}
use packetyeeter.Sustained.Evaluate.{evaluate}
use packetyeeter.Sustained.Invariant.{
  IsRoomy, IsTracker, IsClient, limit_of, new_tracker-IsTracker, later_tracker,
}
use packetyeeter.Sustained.Observed.{observe_request-IsTracker, observe_bytes-IsTracker}
use packetyeeter.Sustained.Evaluated.{evaluate-IsTracker}

pub data Call : Type 0 where
  request : String → ℕ → ℕ → Call
  response : String → ℕ → Call
  evaluation : (String → Bool) → Call

abbrev call : ℕ × Call → Tracker → Tracker
call (now, request ip resource section) t = observe_request ip resource section now t
call (now, response ip bytes) t = observe_bytes ip bytes now t
call (now, evaluation good) t = (evaluate good now t).0

abbrev pub run : List (ℕ × Call) → Tracker → Tracker
run [] t = t
run (c ∷ calls) t = run calls (call c t)

-- The clocks of the calls do not run backwards.
abbrev pub IsForward : ℕ → List (ℕ × Call) → Type 0
IsForward clock [] = Unit
IsForward clock ((now, c) ∷ calls) = (clock ≤ now) × IsForward now calls

abbrev pub last_clock : ℕ → List (ℕ × Call) → ℕ
last_clock clock [] = clock
last_clock clock ((now, c) ∷ calls) = last_clock now calls

settle-IsRoomy : (cfg : Config) → IsRoomy (settle cfg)
unfolding settle
settle-IsRoomy cfg = record { clients = ground arith; resources = ground arith }

call-IsTracker :
    (clock now : ℕ) (c : Call) (t : Tracker)
    → clock ≤ now
    → IsTracker clock t
    → IsTracker now (call (now, c) t)
call-IsTracker clock now (request ip resource section) t le v =
    observe_request-IsTracker ip resource section clock now t v le
call-IsTracker clock now (response ip bytes) t le v =
    observe_bytes-IsTracker ip bytes clock now t v le
call-IsTracker clock now (evaluation good) t le v =
    evaluate-IsTracker good now now t (later_tracker clock now t v le)

calls-IsTracker :
    (clock : ℕ) (calls : List (ℕ × Call)) (t : Tracker)
    → IsForward clock calls
    → IsTracker clock t
    → IsTracker (last_clock clock calls) (run calls t)
calls-IsTracker clock [] t f v = v
calls-IsTracker clock ((now, c) ∷ calls) t f v =
    calls-IsTracker now calls (call (now, c) t) f.1 (call-IsTracker clock now c t f.0 v)

-- For every configuration whose minimum numbers of resources and sections are not negative, after any calls with clocks
-- that do not run backwards: the tracker holds at most the maximum of clients, each once, and its order holds the same
-- addresses as its map; every client has at most the maximum of resources, each once and in the order they were seen,
-- and its section counts are those of its resources.
pub run-IsTracker :
    (cfg : Config) (calls : List (ℕ × Call))
    → IsForward 0 calls
    → IsTracker (last_clock 0 calls) (run calls (new_tracker (settle cfg)))
run-IsTracker cfg calls f =
    calls-IsTracker 0 calls (new_tracker (settle cfg)) f
      (new_tracker-IsTracker (settle cfg) (settle-IsRoomy cfg))

-- After any such calls, the number of sections that a client is measured by is the number of different sections
-- among the resources it is measured by.
pub run-sections :
    (cfg : Config) (calls : List (ℕ × Call))
    → IsForward 0 calls
    → All
        (λ p. (measure p.1).sections ≡ distinct (sections_of p.1.resources.order))
        (run calls (new_tracker (settle cfg))).clients
run-sections cfg calls f =
    let t = run calls (new_tracker (settle cfg)) in
    All-map_imp (λ p. IsClient (limit_of t) (last_clock 0 calls) p.1) _
      (λ p w. length-refs (sections_of p.1.resources.order) p.1.section_refs w.0.counted) t.clients
      (run-IsTracker cfg calls f).windows

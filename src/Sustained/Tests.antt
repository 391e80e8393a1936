-- ===== src/Sustained/Tests.antt =====
-- Runs of the tracker and its theorems at concrete inputs.
use packetyeeter.Common.{
  ℕ, ◌-◌, ◌/◌, ◌*◌, ◌≡◌, ◌↔◌, refl, true, false, none, some, List, [], ◌∷◌, arith, length, All,
  drop,
}
use packetyeeter.Sustained.Hashing.{hash64, resource_keys}
use packetyeeter.Sustained.Client.{ClientWindow, new_client, totals, second}
use packetyeeter.Sustained.Config.{Config, default_config, settle}
use packetyeeter.Sustained.Resources.{new_bounded_set}
use packetyeeter.Sustained.Refs.{distinct}
use packetyeeter.Sustained.Window.{sections_of}
use packetyeeter.Sustained.Thresholds.{
  Measured, over, no_match, blockers, match_thresholds, resources_per_section_within,
}
use packetyeeter.Sustained.Hold.{Assessment, Tally, assess}
use packetyeeter.Sustained.Tracker.{Tracker, new_tracker, observe_request, observe_bytes, measure}
use packetyeeter.Sustained.Evaluate.{evaluate}
use packetyeeter.Sustained.Snapshot.{snapshot_client}
use packetyeeter.Sustained.Invariant.{IsTracker}
use packetyeeter.Sustained.Run.{
  Call, request, response, evaluation, run, IsForward, run-IsTracker, run-sections,
}
use packetyeeter.Sustained.Release.{assess_all, released_by_maximum, held_for_minimum}
use packetyeeter.Sustained.Explained.{blockers-over}
use packetyeeter.Sustained.Shown.{shown_as, evaluate-IsShown}
use packetyeeter.Sustained.Retained.{observe_all, observe_all-drop}

-- FNV-1a of the path "a" with an empty host.
hash64_run : hash64 [] (b'a' ∷ []) ≡ 0x08326707b4eb37da
unfolding hash64
hash64_run = refl

-- A query is not part of a resource, and the section is its first segment.
resource_keys_run :
    resource_keys (λ host. host) [] (b'/' ∷ b'a' ∷ b'/' ∷ b'b' ∷ b'?' ∷ b'q' ∷ [])
    ≡ (hash64 [] (b'/' ∷ b'a' ∷ b'/' ∷ b'b' ∷ []), hash64 [] (b'/' ∷ b'a' ∷ []))
unfolding resource_keys
resource_keys_run = refl

abbrev small : Config
small = record default_config {
  enabled = true;
  enforce = true;
  minimum_requests = 2;
  minimum_bytes = 100;
  minimum_resources = 1;
  minimum_sections = 1;
  maximum_clients = 2;
  maximum_resources_per_client = 2;
}

abbrev tracker : Tracker
tracker = new_tracker (settle small)

-- Three resources of which two are kept, an answer, and an evaluation.
abbrev calls : List (ℕ × Call)
calls =
    (10 * second, request "10.0.0.1" 1 7)
    ∷ (11 * second, request "10.0.0.1" 2 7)
    ∷ (12 * second, request "10.0.0.1" 3 8)
    ∷ (13 * second, response "10.0.0.1" 500)
    ∷ (14 * second, evaluation (λ ip. false))
    ∷ []

calls-IsForward : IsForward 0 calls
calls-IsForward = (omega arith, (omega arith, (omega arith, (omega arith, (omega arith, tt)))))

run-IsTracker_example : IsTracker (14 * second) (run calls tracker)
run-IsTracker_example = run-IsTracker small calls calls-IsForward

run-sections_example :
    All
      (λ p. (measure p.1).sections ≡ distinct (sections_of p.1.resources.order))
      (run calls tracker).clients
run-sections_example = run-sections small calls calls-IsForward

-- Two of the three resources are retained, in two sections, and the client is selected.
three_run :
    (length (run calls tracker).clients ≡ 1)
    × ((run calls tracker).resource_evictions ≡ 1)
    × ((run calls tracker).decisions ≡ 1)
unfolding observe_request observe_bytes evaluate settle totals
three_run = (refl, refl, refl)

abbrev selected : ClientWindow
selected = record (new_client 2 0) { selected_since = some 0 }

abbrev idle : ℕ → Assessment
idle seconds = record {
  base = no_match;
  current = no_match;
  good = false;
  measured = record { requests = 0; bytes = 0; resources = 0; sections = 0 };
  now = seconds * second;
}

abbrev none_yet : Tally
none_yet = record { reputation_deferrals = 0; long_deferred = 0; held = 0 }

released_by_maximum_example :
    (assess_all
      (settle small)
      (idle 10 ∷ idle 1200 ∷ idle 1300 ∷ [])
      selected
      none_yet).0.selected_since
    ≡ none
unfolding settle
released_by_maximum_example =
    released_by_maximum (settle small) (idle 10 ∷ []) (idle 1300 ∷ []) (idle 1200) selected none_yet
      0 refl
      (
        (refl, λ e. absurd (ground (arith, e))),
        ((refl, λ e. absurd (ground (arith, e))), ((refl, λ e. absurd (ground (arith, e))), tt)),
      )
      (omega arith)

held_for_minimum_example :
    ((assess_all (settle small) (idle 10 ∷ idle 599 ∷ []) selected none_yet).0 ≡ selected)
    × ((assess_all (settle small) (idle 10 ∷ idle 599 ∷ []) selected none_yet).1.held ≡ 2)
unfolding settle
held_for_minimum_example =
    held_for_minimum small (idle 10 ∷ idle 599 ∷ []) selected none_yet 0 refl
      ((refl, λ e. absurd (ground (arith, e))), ((refl, λ e. absurd (ground (arith, e))), tt))
      (omega arith) (omega arith, (omega arith, tt))

-- After the minimum an idle client is released.
idle_run : (assess (settle small) (idle 600) selected none_yet).0.selected_since ≡ none
unfolding assess settle
idle_run = refl

abbrev reader : Measured
reader = record { requests = 5; bytes = 10; resources = 2; sections = 1 }

blockers-over_example :
    (blockers small reader 1 ≡ []) ↔ (over (match_thresholds small reader 1) ≡ true)
blockers-over_example = blockers-over small reader 1

blockers_run : blockers small reader 1 ≡ "bytes" ∷ "resources_per_section" ∷ []
unfolding blockers match_thresholds resources_per_section_within
blockers_run = refl

evaluate-IsShown_example :
    All
      (λ p.
        (snapshot_client (λ ip. true) (settle small) (24 * second) true p.0 p.1).action
        ≡ shown_as true p.1.selected_since)
      (evaluate (λ ip. true) (24 * second) (run calls tracker)).0.clients
unfolding observe_request observe_bytes evaluate settle
evaluate-IsShown_example =
    evaluate-IsShown (λ ip. true) (24 * second) true (run calls tracker) refl refl refl
      (record {
        least = omega arith;
        factor = omega arith;
        requests = omega arith;
        bytes = omega arith;
      })

abbrev twice : List (ℕ × ℕ)
twice = (1, 10) ∷ (2, 11) ∷ (1, 12) ∷ (3, 13) ∷ []

observe_all-drop_example :
    (observe_all (λ k. k / 10) twice (new_bounded_set 2)).order
    ≡ drop
        (length (observe_all (λ k. k / 10) twice (new_bounded_set 0)).order - 2)
        (observe_all (λ k. k / 10) twice (new_bounded_set 0)).order
observe_all-drop_example = observe_all-drop (λ k. k / 10) 2 twice (omega arith)

-- ===== src/Watch/Tests.antt =====
-- Runs of the decision stream and its theorems at concrete inputs.
use packetyeeter.Common.{
  if◌then◌else◌, ℕ, ◌≡◌, refl, true, false, List, [], ◌∷◌, arith, ltb, zero, suc, some, get_elem?,
  ◌<◌,
}
use packetyeeter.Watch.{
  WatchSubscriber, WatchHub, Fingerprint, new_subscriber, new_watch_hub, subscribe, publish, drain,
  ip_protocol_number, Sending, sent, failed,
}
use packetyeeter.Watch.Queue.{as_ring, IsQueue, new_subscriber-IsQueue}
use packetyeeter.Ring.{at, physical}
use packetyeeter.Watch.Drain.{Drained, drain-Drained}
use packetyeeter.Watch.Trace.{Step, pushing, popping, run_steps, run_steps-Refined, Refined}
use packetyeeter.Watch.Hub.{
  IsHub, new_watch_hub-IsHub, subscribe-IsHub, Published, publish-Published,
}

abbrev steps : List (Step ℕ)
steps = pushing 7 ∷ pushing 8 ∷ pushing 9 ∷ popping ∷ popping ∷ popping ∷ []

run_steps-Refined_example : Refined 2 steps [] (run_steps steps (new_subscriber "ctl" 2))
run_steps-Refined_example = run_steps-Refined "ctl" 2 steps (omega arith)

abbrev hub : WatchHub ℕ
unfolding new_watch_hub
hub = new_watch_hub 2 1

abbrev hub_one : WatchHub ℕ
unfolding subscribe
hub_one = (subscribe 100 "ctl" hub).0

hub_one-IsHub : IsHub hub_one
unfolding new_watch_hub subscribe
hub_one-IsHub = (subscribe-IsHub 100 "ctl" hub (new_watch_hub-IsHub 2 1 (omega arith))).0

publish-Published_example : Published hub_one ([] ∷ []) 5 (publish hub_one 5)
unfolding new_watch_hub subscribe
publish-Published_example =
    publish-Published hub_one ([] ∷ []) 5 hub_one-IsHub
      (new_subscriber-IsQueue "ctl" 1 (omega arith), tt)

abbrev to_client : ℕ → Sending
to_client d = if ltb d 8 then sent else failed

-- Two decisions are queued, and two more arrive while the first is sent, for which the full queue drops the second.
abbrev two_queued : WatchSubscriber ℕ
two_queued = record {
  name = "ctl";
  notified = true;
  ring = some 5 ∷ some 6 ∷ [];
  head = 0;
  n = 2;
  dropped = 0;
}

two_queued-IsQueue : IsQueue two_queued (5 ∷ 6 ∷ [])
unfolding at physical
two_queued-IsQueue = record {
  is_ring = omega arith;
  holds = record { count = refl; entries = entry };
}
  where
    entry : (i : ℕ) → i < 2 → at (as_ring two_queued) i ≡ get_elem? (some 5 ∷ some 6 ∷ []) i
    entry zero h = refl
    entry (suc zero) h = refl
    entry (suc (suc i)) h = absurd (omega arith)

drain-Drained_example :
    Drained (5 ∷ 7 ∷ [], [], false) (drain 6 to_client ((7 ∷ 9 ∷ []) ∷ []) two_queued)
drain-Drained_example =
    drain-Drained 6 to_client ((7 ∷ 9 ∷ []) ∷ []) two_queued (5 ∷ 6 ∷ []) two_queued-IsQueue
      (omega arith)

abbrev seen : Fingerprint
seen = record {
  collector_id = "c1";
  dst_ip = 10 ∷ 0 ∷ 0 ∷ 1 ∷ [];
  protocol = 17;
  dst_port = 53;
  size_bucket = 4;
  ttl_bucket = 7;
  src_net = 10 ∷ 9 ∷ 8 ∷ 0 ∷ [];
  dropped = true;
  packets = 12;
  interval_seconds = 10;
  bytes = 900;
}

ip_protocol_number_run : ip_protocol_number "047" ≡ 47
unfolding ip_protocol_number
ip_protocol_number_run = refl

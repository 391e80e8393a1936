-- ===== src/Watch/Trace.antt =====
-- A subscriber over time: any sequence of pushes and pops behaves as on the abstract queue.
use packetyeeter.Common.{
  ℕ, ◌≤◌, ◌≡◌, refl, String, Option, none, some, List, [], ◌∷◌, length, length-replicate, nat_key,
  subst,
}
use packetyeeter.Common.Panic.{◌>>=◌}
use packetyeeter.Watch.{WatchSubscriber, new_subscriber, push, pop}
use packetyeeter.Watch.Queue.{IsQueue, queue_push, new_subscriber-IsQueue}
use packetyeeter.Watch.Contract.{push-Enqueued, pop-Dequeued}

-- One step of a subscriber's life: the hub pushes, or its handler pops.
pub data Step {ℓ} (D : Type ℓ) : Type ℓ where
  pushing : D → Step D
  popping : Step D

module _ {ℓ} {D : Type ℓ} where
  abbrev pub step : Step D → WatchSubscriber D → Option (WatchSubscriber D × Option D)
  step (pushing d) s = do s' ← push s d; some (s', none)
  step popping s = pop s

  pub run_steps : List (Step D) → WatchSubscriber D → Option (WatchSubscriber D × List (Option D))
  unfolding push pop
  run_steps [] s = some (s, [])
  run_steps (o ∷ rest) s = do
    now ← step o s
    more ← run_steps rest now.0
    some (more.0, now.1 ∷ more.1)

  -- The same steps on the abstract queue of `cap` places: what is left, and what the steps returned.
  abbrev pub queue_steps : ℕ → List (Step D) → List D → List D × List (Option D)
  queue_steps cap [] xs = (xs, [])
  queue_steps cap (pushing d ∷ rest) xs =
      let more = queue_steps cap rest (queue_push cap xs d) in (more.0, none ∷ more.1)
  queue_steps cap (popping ∷ rest) [] =
      let more = queue_steps cap rest [] in (more.0, none ∷ more.1)
  queue_steps cap (popping ∷ rest) (x ∷ xs) =
      let more = queue_steps cap rest xs in (more.0, some x ∷ more.1)

  abbrev pub Refined :
      ℕ → List (Step D) → List D → Option (WatchSubscriber D × List (Option D)) → Type ℓ
  Refined cap steps xs out =
      (s' : WatchSubscriber D) × (out ≡ some (s', (queue_steps cap steps xs).1))
      × IsQueue s' (queue_steps cap steps xs).0

  run_steps_from :
      (steps : List (Step D)) (s : WatchSubscriber D) (xs : List D)
      → IsQueue s xs
      → Refined (length s.ring) steps xs (run_steps steps s)
  unfolding run_steps
  run_steps_from [] s xs q = (s, refl, q)
  run_steps_from (pushing d ∷ rest) s xs q =
      let (s', e, q', len, more, told) = push-Enqueued s xs d q in
      let (s'', e', q'') : Refined (length s.ring) rest (queue_push (length s.ring) xs d)
          (run_steps rest s') =
        subst (λ k. Refined k rest (queue_push (length s.ring) xs d) (run_steps rest s')) len
          (run_steps_from rest s' _ q') in
      (s'', rw (e, e') refl, q'')
  run_steps_from (popping ∷ rest) s [] q =
      let (s', e', q') = run_steps_from rest s [] q in (s', rw (pop-Dequeued s [] q, e') refl, q')
  run_steps_from (popping ∷ rest) s (x ∷ xs) q =
      let (s', e, q', len, more) = pop-Dequeued s (x ∷ xs) q in
      let (s'', e', q'') : Refined (length s.ring) rest xs (run_steps rest s') =
        subst (λ k. Refined k rest xs (run_steps rest s')) len (run_steps_from rest s' xs q') in
      (s'', rw (e, e') refl, q'')

  -- Any sequence of pushes and pops on a new subscriber with room for `cap` decisions runs without an index out
  -- of range, and returns what the queue of `cap` places that drops its oldest decision returns.
  pub run_steps-Refined :
      (name : String) (cap : ℕ) (steps : List (Step D))
      → 1 ≤ cap
      → Refined cap steps [] (run_steps steps (new_subscriber name cap))
  run_steps-Refined name cap steps h =
      subst (λ k. Refined k steps [] (run_steps steps (new_subscriber name cap)))
        (length-replicate {A = Option D} cap none)
        (run_steps_from steps (new_subscriber name cap) [] (new_subscriber-IsQueue name cap h))

-- ===== src/Watch/Drain.antt =====
-- The inner loop of WatchDecisions, which sends a subscriber's queue while publishers push to it.
use packetyeeter.Common.{
  ℕ, zero, suc, ◌+◌, ◌≤◌, ◌<◌, ◌≡◌, refl, ◌∙◌, ◌⊎◌, inl, inr, Bool, true, false, Option, some, List,
  [], ◌∷◌, arith, length, drop, length-append, length-drop, Bool-cases, ◌==◌, nat_key, subst,
}
use packetyeeter.Watch.{
  Sending, sent, failed, shut_down, WatchSubscriber, push_all, first_arrivals, later_arrivals,
  drain,
}
use packetyeeter.Watch.Queue.{IsQueue, queue_push}
use packetyeeter.Watch.Contract.{push-Enqueued, pop-Dequeued}

Sending-cases : (o : Sending) → (o ≡ sent) ⊎ ((o ≡ failed) ⊎ (o ≡ shut_down))
Sending-cases sent = inl refl
Sending-cases failed = inr (inl refl)
Sending-cases shut_down = inr (inr refl)

module _ {ℓ} {D : Type ℓ} where
  -- The pushes on the abstract queue of `cap` places.
  abbrev pub queue_push_all : ℕ → List D → List D → List D
  queue_push_all cap xs [] = xs
  queue_push_all cap xs (d ∷ ds) = queue_push_all cap (queue_push cap xs d) ds

  push_all-IsQueue :
      (ds : List D) (s : WatchSubscriber D) (xs : List D)
      → IsQueue s xs
      → (s' : WatchSubscriber D) × (push_all ds s ≡ some s')
        × IsQueue s' (queue_push_all (length s.ring) xs ds)
        × (length s'.ring ≡ length s.ring)
  push_all-IsQueue [] s xs q = (s, refl, q, refl)
  push_all-IsQueue (d ∷ ds) s xs q =
      let (s1, e1, q1, len1, more, told) = push-Enqueued s xs d q in
      let (s2, e2, q2, len2) = push_all-IsQueue ds s1 (queue_push (length s.ring) xs d) q1 in
      (
        s2,
        rw e1 e2,
        subst (λ cap. IsQueue s2 (queue_push_all cap (queue_push (length s.ring) xs d) ds)) len1 q2,
        len2 ∙ len1,
      )

  abbrev pub arrivals_count : List (List D) → ℕ
  arrivals_count [] = 0
  arrivals_count (ds ∷ rest) = length ds + arrivals_count rest

  length-queue_push : (cap : ℕ) (xs : List D) (d : D) → length (queue_push cap xs d) ≤ length xs + 1
  length-queue_push cap xs d = elim (Bool-cases (length xs == cap)) [
    | inl full ↦ rw full (omega (arith, length-append (drop 1 xs) (d ∷ []), length-drop 1 xs))
    | inr room ↦ rw room (omega (arith, length-append xs (d ∷ [])))
  ]

  length-queue_push_all :
      (cap : ℕ) (xs ds : List D) → length (queue_push_all cap xs ds) ≤ length xs + length ds
  length-queue_push_all cap xs [] = omega arith
  length-queue_push_all cap xs (d ∷ ds) =
      omega (arith, length-queue_push cap xs d, length-queue_push_all cap (queue_push cap xs d) ds)

  fewer_arrivals :
      (arrivals : List (List D))
      → length (first_arrivals arrivals) + arrivals_count (later_arrivals arrivals)
        ≡ arrivals_count arrivals
  fewer_arrivals [] = refl
  fewer_arrivals (ds ∷ rest) = refl

  -- What reaches the client, what is left, and whether the loop ran to its end, on the abstract queue.
  abbrev pub delivered_first :
      D → List D → List D × List D × Bool → Sending → List D × List D × Bool
  delivered_first x left more failed = ([], left, false)
  delivered_first x left more shut_down = (x ∷ [], left, false)
  delivered_first x left more sent = (x ∷ more.0, more.1, more.2)

  -- Once nothing more arrives.
  abbrev pub delivered_rest : (D → Sending) → List D → List D × List D × Bool
  delivered_rest send [] = ([], [], true)
  delivered_rest send (x ∷ xs) = delivered_first x xs (delivered_rest send xs) (send x)

  abbrev pub delivered : ℕ → (D → Sending) → List (List D) → List D → List D × List D × Bool
  delivered cap send [] xs = delivered_rest send xs
  delivered cap send (ds ∷ arrivals) [] = ([], [], true)
  delivered cap send (ds ∷ arrivals) (x ∷ xs) =
      delivered_first x (queue_push_all cap xs ds)
        (delivered cap send arrivals (queue_push_all cap xs ds)) (send x)

  abbrev pub Drained : List D × List D × Bool → Option (WatchSubscriber D × List D × Bool) → Type ℓ
  Drained delivery out =
      (s' : WatchSubscriber D) × (out ≡ some (s', delivery.0, delivery.2)) × IsQueue s' delivery.1

  delivered-nil :
      (cap : ℕ) (send : D → Sending) (arrivals : List (List D))
      → delivered cap send arrivals [] ≡ ([], [], true)
  delivered-nil cap send [] = refl
  delivered-nil cap send (ds ∷ arrivals) = refl

  delivered-cons :
      (cap : ℕ) (send : D → Sending) (arrivals : List (List D)) (x : D) (xs : List D)
      → (let left = queue_push_all cap xs (first_arrivals arrivals) in
          delivered cap send arrivals (x ∷ xs)
          ≡ delivered_first x left (delivered cap send (later_arrivals arrivals) left) (send x))
  delivered-cons cap send [] x xs = refl
  delivered-cons cap send (ds ∷ arrivals) x xs = refl

  -- With more rounds than a subscriber holds decisions and publishers push meanwhile, the loop ends, whatever arrives
  -- in each round: it has sent the queue in order, with what arrived, up to the first decision that could not be sent
  -- or the shutdown, and what follows stays in the queue. A full queue drops its oldest decision for an arrival.
  pub drain-Drained :
      (fuel : ℕ) (send : D → Sending) (arrivals : List (List D)) (s : WatchSubscriber D)
      (xs : List D)
      → IsQueue s xs
      → length xs + arrivals_count arrivals < fuel
      → Drained (delivered (length s.ring) send arrivals xs) (drain fuel send arrivals s)
  unfolding drain
  drain-Drained zero send arrivals s xs q h = absurd (omega arith)
  drain-Drained (suc fuel) send arrivals s [] q h =
      rw (delivered-nil (length s.ring) send arrivals) (s, rw (pop-Dequeued s [] q) refl, q)
  drain-Drained (suc fuel) send arrivals s (x ∷ xs) q h =
      let (s1, e1, q1, len1, same) = pop-Dequeued s (x ∷ xs) q in
      let (s2, e2, q2, len2) = push_all-IsQueue (first_arrivals arrivals) s1 xs q1 in
      let cap = length s.ring in
      let left = queue_push_all cap xs (first_arrivals arrivals) in
      let q2' : IsQueue s2 left =
        subst (λ c. IsQueue s2 (queue_push_all c xs (first_arrivals arrivals))) len1 q2 in
      let (s3, e3, q3) : Drained (delivered cap send (later_arrivals arrivals) left)
          (drain fuel send (later_arrivals arrivals) s2) =
        subst
          (λ c.
            Drained (delivered c send (later_arrivals arrivals) left)
              (drain fuel send (later_arrivals arrivals) s2))
          (len2 ∙ len1)
          (drain-Drained fuel send (later_arrivals arrivals) s2 left q2' (
            omega (
              arith,
              h,
              fewer_arrivals arrivals,
              length-queue_push_all cap xs (first_arrivals arrivals),
            ))) in
      rw (delivered-cons cap send arrivals x xs) (elim (Sending-cases (send x)) [
        | inl went ↦ rw went (s3, rw (e1, e2, went, e3) refl, q3)
        | inr (inl unsent) ↦ rw unsent (s2, rw (e1, e2, unsent) refl, q2')
        | inr (inr down) ↦ rw down (s2, rw (e1, e2, down) refl, q2')
      ])

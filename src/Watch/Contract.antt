-- ===== src/Watch/Contract.antt =====
-- The contract of push and pop: each acts on a subscriber's ring as on a queue that drops its oldest decision.
use packetyeeter.Common.{
  ℕ, ◌+◌, ◌-◌, ◌%◌, ◌^◌, ◌≤◌, ◌<◌, ◌≡◌, refl, sym, ap, ◌∙◌, inl, inr, true, false, Option, none,
  some, List, [], ◌∷◌, map, arith, length, get_elem?, drop, length-set, if◌then◌else◌, Bool-cases,
  ◌==◌, nat_key, nat_beq_iff, subst,
}
use packetyeeter.Common.Panic.{store-lt}
use packetyeeter.Ring.{EventRing, physical, drop_each}
use packetyeeter.Ring.View.{IsRing, Holds}
use packetyeeter.Ring.Refines.{place, at_place}
use packetyeeter.Ring.Laws.{drop_each_lem, shrink, Dropped}
use packetyeeter.Watch.{WatchSubscriber, push, pop}
use packetyeeter.Watch.Queue.{
  as_ring, IsQueue, queue_push, head-lt, count_of, pushed-IsQueue, push_full, push_room, full_back,
  room_back, cleared, next_head,
}

module _ {ℓ} {D : Type ℓ} where
  -- What a push makes of a subscriber.
  abbrev pub Enqueued : WatchSubscriber D → List D → D → Option (WatchSubscriber D) → Type ℓ
  Enqueued s xs d out =
      (s' : WatchSubscriber D) × (out ≡ some s')
      × IsQueue s' (queue_push (length s.ring) xs d)
      × (length s'.ring ≡ length s.ring)
      × (s'.dropped ≡ (if length xs == length s.ring then (s.dropped + 1) % 2 ^ 64 else s.dropped))
      × (s'.notified ≡ true)

  -- push from a subscriber that holds `xs` never indexes out of range; the subscriber then holds `xs` and the
  -- decision, without the oldest one if the ring was full, which is counted, and the channel holds its token.
  pub push-Enqueued :
      (s : WatchSubscriber D) (xs : List D) (d : D) → IsQueue s xs → Enqueued s xs d (push s d)
  push-Enqueued s xs d q =
      let h = head-lt s q.is_ring in
      let same = count_of s xs q in
      elim (Bool-cases (s.n == length s.ring)) [
        | inl full ↦
            let all : s.n ≡ length s.ring = (nat_beq_iff s.n (length s.ring)).0 full in
            (
              _,
              push_full s d h all,
              pushed-IsQueue s _ xs d q (full_back s d h all),
              length-set s.ring s.head (some d),
              rw (same, full),
              refl,
            )
        | inr more ↦
            let room : s.n < length s.ring = ground (arith, q.is_ring.fits) in
            (
              _,
              push_room s d h room,
              pushed-IsQueue s _ xs d q (room_back s d h room),
              length-set s.ring _ (some d),
              rw (same, more),
              refl,
            )
      ]

  clear_drop :
      (s : WatchSubscriber D)
      → s.head < length s.ring
      → drop_each 1 (as_ring s) ≡ some (shrink (as_ring (cleared s)) s.n)
  unfolding drop_each physical
  clear_drop s h = rw (store-lt s.ring s.head none h, length-set s.ring s.head none) refl

  Dropped-some :
      (r r2 : EventRing (Option D)) (xs : List (Option D)) (left : ℕ)
      → Dropped r xs 1 left (drop_each 1 r)
      → drop_each 1 r ≡ some r2
      → IsRing (shrink r2 left) × Holds (shrink r2 left) (drop 1 xs)
  Dropped-some r r2 xs left (r', e, inv, holds, same) k =
      let eq : r' ≡ r2 = ground arith in
      (
        subst (λ z. IsRing (shrink z left)) eq inv,
        subst (λ z. Holds (shrink z left) (drop 1 xs)) eq holds,
      )

  pop_lem :
      (s : WatchSubscriber D) (x : D)
      → s.head < length s.ring
      → 1 ≤ s.n
      → get_elem? s.ring s.head ≡ some (some x)
      → pop s ≡ some (cleared s, some x)
  unfolding pop
  pop_lem s x h some_left at =
      let left : (s.n == 0) ≡ false = ground arith in
      rw (left, at, store-lt s.ring s.head none h, next_head s h) refl

  -- The head of the ring is the first entry of the queue.
  head_entry :
      (s : WatchSubscriber D) (x : D) (xs : List D)
      → IsQueue s (x ∷ xs)
      → get_elem? s.ring s.head ≡ some (some x)
  head_entry s x xs q =
      let h = head-lt s q.is_ring in
      ap (get_elem? s.ring) {y = place (length s.ring) s.head 0} (ground arith)
      ∙ sym (at_place (as_ring s) 0)
      ∙ q.holds.entries 0 (omega (arith, count_of s (x ∷ xs) q))

  -- What a pop makes of a subscriber.
  abbrev pub Dequeued : WatchSubscriber D → List D → Option (WatchSubscriber D × Option D) → Type ℓ
  Dequeued s [] out = out ≡ some (s, none)
  Dequeued s (x ∷ xs) out =
      (s' : WatchSubscriber D) × (out ≡ some (s', some x))
      × IsQueue s' xs
      × (length s'.ring ≡ length s.ring)
      × (s'.dropped ≡ s.dropped)

  pub pop-Dequeued : (s : WatchSubscriber D) (xs : List D) → IsQueue s xs → Dequeued s xs (pop s)
  unfolding pop
  pop-Dequeued s [] q =
      let none_left : (s.n == 0) ≡ true = (nat_beq_iff s.n 0).1 (sym (count_of s [] q)) in
      rw none_left refl
  pop-Dequeued s (x ∷ xs) q =
      let h = head-lt s q.is_ring in
      let count = count_of s (x ∷ xs) q in
      let r =
        Dropped-some (as_ring s) _ (map some (x ∷ xs)) (s.n - 1)
          (drop_each_lem 1 (s.n - 1) (as_ring s) (map some (x ∷ xs)) q.is_ring q.holds
            (omega arith))
          (clear_drop s h) in
      (
        cleared s,
        pop_lem s x h (omega arith) (head_entry s x xs q),
        record { is_ring = r.0; holds = r.1 },
        length-set s.ring s.head none,
        refl,
      )

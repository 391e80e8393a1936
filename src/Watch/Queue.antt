-- ===== src/Watch/Queue.antt =====
-- What a subscriber's ring holds: a queue of decisions that drops its oldest when it is full.
use native.Mathlib.Nat.{mod-eq_of_lt, mod-eq-sub-mod}
use packetyeeter.Common.{
  ℕ, zero, suc, ◌+◌, ◌-◌, ◌%◌, ◌^◌, ◌≤◌, ◌<◌, ◌≡◌, refl, sym, ap, ◌∙◌, inl, inr, String, true,
  false, Option, none, some, List, [], ◌∷◌, ◌++◌, map, arith, length, set, drop, length-set,
  length-replicate, if◌then◌else◌, ltb, leb, Bool-cases, ◌==◌, nat_key, nat_beq_iff, subst,
}
use packetyeeter.Common.Panic.{store-lt}
use packetyeeter.Ring.{EventRing, physical, push_back}
use packetyeeter.Ring.View.{IsRing, Holds}
use packetyeeter.Ring.Refines.{place, bounded_push, Pushed}
use packetyeeter.Ring.Laws.{push_back-Pushed}
use packetyeeter.Watch.{WatchSubscriber, new_subscriber, wrap, push, evict, enqueue}

wrap-place : (n h i : ℕ) → h < n → i ≤ n → (h + i) % n ≡ place n h i
wrap-place n h i p q = elim (Bool-cases (leb n (h + i))) [
  | inl over ↦ rw over (
      mod-eq-sub-mod (ground arith) ∙ elim (Bool-cases (ltb (h + i - n) n)) [
        | inl small ↦ mod-eq_of_lt (ground arith)
        | inr big ↦ absurd (ground arith)
      ])
  | inr inside ↦ rw inside (mod-eq_of_lt (ground arith))
]

set-set {ℓ} : {A : Type ℓ} (xs : List A) (i : ℕ) (v w : A) → set (set xs i v) i w ≡ set xs i w
set-set [] i v w = refl
set-set (x ∷ xs) zero v w = refl
set-set (x ∷ xs) (suc i) v w = ap (λ zs. x ∷ zs) (set-set xs i v w)

full_place : (n h : ℕ) → h < n → place n (place n h 1) (n - 1) ≡ h
full_place n h p = ground arith

place-lt : (n h i : ℕ) → h < n → i ≤ n → place n h i < n
place-lt n h i p q = ground arith

wrap_lem : (i n : ℕ) → 1 ≤ n → wrap i n ≡ some (i % n)
wrap_lem i n h = ground arith

module _ {ℓ} {D : Type ℓ} where
  -- The ring of a subscriber as an event ring at its full length.
  abbrev pub as_ring : WatchSubscriber D → EventRing (Option D)
  as_ring s = record {
    buf = s.ring;
    head = s.head;
    size = s.n;
    limit = length s.ring;
    unused = none;
  }

  pub record IsQueue (s : WatchSubscriber D) (xs : List D) : Type ℓ where
    pub is_ring : IsRing (as_ring s)
    pub holds : Holds (as_ring s) (map some xs)

  -- The abstract queue.
  abbrev pub queue_push : ℕ → List D → D → List D
  queue_push cap xs d = if length xs == cap then drop 1 xs ++ d ∷ [] else xs ++ d ∷ []

  length-map : (xs : List D) → length (map some xs) ≡ length xs
  length-map [] = refl
  length-map (x ∷ xs) = ap suc (length-map xs)

  snoc-map : (xs : List D) (d : D) → map some (xs ++ d ∷ []) ≡ map some xs ++ some d ∷ []
  snoc-map [] d = refl
  snoc-map (x ∷ xs) d = ap (λ zs. some x ∷ zs) (snoc-map xs d)

  drop-map : (xs : List D) → map some (drop 1 xs) ≡ drop 1 (map some xs)
  drop-map [] = refl
  drop-map (x ∷ xs) = refl

  bounded_push-map :
      (s : WatchSubscriber D) (xs : List D) (d : D)
      → IsQueue s xs
      → bounded_push (as_ring s) (map some xs) (some d) ≡ map some (queue_push (length s.ring) xs d)
  bounded_push-map s xs d q =
      let same : length xs ≡ s.n = sym (length-map xs) ∙ q.holds.count in
      elim (Bool-cases (s.n == length s.ring)) [
        | inl full ↦
            rw (same, full)
              (ap (λ zs. zs ++ some d ∷ []) (sym (drop-map xs)) ∙ sym (snoc-map (drop 1 xs) d))
        | inr more ↦ rw (same, more) (sym (snoc-map xs d))
      ]

  -- A new subscriber of a hub with room in its rings holds nothing.
  pub new_subscriber-IsQueue :
      (name : String) (cap : ℕ) → 1 ≤ cap → IsQueue (new_subscriber {D = D} name cap) []
  new_subscriber-IsQueue name cap h = record {
    is_ring = ground (arith, length-replicate {A = Option D} cap none);
    holds = record { count = refl; entries = λ i lt. absurd (omega arith) };
  }

  -- A ring of n places from the head on, with the place of the head cleared.
  abbrev pub cleared : WatchSubscriber D → WatchSubscriber D
  cleared s = record s {
    ring = set s.ring s.head none;
    head = place (length s.ring) s.head 1;
    n = s.n - 1;
  }

  pub next_head :
      (s : WatchSubscriber D)
      → s.head < length s.ring
      → wrap (s.head + 1) (length (set s.ring s.head none)) ≡ some (place (length s.ring) s.head 1)
  next_head s h =
      wrap_lem (s.head + 1) (length (set s.ring s.head none))
        (omega (arith, length-set s.ring s.head none))
      ∙ ap (λ k. some ((s.head + 1) % k)) (length-set s.ring s.head none)
      ∙ ap some (wrap-place (length s.ring) s.head 1 h (omega arith))

  evict_lem :
      (s : WatchSubscriber D)
      → s.head < length s.ring
      → evict s ≡ some (record (cleared s) { dropped = (s.dropped + 1) % 2 ^ 64 })
  evict_lem s h = rw (store-lt s.ring s.head none h, next_head s h)

  enqueue_lem :
      (s : WatchSubscriber D) (d : D) (i : ℕ)
      → s.head < length s.ring
      → s.n ≤ length s.ring
      → place (length s.ring) s.head s.n ≡ i
      → enqueue s d ≡ some (record s { ring = set s.ring i (some d); n = s.n + 1; notified = true })
  enqueue_lem s d i h k e =
      let at : wrap (s.head + s.n) (length s.ring) ≡ some i =
        wrap_lem (s.head + s.n) (length s.ring) (omega arith)
        ∙ ap some (wrap-place (length s.ring) s.head s.n h k ∙ e) in
      let inside : i < length s.ring =
        subst (λ j. j < length s.ring) e (place-lt (length s.ring) s.head s.n h k) in
      rw (at, store-lt s.ring i (some d) inside)

  pub push_full :
      (s : WatchSubscriber D) (d : D)
      → s.head < length s.ring
      → s.n ≡ length s.ring
      → push s d
        ≡ some (record s {
          ring = set s.ring s.head (some d);
          head = place (length s.ring) s.head 1;
          n = s.n - 1 + 1;
          dropped = (s.dropped + 1) % 2 ^ 64;
          notified = true;
        })
  unfolding push
  push_full s d h full =
      let s' : WatchSubscriber D = record (cleared s) { dropped = (s.dropped + 1) % 2 ^ 64 } in
      let len : length s'.ring ≡ length s.ring = length-set s.ring s.head none in
      rw ((nat_beq_iff s.n (length s.ring)).1 full, evict_lem s h)
        (enqueue_lem s' d s.head
            (omega (arith, len, place-lt (length s.ring) s.head 1 h (omega arith)))
            (omega (arith, len))
            (ap (λ k. place k s'.head s'.n) len
              ∙ ap (λ k. place (length s.ring) (place (length s.ring) s.head 1) (k - 1)) full
              ∙ full_place (length s.ring) s.head h)
          ∙ ap
              (λ (r : List (Option D)).
                some (record s' { ring = r; n = s.n - 1 + 1; notified = true }))
              (set-set s.ring s.head none (some d)))

  pub push_room :
      (s : WatchSubscriber D) (d : D)
      → s.head < length s.ring
      → s.n < length s.ring
      → push s d
        ≡ some (record s {
          ring = set s.ring (place (length s.ring) s.head s.n) (some d);
          n = s.n + 1;
          notified = true;
        })
  unfolding push
  push_room s d h room =
      let more : (s.n == length s.ring) ≡ false = ground arith in
      rw more (enqueue_lem s d (place (length s.ring) s.head s.n) h (omega arith) refl)

  pub head-lt : (s : WatchSubscriber D) → IsRing (as_ring s) → s.head < length s.ring
  head-lt s v = omega (arith, v.room, v.head_in, v.bounded)

  pub count_of : (s : WatchSubscriber D) (xs : List D) → IsQueue s xs → length xs ≡ s.n
  count_of s xs q = sym (length-map xs) ∙ q.holds.count

  -- A ring result that is known.
  Pushed-some :
      (r r2 : EventRing (Option D)) (xs : List (Option D)) (out : Option (EventRing (Option D)))
      → Pushed r xs out
      → out ≡ some r2
      → IsRing r2 × Holds r2 xs
  Pushed-some r r2 xs out (r', e, inv, holds, same) k =
      let eq : r' ≡ r2 = ground arith in (subst IsRing eq inv, subst (λ z. Holds z xs) eq holds)

  -- The ring of `s'` is what PushBack makes of the ring of `s`, so it holds the longer queue.
  pub pushed-IsQueue :
      (s s' : WatchSubscriber D) (xs : List D) (d : D)
      → IsQueue s xs
      → push_back (as_ring s) (some d) ≡ some (as_ring s')
      → IsQueue s' (queue_push (length s.ring) xs d)
  pushed-IsQueue s s' xs d q e =
      let r =
        Pushed-some (as_ring s) (as_ring s') _ _
          (push_back-Pushed (as_ring s) (map some xs) (some d) q.is_ring q.holds) e in
      record { is_ring = r.0; holds = subst (Holds (as_ring s')) (bounded_push-map s xs d q) r.1 }

  pub full_back :
      (s : WatchSubscriber D) (d : D)
      → s.head < length s.ring
      → s.n ≡ length s.ring
      → push_back (as_ring s) (some d)
        ≡ some (
            as_ring (record s {
              ring = set s.ring s.head (some d);
              head = place (length s.ring) s.head 1;
              n = s.n - 1 + 1;
              dropped = (s.dropped + 1) % 2 ^ 64;
              notified = true;
            }))
  unfolding push_back physical
  full_back s d h full =
      let count : s.n - 1 + 1 ≡ s.n = omega arith in
      rw
        (
          (nat_beq_iff s.n (length s.ring)).1 full,
          store-lt s.ring s.head (some d) h,
          count,
          length-set s.ring s.head (some d),
        )
        refl

  pub room_back :
      (s : WatchSubscriber D) (d : D)
      → s.head < length s.ring
      → s.n < length s.ring
      → push_back (as_ring s) (some d)
        ≡ some (
            as_ring (record s {
              ring = set s.ring (place (length s.ring) s.head s.n) (some d);
              n = s.n + 1;
              notified = true;
            }))
  unfolding push_back physical
  room_back s d h room =
      let more : (s.n == length s.ring) ≡ false = ground arith in
      let at = place (length s.ring) s.head s.n in
      rw
        (
          more,
          store-lt s.ring at (some d) (place-lt (length s.ring) s.head s.n h (omega arith)),
          length-set s.ring at (some d),
        )
        refl

-- ===== src/Watch/Hub.antt =====
-- The hub: its bound on subscribers, what a publication does to each of them, and which fingerprints pass.
use packetyeeter.Common.{
  ℕ, suc, ◌^◌, ◌≤◌, ◌<◌, ◌≡◌, refl, sym, ap, subst, ◌∙◌, inl, inr, String, Option, none, some, List,
  [], ◌∷◌, arith, All, length, length-replicate, ltb, leb, Bool-cases, ◌==◌, nat_key, string_key,
  nat_beq_iff,
}
use packetyeeter.Common.Assoc.{
  All-put, All-delete, Map, Misses, has, IsUnique, length-put, keys, length-delete-le, IsUnique-put,
  IsUnique-delete,
}
use packetyeeter.Watch.{
  WatchSubscriber, WatchHub, new_subscriber, new_watch_hub, subscribe, unsubscribe, publish,
  push_each,
}
use packetyeeter.Watch.Queue.{IsQueue, queue_push, new_subscriber-IsQueue}
use packetyeeter.Watch.Contract.{push-Enqueued}

module _ {ℓ} {D : Type ℓ} where
  -- A subscriber of the hub: its ring has the hub's size and holds some decisions.
  abbrev pub Serves : ℕ → ℕ × WatchSubscriber D → Type ℓ
  Serves size p = (xs : List D) × IsQueue p.1 xs × (length p.1.ring ≡ size)

  pub record IsHub (h : WatchHub D) : Type ℓ where
    pub bounded : length h.subs ≤ h.max_subscribers
    pub small : h.max_subscribers < 2 ^ 31
    pub sized : 1 ≤ h.buffer_size
    pub counted : h.active ≡ length h.subs
    pub distinct : IsUnique h.subs
    pub serves : All (Serves h.buffer_size) h.subs

  pub new_watch_hub-IsHub :
      (max_subscribers size : ℕ)
      → max_subscribers < 2 ^ 31
      → IsHub (new_watch_hub {D = D} max_subscribers size)
  unfolding new_watch_hub
  new_watch_hub-IsHub m size h = record {
    bounded = omega arith;
    small = ground arith;
    sized = ground arith;
    counted = refl;
    distinct = tt;
    serves = tt;
  }

  -- subscribe keeps the hub well-formed, whatever the address, and refuses exactly when the hub is full.
  pub subscribe-IsHub :
      (s : ℕ) (name : String) (h : WatchHub D)
      → IsHub h
      → IsHub (subscribe s name h).0
        × ((subscribe s name h).1 ≡ ltb (length h.subs) h.max_subscribers)
  unfolding subscribe
  subscribe-IsHub s name h v = elim (Bool-cases (leb h.max_subscribers (length h.subs))) [
    | inl full ↦ rw full (v, ground arith)
    | inr room ↦
        let count = length-put s (new_subscriber name h.buffer_size) h.subs in
        rw room (
          record {
            bounded = ground (arith, count);
            small = v.small;
            sized = v.sized;
            counted = ground (arith, count, v.small, v.bounded);
            distinct = IsUnique-put s _ h.subs v.distinct;
            serves =
                All-put (Serves h.buffer_size) s _ h.subs
                  (λ j same. (
                    [],
                    new_subscriber-IsQueue name h.buffer_size v.sized,
                    length-replicate h.buffer_size none,
                  ))
                  v.serves;
          },
          ground arith,
        )
  ]

  pub unsubscribe-IsHub : (s : ℕ) (h : WatchHub D) → IsHub h → IsHub (unsubscribe s h)
  unfolding unsubscribe
  unsubscribe-IsHub s h v = elim (Bool-cases (has s h.subs)) [
    | inr missing ↦ rw missing v
    | inl found ↦
        let count = length-delete-le s h.subs in
        rw found (record {
          bounded = ground (arith, count, v.bounded);
          small = v.small;
          sized = v.sized;
          counted = omega (arith, count, v.small, v.bounded);
          distinct = IsUnique-delete s h.subs v.distinct;
          serves = All-delete (Serves h.buffer_size) s h.subs v.serves;
        })
  ]

  -- The subscribers of a hub hold these queues, in this order.
  abbrev pub Holding : Map ℕ (WatchSubscriber D) → List (List D) → Type ℓ
  Holding [] [] = Unit
  Holding [] (xs ∷ qs) = Unit {ℓ} × ⊥
  Holding (p ∷ m) [] = Unit {ℓ} × ⊥
  Holding ((p, s) ∷ m) (xs ∷ qs) = IsQueue s xs × Holding m qs

  abbrev pub push_queues : ℕ → List (List D) → D → List (List D)
  push_queues cap [] d = []
  push_queues cap (xs ∷ qs) d = queue_push cap xs d ∷ push_queues cap qs d

  All-Serves :
      (size : ℕ) (m : Map ℕ (WatchSubscriber D)) (qs : List (List D))
      → All (λ p. length p.1.ring ≡ size) m
      → Holding m qs
      → All (Serves size) m
  All-Serves size [] qs a h = tt
  All-Serves size ((p, s) ∷ m) [] a h = absurd h.1
  All-Serves size ((p, s) ∷ m) (xs ∷ qs) a h = ((xs, h.0, a.0), All-Serves size m qs a.1 h.1)

  abbrev Pushes :
      ℕ
      → Map ℕ (WatchSubscriber D)
      → List (List D)
      → D
      → Option (Map ℕ (WatchSubscriber D))
      → Type ℓ
  Pushes size m qs d out =
      (m' : Map ℕ (WatchSubscriber D)) × (out ≡ some m')
      × (keys m' ≡ keys m)
      × (length m' ≡ length m)
      × All (λ p. length p.1.ring ≡ size) m'
      × Holding m' (push_queues size qs d)

  push_each_lem :
      (size : ℕ) (m : Map ℕ (WatchSubscriber D)) (qs : List (List D)) (d : D)
      → All (λ p. length p.1.ring ≡ size) m
      → Holding m qs
      → Pushes size m qs d (push_each m d)
  unfolding push_each
  push_each_lem size [] [] d a h = ([], refl, refl, refl, tt, tt)
  push_each_lem size [] (xs ∷ qs) d a h = absurd h.1
  push_each_lem size (p ∷ m) [] d a h = absurd h.1
  push_each_lem size ((p, s) ∷ m) (xs ∷ qs) d a h =
      let (s', e, q, len, count, told) = push-Enqueued s xs d h.0 in
      let (m', e', same, count', a', h') = push_each_lem size m qs d a.1 h.1 in
      (
        (p, s') ∷ m',
        rw (e, e') refl,
        ap (λ ks. p ∷ ks) same,
        ap suc count',
        (len ∙ a.0, a'),
        (subst (λ k. IsQueue s' (queue_push k xs d)) a.0 q, h'),
      )

  -- The addresses alone decide whether they are distinct.
  IsUnique-keys : (m m' : Map ℕ (WatchSubscriber D)) → keys m' ≡ keys m → IsUnique m → IsUnique m'
  IsUnique-keys [] [] e u = tt
  IsUnique-keys [] (p ∷ m') e u = cc
  IsUnique-keys (p ∷ m) [] e u = tt
  IsUnique-keys ((k, v) ∷ m) ((k', v') ∷ m') e u =
      let head : k' ≡ k = ground arith in
      let tail : keys m' ≡ keys m = ground arith in
      (misses k k' m m' head tail u.0, IsUnique-keys m m' tail u.1)
    where
      misses :
          (i i' : ℕ) (n n' : Map ℕ (WatchSubscriber D))
          → i' ≡ i
          → keys n' ≡ keys n
          → Misses i n
          → Misses i' n'
      misses i i' [] [] h e u = tt
      misses i i' [] (p ∷ n') h e u = cc
      misses i i' (p ∷ n) [] h e u = tt
      misses i i' ((j, v) ∷ n) ((j', v') ∷ n') h e u =
          (λ q. u.0 (ground arith), misses i i' n n' h (ground arith) u.1)

  abbrev pub Published : WatchHub D → List (List D) → D → Option (WatchHub D) → Type ℓ
  Published h qs d out =
      (h' : WatchHub D) × (out ≡ some h')
      × IsHub h'
      × (keys h'.subs ≡ keys h.subs)
      × Holding h'.subs (push_queues h.buffer_size qs d)

  lengths_of :
      (size : ℕ) (m : Map ℕ (WatchSubscriber D))
      → All (Serves size) m
      → All (λ p. length p.1.ring ≡ size) m
  lengths_of size [] a = tt
  lengths_of size ((p, s) ∷ m) a = (a.0.2, lengths_of size m a.1)

  no_subscribers :
      (m : Map ℕ (WatchSubscriber D)) (qs : List (List D)) (size : ℕ) (d : D)
      → length m ≡ 0
      → Holding m qs
      → Holding m (push_queues size qs d)
  no_subscribers [] [] size d e h = tt
  no_subscribers [] (xs ∷ qs) size d e h = absurd h.1
  no_subscribers (p ∷ m) qs size d e h = absurd (omega arith)

  -- A publication to a well-formed hub never indexes out of range, keeps the hub well-formed with the same
  -- subscribers, and adds the decision to the queue of each of them, where a full queue drops its oldest.
  pub publish-Published :
      (h : WatchHub D) (qs : List (List D)) (d : D)
      → IsHub h
      → Holding h.subs qs
      → Published h qs d (publish h d)
  unfolding publish
  publish-Published h qs d v holds = elim (Bool-cases (h.active == 0)) [
    | inl alone ↦
        let none_there : length h.subs ≡ 0 = sym v.counted ∙ (nat_beq_iff h.active 0).0 alone in
        rw alone (h, refl, v, refl, no_subscribers h.subs qs h.buffer_size d none_there holds)
    | inr watched ↦
        let (m', e, same, count, sizes, holds') =
          push_each_lem h.buffer_size h.subs qs d (lengths_of h.buffer_size h.subs v.serves)
            holds in
        rw (watched, e)
          (
            record h { subs = m' },
            refl,
            record {
              bounded = omega (arith, count, v.bounded);
              small = v.small;
              sized = v.sized;
              counted = v.counted ∙ sym count;
              distinct = IsUnique-keys h.subs m' same v.distinct;
              serves = All-Serves h.buffer_size m' _ sizes holds';
            },
            same,
            holds',
          )
  ]

-- ===== src/Fingerprints/Drained.antt =====
-- What counting a packet and draining a map do to the number of packets that the kernel holds.
use packetyeeter.Common.{
  ℕ, zero, suc, ◌+◌, ◌^◌, ◌≤◌, ◌<◌, ◌≡◌, refl, sym, ◌∙◌, subst, inl, inr, Bool, true, false, Option,
  none, some, List, [], ◌∷◌, arith, length, drop, All, replicate, Bool-cases, ◌==◌, nat_key,
}
use packetyeeter.Common.Assoc.{get, All-put, All-get}
use packetyeeter.Fingerprints.Types.{ScrubCounter, FingerprintMap, fingerprint_key}
use packetyeeter.Fingerprints.Kernel.{
  Kernel, Packet, Insertion, created, overflows, lost, Bump, counted, overflowed, uncounted, Drain,
  complete, batch_fails, by_entry, read_of, unread_of, stuck, add_at_cpu, no_packets, bump, in_a,
  in_b, is_odd, count_packet, taken, left, drain_fingerprints,
}
use packetyeeter.Fingerprints.Counted.{
  total, reported, held, IsSized, sum_fingerprints-reported, total-take-drop, packets_of-add,
  length-add, packets_of-none, length-replicate, total-put, total-insert,
}

-- One more packet in the map, unless it is not counted there.
abbrev pub Bumped : ℕ → FingerprintMap → Bump → Type 0
Bumped cpus m overflowed = Unit
Bumped cpus m uncounted = Unit
Bumped cpus m (counted m') = (total m' ≡ total m + 1) × IsSized cpus m'

module _ (cpus : ℕ) (p : Packet) (on : p.cpu < cpus) where
  pub bump-Bumped :
      (answer : Insertion) (old : Option (List ScrubCounter)) (m : FingerprintMap)
      → get p.key m ≡ old
      → IsSized cpus m
      → Bumped cpus m (bump cpus answer p old m)
  unfolding add_at_cpu
  bump-Bumped answer (some counters) m found s =
      let size = All-get (λ c. length c ≡ cpus) p.key m counters s found in
      let new = add_at_cpu p.cpu p.len counters in
      let more = packets_of-add p.cpu p.len counters (omega (arith, size, on)) in
      (
        omega (arith, total-put p.key counters new m found, more),
        All-put (λ q. length q.1 ≡ cpus) p.key new m (λ j e. length-add p.cpu p.len counters ∙ size)
            s,
      )
  bump-Bumped created none m missing s =
      let zeros = replicate cpus no_packets in
      let size = length-replicate cpus in
      let new = add_at_cpu p.cpu p.len zeros in
      let one = packets_of-add p.cpu p.len zeros (omega (arith, size, on)) in
      (
        omega (arith, total-insert p.key new m missing, one, packets_of-none cpus),
        All-put (λ q. length q.1 ≡ cpus) p.key new m (λ j e. length-add p.cpu p.len zeros ∙ size) s,
      )
  bump-Bumped overflows none m missing s = tt
  bump-Bumped lost none m missing s = tt

  pub in_a-held :
      (k : Kernel) (o : Bump)
      → IsSized cpus k.map_a
      → Bumped cpus k.map_a o
      → (held (in_a o k) ≡ held k + 1) × IsSized cpus (in_a o k).map_a
  in_a-held k overflowed s b = (omega arith, s)
  in_a-held k uncounted s b = (omega arith, s)
  in_a-held k (counted m) s (more, size) = (omega (arith, more), size)

  pub in_b-held :
      (k : Kernel) (o : Bump)
      → IsSized cpus k.map_b
      → Bumped cpus k.map_b o
      → (held (in_b o k) ≡ held k + 1) × IsSized cpus (in_b o k).map_b
  in_b-held k overflowed s b = (omega arith, s)
  in_b-held k uncounted s b = (omega arith, s)
  in_b-held k (counted m) s (more, size) = (omega (arith, more), size)

  pub in_a-other :
      (k : Kernel) (o : Bump)
      → ((in_a o k).map_b ≡ k.map_b) × ((in_a o k).generation ≡ k.generation)
  in_a-other k overflowed = (refl, refl)
  in_a-other k uncounted = (refl, refl)
  in_a-other k (counted m) = (refl, refl)

  pub in_b-other :
      (k : Kernel) (o : Bump)
      → ((in_b o k).map_a ≡ k.map_a) × ((in_b o k).generation ≡ k.generation)
  in_b-other k overflowed = (refl, refl)
  in_b-other k uncounted = (refl, refl)
  in_b-other k (counted m) = (refl, refl)

  -- A packet that read a generation is held once more.
  pub count_packet-held :
      (gen : ℕ) (answer : Insertion) (k : Kernel)
      → 1 ≤ gen
      → IsSized cpus k.map_a
      → IsSized cpus k.map_b
      → let k' = count_packet cpus gen answer p k in
        (held k' ≡ held k + 1)
        × IsSized cpus k'.map_a
        × IsSized cpus k'.map_b
        × (k'.generation ≡ k.generation)
  unfolding count_packet
  count_packet-held gen answer k on sa sb =
      let set : (gen == 0) ≡ false = ground (arith, on) in
      elim (Bool-cases (is_odd gen)) [
        | inl odd ↦
            let o = bump cpus answer p (get p.key k.map_a) k.map_a in
            let out = in_a-held k o sa (bump-Bumped answer (get p.key k.map_a) k.map_a refl sa) in
            let other = in_a-other k o in
            rw (set, odd) (out.0, out.1, subst (IsSized cpus) (sym other.0) sb, other.1)
        | inr even ↦
            let o = bump cpus answer p (get p.key k.map_b) k.map_b in
            let out = in_b-held k o sb (bump-Bumped answer (get p.key k.map_b) k.map_b refl sb) in
            let other = in_b-other k o in
            rw (set, even) (out.0, subst (IsSized cpus) (sym other.0) sa, out.1, other.1)
      ]

-- No deletion of a drain fails.
abbrev pub IsClean : Drain → Type 0
IsClean complete = Unit
IsClean (batch_fails n) = Unit
IsClean (by_entry end fails) = All (λ b. b ≡ false) fails

stuck-none :
    (fails : List Bool) (m : FingerprintMap) → All (λ b. b ≡ false) fails → stuck fails m ≡ []
stuck-none fails [] h = refl
stuck-none [] (e ∷ m) h = refl
stuck-none (true ∷ fails) (e ∷ m) h = absurd (ground (arith, h.0))
stuck-none (false ∷ fails) (e ∷ m) h = stuck-none fails m h.1

read-unread :
    (end : Option ℕ) (m : FingerprintMap)
    → total (read_of end m) + total (unread_of end m) ≡ total m
read-unread none m = omega arith
read-unread (some n) m = total-take-drop n m

-- What a call of DrainFingerprints returns is held no more, and the rest stays.
pub taken-left :
    (how : Drain) (m : FingerprintMap)
    → IsClean how
    → total (taken how m) + total (left how m) ≡ total m
taken-left complete m c = omega arith
taken-left (batch_fails n) m c = total-take-drop n m
taken-left (by_entry end fails) m c = rw (stuck-none fails (read_of end m) c) (read-unread end m)

All-drop : (cpus n : ℕ) (m : FingerprintMap) → IsSized cpus m → IsSized cpus (drop n m)
All-drop cpus zero m s = s
All-drop cpus (suc n) [] s = tt
All-drop cpus (suc n) (q ∷ m) s = All-drop cpus n m s.1

IsSized-unread :
    (cpus : ℕ) (end : Option ℕ) (m : FingerprintMap)
    → IsSized cpus m
    → IsSized cpus (unread_of end m)
IsSized-unread cpus none m s = tt
IsSized-unread cpus (some n) m s = All-drop cpus n m s

pub IsSized-left :
    (cpus : ℕ) (how : Drain) (m : FingerprintMap)
    → IsClean how
    → IsSized cpus m
    → IsSized cpus (left how m)
IsSized-left cpus complete m c s = tt
IsSized-left cpus (batch_fails n) m c s = All-drop cpus n m s
IsSized-left cpus (by_entry end fails) m c s =
    rw (stuck-none fails (read_of end m) c) (IsSized-unread cpus end m s)

pub drain-held :
    (cpus gen : ℕ) (how : Drain) (k : Kernel)
    → IsClean how
    → held k < 2 ^ 64
    → IsSized cpus k.map_a
    → IsSized cpus k.map_b
    → let out = drain_fingerprints gen how k in
      (held out.0 + reported out.1 ≡ held k)
      × IsSized cpus out.0.map_a
      × IsSized cpus out.0.map_b
      × (out.0.generation ≡ k.generation)
unfolding drain_fingerprints
drain-held cpus gen how k clean small sa sb = elim (Bool-cases (is_odd gen)) [
  | inl odd ↦
      let split = taken-left how k.map_a clean in
      let exact = sum_fingerprints-reported (taken how k.map_a) (omega (arith, split, small)) in
      rw odd (omega (arith, split, exact), IsSized-left cpus how k.map_a clean sa, sb, refl)
  | inr even ↦
      let split = taken-left how k.map_b clean in
      let exact = sum_fingerprints-reported (taken how k.map_b) (omega (arith, split, small)) in
      rw even (omega (arith, split, exact), sa, IsSized-left cpus how k.map_b clean sb, refl)
]

-- ===== src/Fingerprints/Conserved.antt =====
-- A flip neither loses a packet nor reports it twice, as long as no deletion of a drain without batches fails.
use packetyeeter.Common.{
  ℕ, ◌+◌, ◌^◌, ◌≤◌, ◌<◌, ◌≡◌, refl, ◌∙◌, inl, inr, Bool, true, false, not, List, [], ◌∷◌, arith,
  if◌then◌else◌, length, All, Bool-cases, ◌==◌, nat_key,
}
use packetyeeter.Fingerprints.Types.{Fingerprint}
use packetyeeter.Fingerprints.Kernel.{Kernel, is_odd, count_packet, drain_fingerprints}
use packetyeeter.Fingerprints.Flip.{
  Fingerprinter, Landing, Meets, Flipped, next_generation, count_all, leftovers, switched,
  not_switched, flip,
}
use packetyeeter.Fingerprints.Counted.{IsSized, held, reported, reported-append}
use packetyeeter.Fingerprints.Drained.{count_packet-held, drain-held, IsClean}

-- XDP counts in the generation of the fingerprinter, and a map that is still to be drained is the other one.
pub record IsRunning (cpus : ℕ) (f : Fingerprinter) (k : Kernel) : Type 0 where
  pub generation : k.generation ≡ f.gen
  pub on : 1 ≤ f.gen
  pub narrow : f.gen < 2 ^ 32
  pub idle : (f.retry == 0) ≡ false → is_odd f.retry ≡ not (is_odd f.gen)
  pub sized_a : IsSized cpus k.map_a
  pub sized_b : IsSized cpus k.map_b

pub next_generation_lem :
    (gen : ℕ)
    → 1 ≤ gen
    → gen < 2 ^ 32
    → (1 ≤ next_generation gen)
      × (next_generation gen < 2 ^ 32)
      × (is_odd (next_generation gen) ≡ not (is_odd gen))
next_generation_lem gen on narrow = (ground arith, ground arith, ground arith)

abbrev pub AreOn : ℕ → List Landing → Type 0
AreOn cpus landings = All (λ l. l.packet.cpu < cpus) landings

-- What counting packets does, whichever of two generations each of them read.
count_all-held :
    (cpus old next : ℕ) (landings : List Landing) (k : Kernel)
    → AreOn cpus landings
    → 1 ≤ old
    → 1 ≤ next
    → IsSized cpus k.map_a
    → IsSized cpus k.map_b
    → let k' = count_all cpus old next landings k in
      (held k' ≡ held k + length landings)
      × IsSized cpus k'.map_a
      × IsSized cpus k'.map_b
      × (k'.generation ≡ k.generation)
count_all-held cpus old next [] k on set_old set_next sa sb = (omega arith, sa, sb, refl)
count_all-held cpus old next (l ∷ landings) k on set_old set_next sa sb =
    let gen = if l.stale then old else next in
    let set : 1 ≤ gen = ground arith in
    let (one, sa1, sb1, gen1) = count_packet-held cpus l.packet on.0 gen l.answer k set sa sb in
    let (more, sa2, sb2, gen2) =
      count_all-held cpus old next landings (count_packet cpus gen l.answer l.packet k) on.1 set_old
        set_next sa1 sb1 in
    (omega (arith, one, more), sa2, sb2, gen2 ∙ gen1)

idle_after :
    (again : Bool) (gen next : ℕ)
    → is_odd next ≡ not (is_odd gen)
    → ((if again then gen else 0) == 0) ≡ false
    → is_odd (if again then gen else 0) ≡ not (is_odd next)
idle_after true gen next other h = flipped (is_odd gen) (is_odd next) other
  where
    flipped : (b c : Bool) → c ≡ not b → b ≡ not c
    flipped b c q = ground arith
idle_after false gen next other h = absurd (ground (arith, h))

module _ (cpus : ℕ) (e : Meets) (f : Fingerprinter) (k : Kernel) (v : IsRunning cpus f k) where
  -- What draining the leftovers does.
  abbrev AfterRetry : Kernel × List Fingerprint × Bool → Type 0
  AfterRetry out =
      (held out.0 + reported out.1 ≡ held k)
      × IsSized cpus out.0.map_a
      × IsSized cpus out.0.map_b
      × (out.0.generation ≡ k.generation)

  leftovers-AfterRetry : IsClean e.retry_drain → held k < 2 ^ 64 → AfterRetry (leftovers cpus e f k)
  leftovers-AfterRetry clean small = elim (Bool-cases (f.retry == 0)) [
    | inl none_left ↦ rw none_left (omega arith, v.sized_a, v.sized_b, refl)
    | inr again ↦ rw again (drain-held cpus f.retry e.retry_drain k clean small v.sized_a v.sized_b)
  ]

  -- After a flip every packet is held or was reported, and the fingerprinter runs on.
  abbrev pub FlippedTo : Bool → Flipped → Type 0
  FlippedTo fails out =
      (held out.kernel + reported out.fingerprints
        ≡ held k + (if fails then 0 else length e.settling))
      × IsRunning cpus out.fingerprinter out.kernel

  not_switched-FlippedTo :
      (p : Kernel × List Fingerprint × Bool) → AfterRetry p → FlippedTo true (not_switched cpus f p)
  not_switched-FlippedTo p (sum, sa, sb, gen) = (
    omega (arith, sum),
    record {
      generation = gen ∙ v.generation;
      on = v.on;
      narrow = v.narrow;
      idle = λ h. absurd (ground (arith, h));
      sized_a = sa;
      sized_b = sb;
    },
  )

  switched-FlippedTo :
      (p : Kernel × List Fingerprint × Bool)
      → AfterRetry p
      → IsClean e.drain
      → AreOn cpus e.settling
      → held k + length e.settling < 2 ^ 64
      → FlippedTo false (switched cpus e f p)
  switched-FlippedTo p (sum, sa, sb, gen) clean on small =
      let (next_on, next_narrow, other) = next_generation_lem f.gen v.on v.narrow in
      let moved : Kernel = record p.0 { generation = next_generation f.gen } in
      let (counted, sa1, sb1, gen1) =
        count_all-held cpus f.gen (next_generation f.gen) e.settling moved on v.on next_on sa sb in
      let waited = count_all cpus f.gen (next_generation f.gen) e.settling moved in
      let (drained, sa2, sb2, gen2) =
        drain-held cpus f.gen e.drain waited clean (omega (arith, counted, sum, small)) sa1 sb1 in
      let out = drain_fingerprints f.gen e.drain waited in
      (
        omega (arith, drained, counted, sum, reported-append p.1 out.1),
        record {
          generation = gen2 ∙ gen1;
          on = next_on;
          narrow = next_narrow;
          idle = idle_after out.2 f.gen (next_generation f.gen) other;
          sized_a = sa2;
          sized_b = sb2;
        },
      )

  pub flip-FlippedTo :
      IsClean e.retry_drain
      → IsClean e.drain
      → AreOn cpus e.settling
      → held k + (if e.switch_fails then 0 else length e.settling) < 2 ^ 64
      → FlippedTo e.switch_fails (flip cpus e f k)
  unfolding flip
  flip-FlippedTo clean_retry clean on small =
      let retried = leftovers-AfterRetry clean_retry (omega (arith, small)) in
      elim (Bool-cases e.switch_fails) [
        | inl fails ↦ rw fails (not_switched-FlippedTo (leftovers cpus e f k) retried)
        | inr switches ↦
            rw switches
              (switched-FlippedTo (leftovers cpus e f k) retried clean on (rw switches at small))
      ]

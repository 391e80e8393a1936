-- ===== src/Fingerprints/Counted.antt =====
-- How many packets the counters of a fingerprint map hold.
use packetyeeter.Common.{
  ℕ, zero, suc, ◌+◌, ◌%◌, ◌^◌, ◌<◌, ◌≡◌, refl, ap, ◌∙◌, inl, inr, none, some, List, [], ◌∷◌, ◌++◌,
  arith, length, take, drop, replicate, All, Bool-cases, ◌==◌, nat_key,
}
use packetyeeter.Common.Assoc.{get, put}
use packetyeeter.Fingerprints.Types.{
  FingerprintKey, ScrubCounter, Fingerprint, FingerprintMap, fingerprint_key, sum_counters,
  sum_fingerprints,
}
use packetyeeter.Fingerprints.Kernel.{Kernel, add_at_cpu, no_packets}

abbrev pub packets_of : List ScrubCounter → ℕ
packets_of [] = 0
packets_of (c ∷ rest) = c.packets + packets_of rest

abbrev pub total : FingerprintMap → ℕ
total [] = 0
total ((k, counters) ∷ m) = packets_of counters + total m

abbrev pub reported : List Fingerprint → ℕ
reported [] = 0
reported (f ∷ rest) = f.packets + reported rest

-- Every packet that the kernel's maps or the overflow counter hold, or that was counted nowhere.
abbrev pub held : Kernel → ℕ
held k = total k.map_a + total k.map_b + k.overflow + k.uncounted

-- Every key has a counter for each CPU.
abbrev pub IsSized : ℕ → FingerprintMap → Type 0
IsSized cpus m = All (λ p. length p.1 ≡ cpus) m

pub reported-append : (xs ys : List Fingerprint) → reported (xs ++ ys) ≡ reported xs + reported ys
reported-append [] ys = omega arith
reported-append (x ∷ xs) ys = omega (arith, reported-append xs ys)

pub sum_counters-exact :
    (counters : List ScrubCounter) (sum : ℕ × ℕ)
    → sum.0 + packets_of counters < 2 ^ 64
    → (sum_counters counters sum).0 ≡ sum.0 + packets_of counters
unfolding sum_counters
sum_counters-exact [] sum h = omega arith
sum_counters-exact (c ∷ rest) sum h =
    let fits : (sum.0 + c.packets) % 2 ^ 64 ≡ sum.0 + c.packets = omega (arith, h) in
    sum_counters-exact rest ((sum.0 + c.packets) % 2 ^ 64, (sum.1 + c.bytes) % 2 ^ 64)
      (omega (arith, fits, h))
    ∙ omega (arith, fits)

pub sum_fingerprints-reported :
    (m : FingerprintMap) → total m < 2 ^ 64 → reported (sum_fingerprints m) ≡ total m
unfolding sum_fingerprints
sum_fingerprints-reported [] h = refl
sum_fingerprints-reported ((k, counters) ∷ m) h = ground (
  arith,
  sum_counters-exact counters (0, 0) (omega (arith, h)),
  sum_fingerprints-reported m (omega (arith, h)),
)

pub total-take-drop : (n : ℕ) (m : FingerprintMap) → total (take n m) + total (drop n m) ≡ total m
total-take-drop zero m = omega arith
total-take-drop (suc n) [] = refl
total-take-drop (suc n) (p ∷ m) = omega (arith, total-take-drop n m)

pub packets_of-add :
    (cpu len : ℕ) (counters : List ScrubCounter)
    → cpu < length counters
    → packets_of (add_at_cpu cpu len counters) ≡ packets_of counters + 1
unfolding add_at_cpu
packets_of-add cpu len [] h = absurd (omega (arith, h))
packets_of-add zero len (c ∷ rest) h = omega arith
packets_of-add (suc cpu) len (c ∷ rest) h =
    omega (arith, packets_of-add cpu len rest (omega (arith, h)))

pub length-add :
    (cpu len : ℕ) (counters : List ScrubCounter)
    → length (add_at_cpu cpu len counters) ≡ length counters
unfolding add_at_cpu
length-add cpu len [] = refl
length-add zero len (c ∷ rest) = refl
length-add (suc cpu) len (c ∷ rest) = ap suc (length-add cpu len rest)

pub packets_of-none : (n : ℕ) → packets_of (replicate n no_packets) ≡ 0
packets_of-none zero = refl
packets_of-none (suc n) = omega (arith, packets_of-none n)

pub length-replicate : (n : ℕ) → length (replicate n no_packets) ≡ n
length-replicate zero = refl
length-replicate (suc n) = ap suc (length-replicate n)

pub total-put :
    (key : FingerprintKey) (old new : List ScrubCounter) (m : FingerprintMap)
    → get key m ≡ some old
    → total (put key new m) + packets_of old ≡ total m + packets_of new
total-put key old new [] h = cc
total-put key old new ((k, counters) ∷ m) h = elim (Bool-cases (k == key)) [
  | inl same ↦
      let q : counters ≡ old = ground (arith, rw same at h) in
      rw same (omega (arith, ap packets_of q))
  | inr other ↦ rw other (omega (arith, total-put key old new m (rw other at h)))
]

pub total-insert :
    (key : FingerprintKey) (new : List ScrubCounter) (m : FingerprintMap)
    → get key m ≡ none
    → total (put key new m) ≡ total m + packets_of new
total-insert key new [] h = omega arith
total-insert key new ((k, counters) ∷ m) h = elim (Bool-cases (k == key)) [
  | inl same ↦ absurd (ground (arith, rw same at h))
  | inr other ↦ rw other (omega (arith, total-insert key new m (rw other at h)))
]

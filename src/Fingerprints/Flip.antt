-- ===== src/Fingerprints/Flip.antt =====
-- The fingerprinter of pkg/collector/fingerprint.go, which alternates XDP between the two maps.
use packetyeeter.Common.{
  ℕ, ◌+◌, ◌-◌, ◌%◌, ◌^◌, Bool, true, false, List, [], ◌∷◌, ◌++◌, if◌then◌else◌, ◌==◌, nat_key,
}
use packetyeeter.Fingerprints.Types.{Fingerprint}
use packetyeeter.Fingerprints.Kernel.{
  Kernel, Packet, Insertion, Drain, count_packet, drain_fingerprints,
}

pub record Fingerprinter : Type 0 where
  pub gen : ℕ
  pub retry : ℕ
  pub since : ℕ

abbrev pub new_fingerprinter : Fingerprinter
new_fingerprinter = record { gen = 0; retry = 0; since = 0 }

abbrev pub next_generation : ℕ → ℕ
next_generation gen = if (gen + 1) % 2 ^ 32 == 0 then 2 else (gen + 1) % 2 ^ 32

-- SetFingerprintGeneration(1), unless it fails.
abbrev pub start : Bool → ℕ → Fingerprinter × Kernel → Fingerprinter × Kernel
start fails now (f, k) =
    if fails then (f, k) else (record f { gen = 1; since = now }, record k { generation = 1 })

-- A packet that XDP counts while a flip waits: whether it read the generation before the switch, how its insertion ends,
-- and the packet.
pub record Landing : Type 0 where
  pub stale : Bool
  pub answer : Insertion
  pub packet : Packet

-- What a flip meets: how its calls go, the clock, and the packets that XDP counts while it waits. The wait is long
-- enough that every packet that read the old generation has been counted by its end.
pub record Meets : Type 0 where
  pub retry_drain : Drain
  pub switch_fails : Bool
  pub drain : Drain
  pub now : ℕ
  pub settling : List Landing

pub record Flipped : Type 0 where
  pub fingerprinter : Fingerprinter
  pub kernel : Kernel
  pub fingerprints : List Fingerprint
  pub elapsed : ℕ
  pub failed : Bool

module _ (cpus : ℕ) where
  abbrev pub count_all : ℕ → ℕ → List Landing → Kernel → Kernel
  count_all old next [] k = k
  count_all old next (l ∷ rest) k =
      count_all old next rest
        (count_packet cpus (if l.stale then old else next) l.answer l.packet k)

  -- What a map that was partly drained still holds.
  abbrev pub leftovers : Meets → Fingerprinter → Kernel → Kernel × List Fingerprint × Bool
  leftovers e f k =
      if f.retry == 0 then (k, [], false) else drain_fingerprints f.retry e.retry_drain k

  abbrev pub switched : Meets → Fingerprinter → Kernel × List Fingerprint × Bool → Flipped
  switched e f (k, leftover, retry_failed) =
      let waited =
        count_all f.gen (next_generation f.gen) e.settling
          (record k { generation = next_generation f.gen }) in
      let out = drain_fingerprints f.gen e.drain waited in
      record {
        fingerprinter = record {
          gen = next_generation f.gen;
          retry = if out.2 then f.gen else 0;
          since = e.now;
        };
        kernel = out.0;
        fingerprints = leftover ++ out.1;
        elapsed = e.now - f.since;
        failed = if retry_failed then true else out.2;
      }

  abbrev pub not_switched : Fingerprinter → Kernel × List Fingerprint × Bool → Flipped
  not_switched f (k, leftover, retry_failed) = record {
    fingerprinter = record f { retry = 0 };
    kernel = k;
    fingerprints = leftover;
    elapsed = 0;
    failed = true;
  }

  unfoldable pub flip : Meets → Fingerprinter → Kernel → Flipped
  unfolding drain_fingerprints count_packet
  flip e f k =
      if e.switch_fails then not_switched f (leftovers e f k) else switched e f (leftovers e f k)

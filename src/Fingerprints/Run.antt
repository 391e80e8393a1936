-- ===== src/Fingerprints/Run.antt =====
-- Every packet that XDP sees is reported once, or still in the kernel.
use packetyeeter.Common.{ℕ, ◌+◌, ◌<◌, false, List, [], ◌∷◌, ◌++◌, if◌then◌else◌, length, nat_key}
use packetyeeter.Fingerprints.Types.{Fingerprint}
use packetyeeter.Fingerprints.Kernel.{Kernel, Packet, Insertion, count_packet}
use packetyeeter.Fingerprints.Flip.{Fingerprinter, Meets, new_fingerprinter, start, flip}
use packetyeeter.Fingerprints.Counted.{held, reported}
use packetyeeter.Fingerprints.Drained.{IsClean}
use packetyeeter.Fingerprints.Conserved.{AreOn}

-- What the collector and XDP do, in turn. A packet that reads the generation before a switch and is counted after it is
-- a stale one of that flip.
pub data Event : Type 0 where
  packet : Insertion → Packet → Event
  flipping : Meets → Event

pub record World : Type 0 where
  pub fingerprinter : Fingerprinter
  pub kernel : Kernel
  pub reports : List Fingerprint

module _ (cpus : ℕ) where
  abbrev pub happen : Event → World → World
  happen (packet answer p) w = record w {
    kernel = count_packet cpus w.kernel.generation answer p w.kernel;
  }
  happen (flipping e) w =
      let out = flip cpus e w.fingerprinter w.kernel in
      record {
        fingerprinter = out.fingerprinter;
        kernel = out.kernel;
        reports = w.reports ++ out.fingerprints;
      }

  abbrev pub run : List Event → World → World
  run [] w = w
  run (e ∷ events) w = run events (happen e w)

  -- The packets that XDP counts in an event.
  abbrev pub seen_in : Event → ℕ
  seen_in (packet answer p) = 1
  seen_in (flipping e) = if e.switch_fails then 0 else length e.settling

  abbrev pub seen : List Event → ℕ
  seen [] = 0
  seen (e ∷ events) = seen_in e + seen events

  -- The packets are on CPUs of the machine, and no deletion of a drain fails.
  abbrev pub IsOn : Event → Type 0
  IsOn (packet answer p) = p.cpu < cpus
  IsOn (flipping e) = IsClean e.retry_drain × IsClean e.drain × AreOn cpus e.settling

  -- What the world holds and has reported.
  abbrev pub known : World → ℕ
  known w = held w.kernel + reported w.reports

-- A fingerprinter that has just been started, on empty maps.
abbrev pub started : ℕ → World
started now =
    let out = start false now (
      new_fingerprinter,
      record { generation = 0; map_a = []; map_b = []; overflow = 0; uncounted = 0 },
    ) in
    record { fingerprinter = out.0; kernel = out.1; reports = [] }

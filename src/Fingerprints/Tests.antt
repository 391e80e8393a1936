-- ===== src/Fingerprints/Tests.antt =====
-- Runs of the fingerprinter and its theorems at concrete inputs.
use packetyeeter.Common.{ℕ, ◌*◌, ◌≡◌, refl, Bool, true, false, none, List, [], ◌∷◌, All}
use packetyeeter.Fingerprints.Types.{FingerprintKey, Fingerprint}
use packetyeeter.Fingerprints.Kernel.{Packet, created, Drain, complete, batch_fails, by_entry}
use packetyeeter.Fingerprints.Flip.{Landing, Meets, next_generation}
use packetyeeter.Fingerprints.Run.{Event, packet, flipping}
use packetyeeter.Fingerprints.Top.{select_top_fingerprints}
use packetyeeter.Fingerprints.Selected.{IsSelection, IsTrimmed, IsDropped, select_top-Selected}

abbrev key : ℕ → FingerprintKey
key port = record {
  dst = 10 ∷ 0 ∷ 0 ∷ 1 ∷ [];
  src_net = 192 ∷ 0 ∷ 2 ∷ 0 ∷ [];
  dst_port = port;
  proto = 17;
  size_bucket = 0;
  ttl_bucket = 2;
  dropped = 1;
  family = 0;
}

abbrev dns : ℕ → Packet
dns cpu = record { key = key 53; len = 100; cpu = cpu }

abbrev late : Bool → Landing
late stale = record { stale = stale; answer = created; packet = dns 1 }

-- The drain fails after no entry, and is retried at the next flip, while packets come in.
abbrev meets : Drain → Meets
meets how = record {
  retry_drain = by_entry none (false ∷ []);
  switch_fails = false;
  drain = how;
  now = 10;
  settling = late true ∷ late false ∷ [];
}

abbrev events : List Event
events =
    packet created (dns 0)
    ∷ packet created (dns 1)
    ∷ flipping (meets (batch_fails 0))
    ∷ flipping (meets complete)
    ∷ []

next_generation_run : next_generation 4_294_967_295 ≡ 2
next_generation_run = refl

abbrev print : ℕ → ℕ → Fingerprint
print port n = record { key = key port; packets = n; bytes = 100 * n }

-- Three fingerprints of one destination, and a smaller one of another.
abbrev prints : List Fingerprint
prints =
    print 53 5
    ∷ print 80 9
    ∷ record (print 22 8) { key = record (key 22) { dst = 10 ∷ 0 ∷ 0 ∷ 2 ∷ [] } }
    ∷ print 443 7
    ∷ []

select_top-Selected_example :
    let out = select_top_fingerprints prints 2 1 in
    (trim : List Fingerprint) × (drops : List Fingerprint) × IsSelection prints 2 1 out.0
      out.1.buckets trim drops
    × All (IsTrimmed 2 out.0) trim
    × All (IsDropped prints out.0) drops
select_top-Selected_example = select_top-Selected prints 2 1

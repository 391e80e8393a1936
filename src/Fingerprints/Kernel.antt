-- ===== src/Fingerprints/Kernel.antt =====
-- scrub_fingerprint of protector.bpf.c, which counts a packet on a CPU, and the calls that
-- pkg/collector/ebpf/fingerprint.go makes on the maps. The counters of a key that was just inserted are zero on the
-- other CPUs. A packet reads the generation first and writes later, so the generation that it read is an argument; so
-- are what the kernel answers to an insertion, and where a drain fails. A packet whose insertion meets the key that
-- another CPU inserted first, and finds it then, is one that comes after that insertion.
use packetyeeter.Common.{
  ℕ, suc, zero, ◌+◌, ◌%◌, Bool, true, false, ◌||◌, Option, none, some, List, [], ◌∷◌, ◌++◌, length,
  if◌then◌else◌, take, drop, replicate, ◌==◌, nat_key,
}
use packetyeeter.Common.Assoc.{get, put}
use packetyeeter.Fingerprints.Types.{
  FingerprintKey, ScrubCounter, Fingerprint, FingerprintMap, fingerprint_key, sum_fingerprints,
}

-- The generation in the configuration, the two maps, the overflow counter, and how many packets were counted nowhere,
-- which the program does not record.
pub record Kernel : Type 0 where
  pub generation : ℕ
  pub map_a : FingerprintMap
  pub map_b : FingerprintMap
  pub overflow : ℕ
  pub uncounted : ℕ

-- A packet: its key and length, and the CPU that counts it.
pub record Packet : Type 0 where
  pub key : FingerprintKey
  pub len : ℕ
  pub cpu : ℕ

abbrev pub is_odd : ℕ → Bool
is_odd gen = gen % 2 == 1

-- The counter of one CPU goes up.
unfoldable pub add_at_cpu : ℕ → ℕ → List ScrubCounter → List ScrubCounter
add_at_cpu cpu len [] = []
add_at_cpu zero len (c ∷ rest) = record { packets = c.packets + 1; bytes = c.bytes + len } ∷ rest
add_at_cpu (suc cpu) len (c ∷ rest) = c ∷ add_at_cpu cpu len rest

abbrev pub no_packets : ScrubCounter
no_packets = record { packets = 0; bytes = 0 }

-- How an insertion ends when the key is missing: it is made, the packet overflows, or the packet is counted nowhere
-- since another CPU's entry has gone again by the second lookup or the overflow counter is missing.
pub data Insertion : Type 0 where
  created overflows lost : Insertion

-- What fp_bump does: it changes the map, or the packet overflows or is lost.
pub data Bump : Type 0 where
  counted : FingerprintMap → Bump
  overflowed uncounted : Bump

abbrev pub bump : ℕ → Insertion → Packet → Option (List ScrubCounter) → FingerprintMap → Bump
bump cpus answer p (some counters) m = counted (put p.key (add_at_cpu p.cpu p.len counters) m)
bump cpus created p none m =
    counted (put p.key (add_at_cpu p.cpu p.len (replicate cpus no_packets)) m)
bump cpus overflows p none m = overflowed
bump cpus lost p none m = uncounted

abbrev pub in_a : Bump → Kernel → Kernel
in_a (counted m) k = record k { map_a = m }
in_a overflowed k = record k { overflow = k.overflow + 1 }
in_a uncounted k = record k { uncounted = k.uncounted + 1 }

abbrev pub in_b : Bump → Kernel → Kernel
in_b (counted m) k = record k { map_b = m }
in_b overflowed k = record k { overflow = k.overflow + 1 }
in_b uncounted k = record k { uncounted = k.uncounted + 1 }

-- scrub_fingerprint, on a machine with `cpus` CPUs, for a packet that read the generation `gen`.
unfoldable pub count_packet : ℕ → ℕ → Insertion → Packet → Kernel → Kernel
unfolding add_at_cpu
count_packet cpus gen answer p k =
    if gen == 0
    then k
    else if is_odd gen
    then in_a (bump cpus answer p (get p.key k.map_a) k.map_a) k
    else in_b (bump cpus answer p (get p.key k.map_b) k.map_b) k

-- How a drain goes: it completes; a batch fails after so many entries; or, without batches, the entries are read one
-- by one, all or so many until the iteration fails, and then deleted, where each deletion may fail.
pub data Drain : Type 0 where
  complete : Drain
  batch_fails : ℕ → Drain
  by_entry : Option ℕ → List Bool → Drain

-- The entries that an iteration reads, and those that it does not reach.
abbrev pub read_of : Option ℕ → FingerprintMap → FingerprintMap
read_of none m = m
read_of (some n) m = take n m

abbrev pub unread_of : Option ℕ → FingerprintMap → FingerprintMap
unread_of none m = []
unread_of (some n) m = drop n m

-- The entries whose deletion fails.
abbrev pub stuck : List Bool → FingerprintMap → FingerprintMap
stuck fails [] = []
stuck [] (e ∷ m) = []
stuck (true ∷ fails) (e ∷ m) = e ∷ stuck fails m
stuck (false ∷ fails) (e ∷ m) = stuck fails m

abbrev pub taken : Drain → FingerprintMap → FingerprintMap
taken complete m = m
taken (batch_fails n) m = take n m
taken (by_entry end fails) m = read_of end m

abbrev pub left : Drain → FingerprintMap → FingerprintMap
left complete m = []
left (batch_fails n) m = drop n m
left (by_entry end fails) m = stuck fails (read_of end m) ++ unread_of end m

abbrev pub any_fails : List Bool → Bool
any_fails [] = false
any_fails (fails ∷ rest) = fails || any_fails rest

abbrev pub is_short : Option ℕ → Bool
is_short none = false
is_short (some n) = true

-- A deletion of an entry that was not read does not happen.
abbrev pub failed : Drain → FingerprintMap → Bool
failed complete m = false
failed (batch_fails n) m = true
failed (by_entry end fails) m = is_short end || any_fails (take (length (read_of end m)) fails)

-- DrainFingerprints: what it returns, and whether it failed. No packet writes to a map that is drained, so a drain is
-- one step: the packets that still wrote to it have landed by the end of the wait before it.
unfoldable pub drain_fingerprints : ℕ → Drain → Kernel → Kernel × List Fingerprint × Bool
unfolding sum_fingerprints
drain_fingerprints gen how k =
    if is_odd gen
    then (
      record k { map_a = left how k.map_a },
      sum_fingerprints (taken how k.map_a),
      failed how k.map_a,
    )
    else (
      record k { map_b = left how k.map_b },
      sum_fingerprints (taken how k.map_b),
      failed how k.map_b,
    )

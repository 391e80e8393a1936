-- ===== src/Fingerprints/Top.antt =====
-- selectTopFingerprints of pkg/collector/fingerprint.go. The map from a destination to its entry is the lookup in the
-- list of entries; bytes.Compare is the order of lists of bytes.
use packetyeeter.Common.{
  ℕ, ◌+◌, ◌-◌, ◌%◌, ◌^◌, Bool, true, false, List, [], ◌∷◌, ◌++◌, if◌then◌else◌, ltb, length, take,
  drop, ◌==◌, nat_key,
}
use packetyeeter.Common.Sort.{sort}
use packetyeeter.Common.Text.{codes_before}
use packetyeeter.Fingerprints.Types.{FingerprintKey, Fingerprint, bytes_key}

-- A destination: its family and address, the packets to it, and its buckets.
pub record FpDest : Type 0 where
  pub key : List ℕ
  pub packets : ℕ
  pub buckets : List Fingerprint

pub record FingerprintCut : Type 0 where
  pub buckets : ℕ
  pub destinations : ℕ

abbrev pub dest_key : Fingerprint → List ℕ
dest_key fp = fp.key.family ∷ fp.key.dst

-- The destination of a fingerprint takes it; a new one goes to the end.
unfoldable pub add_bucket : Fingerprint → List FpDest → List FpDest
add_bucket fp [] =
    record { key = dest_key fp; packets = fp.packets % 2 ^ 64; buckets = fp ∷ [] } ∷ []
add_bucket fp (d ∷ dests) =
    let rest = add_bucket fp dests in
    if d.key == dest_key fp
    then record d { packets = (d.packets + fp.packets) % 2 ^ 64; buckets = d.buckets ++ fp ∷ [] }
      ∷ dests
    else d ∷ rest

unfoldable pub by_dest : List Fingerprint → List FpDest → List FpDest
unfolding add_bucket
by_dest [] dests = dests
by_dest (fp ∷ fps) dests = by_dest fps (add_bucket fp dests)

-- The busier destination first, and of equals the one with the smaller key.
abbrev pub dest_before : FpDest → FpDest → Bool
dest_before a b =
    if ltb b.packets a.packets
    then true
    else if ltb a.packets b.packets
    then false
    else codes_before a.key b.key

-- The fields that break a tie, in the order they are compared; src_net has a fixed length.
abbrev pub tie_codes : FingerprintKey → List ℕ
tie_codes k = k.src_net ++ k.proto ∷ k.dst_port ∷ k.size_bucket ∷ k.ttl_bucket ∷ k.dropped ∷ []

-- compareFingerprints, whether `a` is first.
abbrev pub fingerprint_before : Fingerprint → Fingerprint → Bool
fingerprint_before a b =
    if ltb b.packets a.packets
    then true
    else if ltb a.packets b.packets
    then false
    else if ltb b.bytes a.bytes
    then true
    else if ltb a.bytes b.bytes
    then false
    else codes_before (tie_codes a.key) (tie_codes b.key)

unfoldable pub count_buckets : List FpDest → ℕ
count_buckets [] = 0
count_buckets (d ∷ dests) = length d.buckets + count_buckets dests

-- The loop over the destinations that stay: the top buckets of each, and how many are cut.
unfoldable pub keep_top : ℕ → List FpDest → List Fingerprint × ℕ
unfolding sort
keep_top top [] = ([], 0)
keep_top top (d ∷ dests) =
    let more = keep_top top dests in
    (take top (sort fingerprint_before d.buckets) ++ more.0, (length d.buckets - top) + more.1)

unfoldable pub select_top_fingerprints :
    List Fingerprint → ℕ → ℕ → List Fingerprint × FingerprintCut
unfolding by_dest count_buckets keep_top sort
select_top_fingerprints fps top max_dst =
    let dests = sort dest_before (by_dest fps []) in
    let kept = keep_top top (take max_dst dests) in
    (
      kept.0,
      record {
        buckets = count_buckets (drop max_dst dests) + kept.1;
        destinations = length dests - max_dst;
      },
    )

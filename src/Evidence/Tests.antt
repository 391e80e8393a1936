-- ===== src/Evidence/Tests.antt =====
-- Runs of the evidence set and its theorems at concrete inputs.
use packetyeeter.Common.{◌≡◌, ◌↔◌, ◌<◌, ◌+◌, refl, some, [], ◌∷◌, arith, length, eq_iff, string_key}
use packetyeeter.Common.Assoc.{get}
use packetyeeter.Sampling.{evict_oldest}
use packetyeeter.Evidence.{EvidenceSet, new_evidence_set, add_at, purge, has_at}
use packetyeeter.Evidence.Laws.{IsEvidence, Added, add_at-Added, purge-Purged}

abbrev start : EvidenceSet
start = new_evidence_set 600_000_000_000 1

start-IsEvidence : IsEvidence start
start-IsEvidence = record {
  room = omega arith;
  bounded = omega arith;
  distinct = tt;
  lasting = omega arith;
}

add_at-Added_example : Added "10.0.0.1" 1000 start (add_at (some "10.0.0.1") 1000 start)
add_at-Added_example = add_at-Added "10.0.0.1" 1000 start start-IsEvidence

add_twice_run : (add_at (some "b") 2000 (add_at (some "a") 1000 start)).seen ≡ ("b", 2000) ∷ []
unfolding add_at evict_oldest
add_twice_run = refl

-- The first entry is as old as the ttl, the second one is not.
abbrev two : EvidenceSet
two = record { seen = ("a", 0) ∷ ("b", 5) ∷ []; ttl = 2_000_000_000; cap = 2 }

two-IsEvidence : IsEvidence two
two-IsEvidence = record {
  room = omega arith;
  bounded = omega arith;
  distinct = (((λ q. ground (arith, q, eq_iff "b" "a")), tt), (tt, tt));
  lasting = omega arith;
}

purge-Purged_example :
    let out = purge 2_000_000_000 two in
    (get "a" out.0.seen ≡ some 0
      ↔ (get "a" two.seen ≡ some 0) × (2_000_000_000 < 0 + 2_000_000_000))
    × (has_at (some "a") 2_000_000_000 out.0 ≡ has_at (some "a") 2_000_000_000 two)
    × (out.1 ≡ length out.0.seen)
    × IsEvidence out.0
purge-Purged_example = purge-Purged "a" 2_000_000_000 0 two two-IsEvidence

purge_run : (purge 2_000_000_000 two).0.seen ≡ ("b", 5) ∷ []
unfolding purge
purge_run = refl

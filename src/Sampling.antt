-- ===== src/Sampling.antt =====
-- Sampled eviction, shared by evictOldestLocked of pkg/ratelimit/limiter.go and evictSampledLocked of
-- pkg/analyzer/scrub_trust.go: both drop the oldest of the first entries that the map's iteration gives, here
-- the first entries of the list.
pub mod Laws
use packetyeeter.Common.{ℕ, zero, suc, Option, none, some, List, [], ◌∷◌, if◌then◌else◌, ltb, Key}
use packetyeeter.Common.Assoc.{Map, delete}

abbrev pub eviction_sample_size : ℕ
eviction_sample_size = 8

module _ {K V : Type 0} (stamp : K → V → ℕ) where
  abbrev pub older : Option (K × ℕ) → K → ℕ → Option (K × ℕ)
  older none key at = some (key, at)
  older (some (oldest, time)) key at = if ltb at time then some (key, at) else some (oldest, time)

  -- The loop, with the entries that it may still look at.
  pub sample_oldest : ℕ → Option (K × ℕ) → Map K V → Option (K × ℕ)
  sample_oldest zero best m = best
  sample_oldest (suc n) best [] = best
  sample_oldest (suc n) best ((key, value) ∷ m) =
      sample_oldest n (older best key (stamp key value)) m

  module _ ⦃key_eq : Key K⦄ where
    abbrev pub delete_found : Option (K × ℕ) → Map K V → Map K V
    delete_found none m = m
    delete_found (some (key, at)) m = delete key m

    unfoldable pub evict_oldest : Map K V → Map K V
    unfolding sample_oldest
    evict_oldest m = delete_found (sample_oldest eviction_sample_size none m) m

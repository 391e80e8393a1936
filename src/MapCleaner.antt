-- ===== src/MapCleaner.antt =====
-- pkg/utils/mapcleaner/cleaner.go: bounded maps by evicting what was seen longest ago. A timestamp is a
-- number of nanoseconds, and `stamp` is the callback getTimestamp.
pub mod Laws
pub mod Select
mod Tests
use packetyeeter.Common.{
  ℕ, zero, suc, ◌+◌, ◌-◌, ◌/◌, Bool, Option, none, some, List, [], ◌∷◌, if◌then◌else◌, ltb, leb,
  length, Key,
}
use packetyeeter.Common.Assoc.{Map, delete}

module _ {K V : Type 0} (stamp : K → V → ℕ) where
  -- The loop: the key of the oldest entry so far, and its time.
  abbrev older : Option (K × ℕ) → K → ℕ → Option (K × ℕ)
  older none key at = some (key, at)
  older (some (oldest, time)) key at = if ltb at time then some (key, at) else some (oldest, time)

  pub find_oldest : Option (K × ℕ) → Map K V → Option (K × ℕ)
  find_oldest best [] = best
  find_oldest best ((key, value) ∷ rest) = find_oldest (older best key (stamp key value)) rest

  -- RemoveEntriesOlderThan, with the number of entries removed.
  pub remove_entries_older_than : ℕ → Map K V → Map K V × ℕ
  remove_entries_older_than cutoff [] = ([], 0)
  remove_entries_older_than cutoff ((key, value) ∷ rest) =
      let more = remove_entries_older_than cutoff rest in
      if ltb (stamp key value) cutoff then (more.0, suc more.1) else ((key, value) ∷ more.0, more.1)

  module _ ⦃key_eq : Key K⦄ where
    abbrev delete_found : Option (K × ℕ) → Map K V → Map K V
    delete_found none m = m
    delete_found (some (key, at)) m = delete key m

    pub remove_oldest_entry : Map K V → Map K V
    unfolding find_oldest
    remove_oldest_entry m = delete_found (find_oldest none m) m

    -- The loop of EnforceMaxSize; each round removes an entry, so as many rounds as entries are enough.
    pub enforce_rounds : ℕ → ℕ → Map K V → Map K V
    enforce_rounds zero max_size m = m
    enforce_rounds (suc rounds) max_size m =
        let rest = enforce_rounds rounds max_size (remove_oldest_entry m) in
        if ltb max_size (length m) then rest else m

    pub enforce_max_size : ℕ → Map K V → Map K V
    unfolding enforce_rounds
    enforce_max_size max_size m = enforce_rounds (length m) max_size m

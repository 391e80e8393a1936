-- ===== src/MapCleaner/Tests.antt =====
-- The eviction laws at a map of three entries.
use packetyeeter.Common.{ℕ, ◌≡◌, refl, [], ◌∷◌, arith, nat_key, length}
use packetyeeter.Common.Assoc.{Map, IsUnique}
use packetyeeter.MapCleaner.{remove_oldest_entry, enforce_max_size}
use packetyeeter.MapCleaner.Laws.{Evicts, remove_oldest_entry-Evicts, length-enforce_max_size}

abbrev seen : Map ℕ ℕ
seen = (1, 30) ∷ (2, 10) ∷ (3, 20) ∷ []

abbrev stamp : ℕ → ℕ → ℕ
stamp k v = v

seen-IsUnique : IsUnique seen
seen-IsUnique = omega arith

remove_oldest_entry_run : remove_oldest_entry stamp seen ≡ (1, 30) ∷ (3, 20) ∷ []
unfolding remove_oldest_entry
remove_oldest_entry_run = refl

remove_oldest_entry-Evicts_example : Evicts stamp seen (remove_oldest_entry stamp seen)
remove_oldest_entry-Evicts_example = remove_oldest_entry-Evicts stamp seen seen-IsUnique (λ e. cc)

length-enforce_max_size_example : length (enforce_max_size stamp 1 seen) ≡ 1
length-enforce_max_size_example = length-enforce_max_size stamp 1 seen seen-IsUnique

-- ===== src/MapCleaner/Select/Tests.antt =====
-- A selection among four entries, and evictions of several entries from a map of three.
use packetyeeter.Common.{ℕ, ◌≡◌, refl, List, [], ◌∷◌, some, nat_key, length, arith}
use packetyeeter.Common.Assoc.{Map, IsUnique}
use packetyeeter.MapCleaner.Select.{
  OldestEntry, partition, median_of_three, select_oldest, remove_oldest_n, enforce_max_size_batch,
}
use packetyeeter.MapCleaner.Select.Removed.{length-enforce_max_size_batch}
use packetyeeter.MapCleaner.Select.Selected.{IsSelected, select_oldest-IsSelected}

abbrev seen : Map ℕ ℕ
seen = (1, 30) ∷ (2, 10) ∷ (3, 20) ∷ []

abbrev stamp : ℕ → ℕ → ℕ
stamp k v = v

abbrev ages : List (OldestEntry ℕ)
ages =
    record { key = 1; age = 30 }
    ∷ record { key = 2; age = 10 }
    ∷ record { key = 3; age = 20 }
    ∷ record { key = 4; age = 10 }
    ∷ []

select_oldest-IsSelected_example : IsSelected 2 ages 0 4 (select_oldest ages 2)
select_oldest-IsSelected_example = select_oldest-IsSelected ages 2

remove_oldest_n_run : remove_oldest_n 100 stamp seen 2 ≡ some ((1, 30) ∷ [])
unfolding remove_oldest_n partition median_of_three
remove_oldest_n_run = refl

enforce_max_size_batch_run : enforce_max_size_batch 100 stamp seen 2 ≡ some ((1, 30) ∷ (3, 20) ∷ [])
unfolding enforce_max_size_batch partition median_of_three
enforce_max_size_batch_run = refl

seen-IsUnique : IsUnique seen
seen-IsUnique = omega arith

length-enforce_max_size_batch_example :
    (out : Map ℕ ℕ) × (enforce_max_size_batch 100 stamp seen 2 ≡ some out) × (length out ≡ 2)
length-enforce_max_size_batch_example =
    length-enforce_max_size_batch 100 stamp seen 2 seen-IsUnique (omega arith)

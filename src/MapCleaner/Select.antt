-- ===== src/MapCleaner/Select.antt =====
-- RemoveOldestN, selectOldest and EnforceMaxSizeBatch of pkg/utils/mapcleaner/cleaner.go. An index out of
-- range is `none`. The upper index of a range is held as the index after it, so it never falls below 0.
pub mod Partition
pub mod Split
pub mod Parted
pub mod Sorted
pub mod Selected
pub mod Removed
mod Tests
use packetyeeter.Common.{
  ℕ, zero, suc, ◌+◌, ◌-◌, ◌*◌, ◌/◌, ◌^◌, min, Bool, ◌&&◌, ◌||◌, Option, none, some, List, [], ◌∷◌,
  ◌++◌, if◌then◌else◌, ltb, leb, length, get_elem?, take, drop, ◌==◌, nat_key, Key,
}
use packetyeeter.Common.Assoc.{Map, delete}
use packetyeeter.Common.Panic.{◌>>=◌, store}
use packetyeeter.Common.Sort.{sort}

abbrev batch_evict_headroom : ℕ
batch_evict_headroom = 10

-- medianOfThree: each line is one of its conditional swaps.
pub median_of_three : ℕ → ℕ → ℕ → ℕ
median_of_three a b c =
    let a1 = if ltb b a then b else a in
    let b1 = if ltb b a then a else b in
    let b2 = if ltb c b1 then c else b1 in if ltb b2 a1 then a1 else b2

-- bits.Len: the number of bits that a number below 2 ^ rounds needs.
pub bit_length : ℕ → ℕ → ℕ
bit_length zero n = 0
bit_length (suc rounds) n = let rest = bit_length rounds (n / 2) in if n == 0 then 0 else suc rest

-- The age of an entry, which is an int64 that Sub clamps, counted from the least int64.
pub age_of : ℕ → ℕ → ℕ
age_of ref at = min (at + 2 ^ 63 - ref) (2 ^ 64 - 1)

pub record OldestEntry (K : Type 0) : Type 0 where
  pub key : K
  pub age : ℕ

module _ {K : Type 0} where
  -- e[i], e[j] = e[j], e[i]
  pub swap : List (OldestEntry K) → ℕ → ℕ → Option (List (OldestEntry K))
  swap e i j = do x ← get_elem? e i; y ← get_elem? e j; e' ← store e i y; store e' j x

  -- The loop that advances i, and the one that takes j back; `rounds` bounds the entries they pass.
  pub scan_up : ℕ → ℕ → List (OldestEntry K) → ℕ → Option ℕ
  scan_up zero pivot e i = none
  scan_up (suc rounds) pivot e i = do
    x ← get_elem? e i
    if ltb x.age pivot then scan_up rounds pivot e (suc i) else some i

  pub scan_down : ℕ → ℕ → List (OldestEntry K) → ℕ → Option ℕ
  scan_down rounds pivot e zero = none
  scan_down zero pivot e (suc j) = none
  scan_down (suc rounds) pivot e (suc j) = do
    x ← get_elem? e j
    if ltb pivot x.age then scan_down rounds pivot e j else some (suc j)

  -- The loop that partitions around the pivot: the entries, i, and the index after j.
  pub partition : ℕ → ℕ → List (OldestEntry K) → ℕ → ℕ → Option (List (OldestEntry K) × ℕ × ℕ)
  unfolding scan_up scan_down swap
  partition zero pivot e i j = if ltb i j then none else some (e, i, j)
  partition (suc rounds) pivot e i j =
      if ltb i j
      then (do
        i' ← scan_up (suc (length e)) pivot e i
        j' ← scan_down (suc (length e)) pivot e j
        if ltb i' j'
            then (do e' ← swap e i' (j' - 1); partition rounds pivot e' (suc i') (j' - 1))
            else some (e, i', j'))
      else some (e, i, j)

  abbrev pub younger : OldestEntry K → OldestEntry K → Bool
  younger x y = ltb x.age y.age

  -- slices.SortFunc(e[lo:hi+1], ...)
  pub sort_range : List (OldestEntry K) → ℕ → ℕ → List (OldestEntry K)
  unfolding sort
  sort_range e lo hi = take lo e ++ (sort younger (take (hi - lo) (drop lo e)) ++ drop hi e)

  -- The loop of selectOldest on e[lo:hi], where the budget falls by one in each round.
  pub select_rounds : ℕ → ℕ → List (OldestEntry K) → ℕ → ℕ → Option (List (OldestEntry K))
  unfolding sort_range
  select_rounds zero n e lo hi = some (if ltb (lo + 1) hi then sort_range e lo hi else e)
  select_rounds (suc budget) n e lo hi =
      if ltb (lo + 1) hi
      then (do
        first ← get_elem? e lo
        middle ← get_elem? e (lo + (hi - 1 - lo) / 2)
        last ← get_elem? e (hi - 1)
        (e', i, j) ←
            partition (suc (length e)) (median_of_three first.age middle.age last.age) e lo hi
        let rest = select_rounds budget n e' (if leb n j then lo else i) (if leb n j then j else hi)
        if ltb j n && leb n i then some e' else rest)
      else some e

  pub select_oldest : List (OldestEntry K) → ℕ → Option (List (OldestEntry K))
  unfolding select_rounds bit_length
  select_oldest e n =
      if n == 0 || leb (length e) n
      then some e
      else select_rounds (4 * bit_length 64 (length e)) n e 0 (length e)

module _ {K V : Type 0} ⦃key_eq : Key K⦄ (ref : ℕ) (stamp : K → V → ℕ) where
  -- The entries of the map with their ages.
  pub entries_of : Map K V → List (OldestEntry K)
  unfolding age_of
  entries_of [] = []
  entries_of ((key, value) ∷ rest) =
      record { key = key; age = age_of ref (stamp key value) } ∷ entries_of rest

  pub delete_each : List (OldestEntry K) → Map K V → Map K V
  delete_each [] m = m
  delete_each (e ∷ rest) m = delete_each rest (delete e.key m)

  -- RemoveOldestN, where `ref` is time.Now().
  pub remove_oldest_n : Map K V → ℕ → Option (Map K V)
  unfolding select_oldest entries_of delete_each
  remove_oldest_n m n =
      if n == 0 || length m == 0
      then some m
      else if leb (length m) n
      then some []
      else (do selected ← select_oldest (entries_of m) n; some (delete_each (take n selected) m))

  pub enforce_max_size_batch : Map K V → ℕ → Option (Map K V)
  unfolding remove_oldest_n
  enforce_max_size_batch m max_size =
      if max_size == 0 || leb (length m) max_size
      then some m
      else remove_oldest_n m (length m - max_size + max_size / batch_evict_headroom)

-- ===== src/Sustained/Resources.antt =====
-- boundedSet of pkg/analyzer/sustained/tracker.go. The linked list is a list from its back, which is the entry
-- seen longest ago, to its front; the map from a key to its element is the lookup in it.
use packetyeeter.Common.{
  ℕ, ◌+◌, Bool, true, false, Option, none, some, List, [], ◌∷◌, ◌++◌, if◌then◌else◌, ltb, leb,
  length, any, ◌==◌, nat_key, ◌&&◌,
}

pub record ResourceEntry : Type 0 where
  pub key : ℕ
  pub section : ℕ
  pub seen : ℕ

pub record BoundedSet : Type 0 where
  pub order : List ResourceEntry
  pub limit : ℕ

abbrev pub new_bounded_set : ℕ → BoundedSet
new_bounded_set limit = record { order = []; limit = limit }

abbrev pub has_key : ℕ → List ResourceEntry → Bool
has_key key order = any (λ e. e.key == key) order

-- MoveToFront of the key's entry, seen now.
unfoldable pub refresh : ℕ → ℕ → List ResourceEntry → List ResourceEntry
refresh key now [] = []
refresh key now (e ∷ order) =
    let rest = refresh key now order in
    if e.key == key then order ++ record e { seen = now } ∷ [] else e ∷ rest

-- The set, whether the key is new, and the section of the entry that was evicted.
pub record Observed : Type 0 where
  pub set : BoundedSet
  pub added : Bool
  pub evicted : Option ℕ

-- The full set drops its back.
abbrev pub make_space : List ResourceEntry → List ResourceEntry × Option ℕ
make_space [] = ([], none)
make_space (oldest ∷ order) = (order, some oldest.section)

abbrev pub is_full : BoundedSet → Bool
is_full s = ltb 0 s.limit && leb s.limit (length s.order)

abbrev pub push_front : ResourceEntry → List ResourceEntry × Option ℕ → ℕ → Observed
push_front e (order, evicted) limit = record {
  set = record { order = order ++ e ∷ []; limit = limit };
  added = true;
  evicted = evicted;
}

unfoldable pub observe : ℕ → ℕ → ℕ → BoundedSet → Observed
unfolding refresh
observe key section now s =
    if has_key key s.order
    then record {
      set = record s { order = refresh key now s.order };
      added = false;
      evicted = none;
    }
    else push_front (record { key = key; section = section; seen = now })
        (if is_full s then make_space s.order else (s.order, none)) s.limit

-- The loop of Prune with the cutoff `window` before `now`: what stays, and the sections of what was dropped.
unfoldable pub prune_order : ℕ → ℕ → List ResourceEntry → List ResourceEntry × List ℕ
prune_order window now [] = ([], [])
prune_order window now (oldest ∷ order) =
    let more = prune_order window now order in
    if ltb (oldest.seen + window) now
    then (more.0, oldest.section ∷ more.1)
    else (oldest ∷ order, [])

unfoldable pub prune : ℕ → ℕ → BoundedSet → BoundedSet × List ℕ
unfolding prune_order
prune window now s = let out = prune_order window now s.order in (record s { order = out.0 }, out.1)

-- ===== src/MapCleaner/Laws.antt =====
-- What eviction removes: the oldest entry, one a round, down to the cap.
use packetyeeter.Common.{
  ℕ, zero, suc, ◌+◌, ◌≤◌, ◌≡◌, refl, ◌≢◌, ◌⊎◌, inl, inr, Option, some, [], ◌∷◌, arith, ltb, length,
  All, keep, leb, Key, min, Bool-cases, ap, ◌∙◌, subst,
}
use packetyeeter.Common.Assoc.{
  Map, get, delete, Misses, IsUnique, IsUnique-delete, Misses-get, length-delete,
}
use packetyeeter.MapCleaner.{
  find_oldest, delete_found, remove_oldest_entry, remove_entries_older_than, enforce_rounds,
  enforce_max_size,
}

module _ {K V : Type 0} (stamp : K → V → ℕ) where
  abbrev pub NotBefore : ℕ → Map K V → Type 0
  NotBefore time m = All (λ p. time ≤ stamp p.0 p.1) m

  NotBefore-le : (a b : ℕ) (m : Map K V) → a ≤ b → NotBefore b m → NotBefore a m
  NotBefore-le a b [] le h = tt
  NotBefore-le a b (p ∷ m) le h = (omega arith, NotBefore-le a b m le h.1)

  module _ ⦃key_eq : Key K⦄ where
    -- With a candidate at hand the loop ends with one that is not after it, nor after any entry.
    abbrev Found : K → ℕ → Map K V → K → ℕ → Type 0
    Found key time m best at =
        (at ≤ time)
        × NotBefore at m
        × (((best ≡ key) × (at ≡ time)) ⊎ ((v : V) × (get best m ≡ some v) × (at ≡ stamp best v)))

    pub get-cons :
        (k best : K) (v w : V) (m : Map K V)
        → Misses k m
        → get best m ≡ some w
        → get best ((k, v) ∷ m) ≡ some w
    get-cons k best v w m miss h = ground (arith, key_eq.same_iff k best, Misses-get k m miss)

    pub pick_first :
        (k : K) (v : V) (m : Map K V) (best : K) (at : ℕ)
        → Misses k m
        → ((best ≡ k) × (at ≡ stamp k v)) ⊎ ((w : V) × (get best m ≡ some w) × (at ≡ stamp best w))
        → (w : V) × (get best ((k, v) ∷ m) ≡ some w) × (at ≡ stamp best w)
    pick_first k v m best at miss (inl (e, f)) =
        (v, ground (arith, key_eq.same_iff k best), ground arith)
    pick_first k v m best at miss (inr (w, e, f)) = (w, get-cons k best v w m miss e, f)

    find_oldest-Found :
        (key : K) (time : ℕ) (m : Map K V)
        → IsUnique m
        → (best : K) × (at : ℕ) × (find_oldest stamp (some (key, time)) m ≡ some (best, at))
          × Found key time m best at
    unfolding find_oldest
    find_oldest-Found key time [] u = (key, time, refl, (omega arith, tt, inl (refl, refl)))
    find_oldest-Found key time ((k, v) ∷ m) u = elim (Bool-cases (ltb (stamp k v) time)) [
      | inl earlier ↦
          let (best, at, ran, found) = find_oldest-Found k (stamp k v) m u.1 in
          (
            best,
            at,
            rw earlier ran,
            (ground arith, (found.0, found.1), inr (pick_first k v m best at u.0 found.2)),
          )
      | inr later ↦
          let (best, at, ran, found) = find_oldest-Found key time m u.1 in
          (
            best,
            at,
            rw later ran,
            (found.0, (ground arith, found.1), keep_old k v m best at u.0 found.2),
          )
    ]
      where
        keep_old :
            (k : K) (v : V) (m : Map K V) (best : K) (at : ℕ)
            → Misses k m
            → ((best ≡ key) × (at ≡ time)) ⊎ ((w : V) × (get best m ≡ some w) × (at ≡ stamp best w))
            → ((best ≡ key) × (at ≡ time))
              ⊎ ((w : V) × (get best ((k, v) ∷ m) ≡ some w) × (at ≡ stamp best w))
        keep_old k v m best at miss (inl e) = inl e
        keep_old k v m best at miss (inr (w, e, f)) = inr (w, get-cons k best v w m miss e, f)

    -- The key that RemoveOldestEntry deletes is in the map, and no entry is older than its entry.
    abbrev pub Evicts : Map K V → Map K V → Type 0
    Evicts m out =
        (best : K) × (v : V) × (get best m ≡ some v)
        × NotBefore (stamp best v) m
        × (out ≡ delete best m)

    -- From a map that is not empty, RemoveOldestEntry deletes one entry of the map, and no entry of the
    -- map is older than it.
    pub remove_oldest_entry-Evicts :
        (m : Map K V) → IsUnique m → m ≢ [] → Evicts m (remove_oldest_entry stamp m)
    unfolding remove_oldest_entry
    remove_oldest_entry-Evicts [] u h = absurd (h refl)
    remove_oldest_entry-Evicts ((k, v) ∷ m) u h =
        let (best, at, ran, found) = find_oldest-Found k (stamp k v) m u.1 in
        let (w, here, same) = pick_first k v m best at u.0 found.2 in
        (
          best,
          w,
          here,
          (omega arith, subst (λ t. NotBefore t m) same found.1),
          ap (λ (o : Option (K × ℕ)). delete_found stamp o ((k, v) ∷ m)) ran,
        )

    length-remove_oldest_entry :
        (m : Map K V) → IsUnique m → m ≢ [] → suc (length (remove_oldest_entry stamp m)) ≡ length m
    length-remove_oldest_entry m u h =
        let (best, v, here, all, out) = remove_oldest_entry-Evicts m u h in
        rw out (length-delete best v m u here)

    IsUnique-remove_oldest_entry :
        (m : Map K V) → IsUnique m → m ≢ [] → IsUnique (remove_oldest_entry stamp m)
    IsUnique-remove_oldest_entry m u h =
        let (best, v, here, all, out) = remove_oldest_entry-Evicts m u h in
        rw out (IsUnique-delete best m u)

    length-enforce_rounds :
        (rounds max_size : ℕ) (m : Map K V)
        → IsUnique m
        → length m ≤ rounds
        → length (enforce_rounds stamp rounds max_size m) ≡ min (length m) max_size
    unfolding enforce_rounds
    length-enforce_rounds zero max_size m u enough = omega arith
    length-enforce_rounds (suc rounds) max_size m u enough =
        elim (Bool-cases (ltb max_size (length m))) [
          | inl over ↦
              let more : m ≢ [] = λ e. absurd (ground arith) in
              let one_less : suc (length (remove_oldest_entry stamp m)) ≡ length m =
                length-remove_oldest_entry m u more in
              rw over (
                length-enforce_rounds rounds max_size (remove_oldest_entry stamp m)
                  (IsUnique-remove_oldest_entry m u more) (omega arith)
                ∙ ground (arith))
          | inr within ↦ rw within (ground arith)
        ]

    -- EnforceMaxSize leaves min(size, cap) entries: it evicts down to the cap and no further.
    pub length-enforce_max_size :
        (max_size : ℕ) (m : Map K V)
        → IsUnique m
        → length (enforce_max_size stamp max_size m) ≡ min (length m) max_size
    unfolding enforce_max_size
    length-enforce_max_size max_size m u =
        length-enforce_rounds (length m) max_size m u (omega arith)

  -- RemoveEntriesOlderThan keeps exactly the entries that are not before the cutoff, in their order, and
  -- returns how many it removed.
  pub remove_entries_older_than_lem :
      (cutoff : ℕ) (m : Map K V)
      → ((remove_entries_older_than stamp cutoff m).0
          ≡ keep (λ (p : K × V). leb cutoff (stamp p.0 p.1)) m)
        × ((remove_entries_older_than stamp cutoff m).1
              + length (remove_entries_older_than stamp cutoff m).0
            ≡ length m)
  unfolding remove_entries_older_than
  remove_entries_older_than_lem cutoff [] = (refl, refl)
  remove_entries_older_than_lem cutoff ((k, v) ∷ m) =
      ground (arith, remove_entries_older_than_lem cutoff m)

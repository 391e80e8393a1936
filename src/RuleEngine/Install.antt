-- ===== src/RuleEngine/Install.antt =====
-- install of pkg/collector/rules.go, which makes a rule set the active one.
use packetyeeter.Common.{
  ℕ, String, true, false, Option, none, some, List, [], ◌∷◌, ◌++◌, map, string_key,
}
use packetyeeter.Common.Assoc.{Map, get, put}
use packetyeeter.Common.Result.{Result, ok, err, ◌>>=◌, ◌>>◌}
use packetyeeter.ScrubRules.Types.{Prefix, Rule}
use packetyeeter.ScrubRules.Flatten.{CapacityError, flatten, split_families, check_families}
use packetyeeter.RuleEngine.Kernel.{RuleMaps}
use packetyeeter.RuleEngine.State.{
  Engine, InstalledRule, RetiredSlot, RuleError, capacity, no_free_slots, write_failed,
  reset_failed, swap_failed, restore_failed, body_eq, release_retired, slot_entries,
  installed_slots, commit,
}

-- The last element and what stands before it.
unfoldable pub pop_last : List ℕ → Option (List ℕ × ℕ)
pop_last [] = none
pop_last (x ∷ xs) = elim (pop_last xs) [
  | none ↦ some ([], x)
  | some (front, last) ↦ some (x ∷ front, last)
]

-- The rule is installed with the same body.
unfoldable pub kept_slot : Option InstalledRule → Rule → Option ℕ
kept_slot none r = none
kept_slot (some cur) r = elim (body_eq cur.body r.body) [ true ↦ some cur.slot | false ↦ none ]

-- The checks of the capacity, with the entries of the two families.
unfoldable pub plan :
    Map String Rule → Result CapacityError (Map Prefix (List Rule) × Map Prefix (List Rule))
plan next = do
  let split = split_families next
  check_families split.0 split.1
  entries4 ← flatten split.0
  entries6 ← flatten split.1
  ok (entries4, entries6)

module _ (m : RuleMaps) where
  open m use {K, put_rule_body, reset_rule_bucket, swap_rule_trie}

  -- The variables of the loop that gives each rule its slot.
  pub record Assigning : Type 0 where
    pub kernel : K
    pub free : List ℕ
    pub fresh : List ℕ
    pub slots : Map String ℕ

  abbrev pub after_reset : String → ℕ → Assigning → K × Option String → Assigning × Option RuleError
  after_reset id slot a (k, some e) = (record a { kernel = k }, some (reset_failed id e))
  after_reset id slot a (k, none) = (record a { kernel = k; slots = put id slot a.slots }, none)

  abbrev pub after_write : String → ℕ → Assigning → K × Option String → Assigning × Option RuleError
  after_write id slot a (k, some e) = (record a { kernel = k }, some (write_failed id e))
  after_write id slot a (k, none) =
      after_reset id slot (record a { kernel = k }) (reset_rule_bucket slot k)

  abbrev pub take_slot :
      String → Rule → Assigning → Option (List ℕ × ℕ) → Assigning × Option RuleError
  take_slot id r a none = (a, some no_free_slots)
  take_slot id r a (some (rest, slot)) =
      after_write id slot (record a { free = rest; fresh = a.fresh ++ slot ∷ [] })
        (put_rule_body slot r.body a.kernel)

  -- One round of the loop.
  abbrev pub assign_one : String → Rule → Option ℕ → Assigning → Assigning × Option RuleError
  assign_one id r (some slot) a = (record a { slots = put id slot a.slots }, none)
  assign_one id r none a = take_slot id r a (pop_last a.free)

  unfoldable pub assign :
      Map String InstalledRule → Map String Rule → Assigning → Assigning × Option RuleError
  unfolding pop_last kept_slot
  assign installed [] a = (a, none)
  assign installed ((id, r) ∷ rest) a =
      let (a', failed) = assign_one id r (kept_slot (get id installed) r) a in
      elim failed [ some e ↦ (a', some e) | none ↦ assign installed rest a' ]

  -- The closure `rollback`, with the kernel and the error that the caller returns.
  abbrev pub rolled_back : Engine → Assigning → K → RuleError → Engine × K × Option RuleError
  rolled_back e a k error = (record e { free = a.free ++ a.fresh }, k, some error)

  -- The slots that the live IPv4 trie may still point at are retired.
  abbrev pub quarantine : ℕ → List ℕ → List RetiredSlot
  quarantine now fresh = map (λ slot. record { slot = slot; at = now }) fresh

  abbrev pub after_restore :
      ℕ → Engine → Assigning → String → K × Option String → Engine × K × Option RuleError
  after_restore now e a error (k, none) = rolled_back e a k (swap_failed error)
  after_restore now e a error (k, some restore_error) = (
    record e { free = a.free; retired = e.retired ++ quarantine now a.fresh },
    k,
    some (restore_failed error),
  )

  -- Puts the previous IPv4 rules back after the IPv6 swap has failed.
  abbrev pub restore :
      Engine → K → Result CapacityError (Map Prefix (List Rule)) → K × Option String
  restore e k (err c) = (k, some "previous rules")
  restore e k (ok prev) = swap_rule_trie false (slot_entries prev (installed_slots e.installed)) k

  abbrev pub after_swap6 :
      Map String Rule → ℕ → Engine → Assigning → K × Option String → Engine × K × Option RuleError
  after_swap6 next now e a (k, none) =
      (commit next a.slots now (record e { free = a.free }), k, none)
  after_swap6 next now e a (k, some error) =
      after_restore now e a error (restore e k (flatten (split_families e.rules).0))

  abbrev pub after_swap4 :
      Map String Rule
      → Map Prefix (List Rule)
      → ℕ
      → Engine
      → Assigning
      → K × Option String
      → Engine × K × Option RuleError
  after_swap4 next entries6 now e a (k, some error) = rolled_back e a k (swap_failed error)
  after_swap4 next entries6 now e a (k, none) =
      after_swap6 next now e a (swap_rule_trie true (slot_entries entries6 a.slots) k)

  -- From the assigned slots to the end.
  unfoldable pub after_assign :
      Map String Rule
      → Map Prefix (List Rule)
      → Map Prefix (List Rule)
      → ℕ
      → Engine
      → Assigning × Option RuleError
      → Engine × K × Option RuleError
  after_assign next entries4 entries6 now e (a, some error) = rolled_back e a a.kernel error
  after_assign next entries4 entries6 now e (a, none) =
      after_swap4 next entries6 now e a
        (swap_rule_trie false (slot_entries entries4 a.slots) a.kernel)

  abbrev pub install_planned :
      Map String Rule
      → ℕ
      → Engine
      → K
      → Result CapacityError (Map Prefix (List Rule) × Map Prefix (List Rule))
      → Engine × K × Option RuleError
  install_planned next now e k (err c) = (e, k, some (capacity c))
  install_planned next now e k (ok (entries4, entries6)) =
      after_assign next entries4 entries6 now e
        (assign e.installed next (record { kernel = k; free = e.free; fresh = []; slots = [] }))

  unfoldable pub install : Map String Rule → ℕ → Engine → K → Engine × K × Option RuleError
  unfolding plan after_assign assign
  install next now e k =
      let released = release_retired now e in install_planned next now released k (plan next)

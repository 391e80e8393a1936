-- ===== src/RuleEngine/Slots.antt =====
-- Who owns the kernel slots of pkg/collector/rules.go: the free list, the installed rules and the
-- retired slots. The children follow the slots through assign, commit and install.
use packetyeeter.Common.{
  ℕ, zero, suc, ◌+◌, ◌≡◌, refl, String, List, [], ◌∷◌, ◌++◌, arith, if◌then◌else◌, ltb, count,
  count-append, string_key,
}
use packetyeeter.Common.Assoc.{Map}
use packetyeeter.ScrubRules.Types.{rule_slots}
use packetyeeter.RuleEngine.State.{
  Engine, InstalledRule, RetiredSlot, slots_below, release, release_retired,
}

abbrev pub held : Map String InstalledRule → List ℕ
held [] = []
held ((id, ir) ∷ rest) = ir.slot ∷ held rest

abbrev pub waiting : List RetiredSlot → List ℕ
waiting [] = []
waiting (r ∷ rest) = r.slot ∷ waiting rest

abbrev pub owners : ℕ → Engine → ℕ
owners s e = count s e.free + count s (held e.installed) + count s (waiting e.retired)

-- Each of the slots below `rule_slots` has one owner, and there is no other slot.
abbrev pub IsPartition : Engine → Type 0
IsPartition e = (s : ℕ) → owners s e ≡ (if ltb s rule_slots then 1 else 0)

pub waiting-append : (xs ys : List RetiredSlot) → waiting (xs ++ ys) ≡ waiting xs ++ waiting ys
waiting-append [] ys = refl
waiting-append (x ∷ xs) ys = rw (waiting-append xs ys)

release-count :
    (s now : ℕ) (retired : List RetiredSlot) (free : List ℕ)
    → count s (release now retired free).0 + count s (waiting (release now retired free).1)
      ≡ count s free + count s (waiting retired)
unfolding release
release-count s now [] free = refl
release-count s now (r ∷ rest) free = ground (
  arith,
  release-count s now rest (free ++ r.slot ∷ []),
  release-count s now rest free,
  count-append s free (r.slot ∷ []),
)

pub release_retired-owners :
    (s now : ℕ) (e : Engine) → owners s (release_retired now e) ≡ owners s e
unfolding release_retired
release_retired-owners s now e = omega (arith, release-count s now e.retired e.free)

pub slots_below-count : (s n : ℕ) → count s (slots_below n) ≡ (if ltb s n then 1 else 0)
unfolding slots_below
slots_below-count s zero = ground arith
slots_below-count s (suc n) = ground (arith, slots_below-count s n)

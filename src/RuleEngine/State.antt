-- ===== src/RuleEngine/State.antt =====
-- The state of `ruleEngine` and the operations on it that involve no kernel map.
use packetyeeter.Common.{
  ℕ, zero, suc, ◌+◌, String, Bool, true, not, Option, none, some, List, [], ◌∷◌, ◌++◌, map,
  if◌then◌else◌, leb, length, ◌==◌, nat_key, string_key, discrete_beq,
}
use native.Mathlib.Decide.{ℕ_discrete}
use packetyeeter.Common.Assoc.{Map, get}
use packetyeeter.ScrubRules.Types.{Prefix, Rule, ScrubRule, rule_slots}
use packetyeeter.ScrubRules.Parse.{ParseError}
use packetyeeter.ScrubRules.Flatten.{CapacityError, split_families}
use packetyeeter.RuleEngine.Kernel.{Trie}

abbrev pub slot_grace : ℕ
slot_grace = 1_000_000_000

pub record InstalledRule : Type 0 where
  pub slot : ℕ
  pub body : ScrubRule

pub record RetiredSlot : Type 0 where
  pub slot : ℕ
  pub at : ℕ

pub record Engine : Type 0 where
  pub rules : Map String Rule
  pub installed : Map String InstalledRule
  pub free : List ℕ
  pub retired : List RetiredSlot
  pub active_v4 : ℕ
  pub active_v6 : ℕ

pub data RuleError : Type 0 where
  bad_rule : ParseError → RuleError
  duplicate_rule : String → RuleError
  capacity : CapacityError → RuleError
  no_free_slots : RuleError
  write_failed reset_failed : String → String → RuleError
  swap_failed : String → RuleError
  restore_failed : String → RuleError

-- Go's `==` on rule bodies.
pub ScrubRule-discrete : Discrete ScrubRule
ScrubRule-discrete = hlevel ℕ_discrete

abbrev pub body_eq : ScrubRule → ScrubRule → Bool
body_eq = discrete_beq ScrubRule-discrete

-- The slots n-1 down to 0, so that slot 0 is handed out first.
unfoldable pub slots_below : ℕ → List ℕ
slots_below zero = []
slots_below (suc n) = n ∷ slots_below n

unfoldable pub new_rule_engine : Engine
new_rule_engine = record {
  rules = [];
  installed = [];
  free = slots_below rule_slots;
  retired = [];
  active_v4 = 0;
  active_v6 = 0;
}

-- The loop of releaseRetired: what is free, and what is kept.
unfoldable pub release : ℕ → List RetiredSlot → List ℕ → List ℕ × List RetiredSlot
release now [] free = (free, [])
release now (r ∷ rest) free =
    let out = release now rest (free ++ r.slot ∷ []) in
    let held = release now rest free in
    if leb (r.at + slot_grace) now then out else (held.0, r ∷ held.1)

unfoldable pub release_retired : ℕ → Engine → Engine
unfolding release
release_retired now e =
    let out = release now e.retired e.free in record e { free = out.0; retired = out.1 }

-- A missing key reads as zero.
abbrev pub slot_of : String → Map String ℕ → ℕ
slot_of id slots = elim (get id slots) [ none ↦ 0 | some slot ↦ slot ]

-- slotEntries
unfoldable pub slot_entries : Map Prefix (List Rule) → Map String ℕ → Trie
slot_entries [] slots = []
slot_entries ((p, rules) ∷ rest) slots =
    (p, map (λ (r : Rule). slot_of r.id slots) rules) ∷ slot_entries rest slots

unfoldable pub installed_slots : Map String InstalledRule → Map String ℕ
installed_slots [] = []
installed_slots ((id, ir) ∷ rest) = (id, ir.slot) ∷ installed_slots rest

-- The map that commit makes of the next rules and their slots.
unfoldable pub install_map : Map String Rule → Map String ℕ → Map String InstalledRule
install_map [] slots = []
install_map ((id, r) ∷ rest) slots =
    (id, record { slot = slot_of id slots; body = r.body }) ∷ install_map rest slots

-- The old slots that the new map no longer holds.
abbrev pub superseded : Option InstalledRule → InstalledRule → Bool
superseded none cur = true
superseded (some n) cur = not (n.slot == cur.slot)

unfoldable pub retire : ℕ → Map String InstalledRule → Map String InstalledRule → List RetiredSlot
retire now installed [] = []
retire now installed ((id, cur) ∷ rest) =
    let more = retire now installed rest in
    if superseded (get id installed) cur then record { slot = cur.slot; at = now } ∷ more else more

unfoldable pub commit : Map String Rule → Map String ℕ → ℕ → Engine → Engine
unfolding install_map retire split_families
commit next slots now e =
    let installed = install_map next slots in
    let split = split_families next in
    record e {
      installed = installed;
      rules = next;
      retired = e.retired ++ retire now installed e.installed;
      active_v4 = length split.0;
      active_v6 = length split.1;
    }

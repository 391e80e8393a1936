-- ===== src/RuleEngine/Installed.antt =====
-- The invariant of the rule engine, and what the map of installed rules holds.
use packetyeeter.Common.{
  ℕ, ◌+◌, ◌≤◌, ◌≡◌, refl, String, not, Option, none, some, List, [], ◌∷◌, arith, count, one_if,
  string_key, eq_iff, All, ◌∙◌, nat_beq_iff,
}
use packetyeeter.Common.Assoc.{Map, get, IsUnique, Misses}
use packetyeeter.ScrubRules.Types.{Rule, ScrubRule, rule_slots}
use packetyeeter.RuleEngine.Kernel.{RuleMaps}
use packetyeeter.RuleEngine.State.{
  Engine, InstalledRule, new_rule_engine, release_retired, slot_of, install_map, superseded,
}
use packetyeeter.RuleEngine.Install.{Assigning, kept_slot, assign}
use packetyeeter.RuleEngine.Slots.{IsPartition, release_retired-owners, slots_below-count}
use packetyeeter.RuleEngine.Assigned.{Placed, assign-owned, assign-Placed}
use packetyeeter.RuleEngine.Handover.{keeps, Entry}

abbrev pub installed_bodies : Map String InstalledRule → Map String ScrubRule
installed_bodies [] = []
installed_bodies ((id, ir) ∷ rest) = (id, ir.body) ∷ installed_bodies rest

abbrev pub rule_bodies : Map String Rule → Map String ScrubRule
rule_bodies [] = []
rule_bodies ((id, r) ∷ rest) = (id, r.body) ∷ rule_bodies rest

-- Every slot has exactly one owner, the maps have no double keys, and the installed bodies are those of
-- the active rules.
pub record Inv (e : Engine) : Type 0 where
  pub partition : IsPartition e
  pub unique_rules : IsUnique e.rules
  pub unique_installed : IsUnique e.installed
  pub tracks : installed_bodies e.installed ≡ rule_bodies e.rules

pub new_rule_engine-Inv : Inv new_rule_engine
unfolding new_rule_engine
new_rule_engine-Inv = record {
  partition = λ s. omega (arith, slots_below-count s rule_slots);
  unique_rules = tt;
  unique_installed = tt;
  tracks = refl;
}

pub release_retired-Inv : (now : ℕ) (e : Engine) → Inv e → Inv (release_retired now e)
release_retired-Inv now e v = record {
  partition = λ s. release_retired-owners s now e ∙ v.partition s;
  unique_rules = unfold release_retired in v.unique_rules;
  unique_installed = unfold release_retired in v.unique_installed;
  tracks = unfold release_retired in v.tracks;
}

pub get-install_map :
    (id : String) (next : Map String Rule) (slots : Map String ℕ)
    → get id (install_map next slots) ≡ elim (get id next) [
      | none ↦ none
      | some r ↦ some (record { slot = slot_of id slots; body = r.body })
    ]
unfolding install_map
get-install_map id [] slots = refl
get-install_map id ((j, r) ∷ rest) slots =
    ground (arith, get-install_map id rest slots, eq_iff j id)

pub install_map-bodies :
    (next : Map String Rule) (slots : Map String ℕ)
    → installed_bodies (install_map next slots) ≡ rule_bodies next
unfolding install_map
install_map-bodies [] slots = refl
install_map-bodies ((j, r) ∷ rest) slots = rw (install_map-bodies rest slots)

pub Misses-install_map :
    (id : String) (next : Map String Rule) (slots : Map String ℕ)
    → Misses id next
    → Misses id (install_map next slots)
unfolding install_map
Misses-install_map id [] slots h = tt
Misses-install_map id ((j, r) ∷ rest) slots h = (h.0, Misses-install_map id rest slots h.1)

pub IsUnique-install_map :
    (next : Map String Rule) (slots : Map String ℕ)
    → IsUnique next
    → IsUnique (install_map next slots)
unfolding install_map
IsUnique-install_map [] slots h = tt
IsUnique-install_map ((j, r) ∷ rest) slots h =
    (Misses-install_map j rest slots h.0, IsUnique-install_map rest slots h.1)

-- With a fresh slot that no installed rule holds, a slot is superseded exactly when it is not kept.
pub superseded-not-keeps :
    (id : String) (cur : InstalledRule) (o : Option Rule) (at : ℕ) (fresh : List ℕ)
    → count at fresh + one_if at cur.slot ≤ 1
    → ((r : Rule) → o ≡ some r → Placed (kept_slot (some cur) r) at fresh)
    → superseded (elim o [ none ↦ none | some r ↦ some (record { slot = at; body = r.body }) ]) cur
      ≡ not (keeps o cur)
unfolding kept_slot
superseded-not-keeps id cur none at fresh free placed = refl
superseded-not-keeps id cur (some r) at fresh free placed = ground (arith, placed r refl)

-- The premise of the handover for every old entry, after a successful assignment.
pub superseded-All :
    (m : RuleMaps) (e : Engine) (next : Map String Rule) (k : m.K)
    → Inv e
    → IsUnique next
    → (assign m e.installed next (record { kernel = k; free = e.free; fresh = []; slots = [] })).1
      ≡ none
    → (old : Map String InstalledRule) → All (Entry e.installed) old
    → All
        (λ p.
          superseded
            (get p.0 (
              install_map next
                (assign m e.installed next
                  (record { kernel = k; free = e.free; fresh = []; slots = [] })).0.slots))
            p.1
          ≡ not (keeps (get p.0 next) p.1))
        old
superseded-All m e next k v u h [] entries = tt
superseded-All m e next k v u h ((id, cur) ∷ rest) ((found, holds), entries) = (
  rw (get-install_map id next out.slots) (
      superseded-not-keeps id cur (get id next) at out.fresh
        (ground (
          arith,
          v.partition at,
          assign-owned m e.installed at next start,
          holds,
          nat_beq_iff at cur.slot,
        ))
        (λ r r_next. rw found at (assign-Placed m e.installed id r next start h u r_next))),
  superseded-All m e next k v u h rest entries,
)
  where
    start : Assigning m
    start = record { kernel = k; free = e.free; fresh = []; slots = [] }

    out : Assigning m
    out = (assign m e.installed next start).0

    at : ℕ
    at = slot_of id out.slots

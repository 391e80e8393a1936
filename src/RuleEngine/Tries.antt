-- ===== src/RuleEngine/Tries.antt =====
-- The live tries are those of the installed rules.
use packetyeeter.Common.{
  ℕ, ◌≡◌, refl, String, Bool, true, false, Option, none, some, List, [], ◌∷◌, ◌++◌, map, arith,
  string_key, eq_iff, ◌∙◌, ap, Option-cases, inl, inr, bool_key,
}
use packetyeeter.Common.Assoc.{Map, get}
use packetyeeter.Common.Result.{ok, >>=-ok}
use packetyeeter.ScrubRules.Types.{Prefix, Rule}
use packetyeeter.ScrubRules.Flatten.{flatten, split_families, check_families}
use packetyeeter.RuleEngine.Kernel.{RuleMaps, Trie}
use packetyeeter.RuleEngine.State.{
  Engine, InstalledRule, slot_of, slot_entries, installed_slots, install_map,
}
use packetyeeter.RuleEngine.Install.{
  Assigning, kept_slot, assign, assign_one, take_slot, after_write, after_reset, pop_last, plan,
}

-- The live trie of one family is that of its rules, at the slots where they are installed.
abbrev pub IsTrieOf : List Rule → Map String InstalledRule → Trie → Type 0
IsTrieOf rules installed trie =
    (entries : Map Prefix (List Rule)) × (flatten rules ≡ ok entries)
    × (trie ≡ slot_entries entries (installed_slots installed))

-- The live tries are those of the active rules.
pub record Synced (m : RuleMaps) (e : Engine) (k : m.K) : Type 0 where
  pub v4 : IsTrieOf (split_families e.rules).0 e.installed (m.live false k)
  pub v6 : IsTrieOf (split_families e.rules).1 e.installed (m.live true k)

module _ (m : RuleMaps) (fam : Bool) where
  pub live-after_reset :
      (id : String) (slot : ℕ) (a : Assigning m) (p : m.K × Option String)
      → m.live fam (after_reset m id slot a p).0.kernel ≡ m.live fam p.0
  live-after_reset id slot a (k, none) = refl
  live-after_reset id slot a (k, some e) = refl

  pub live-after_write :
      (id : String) (slot : ℕ) (a : Assigning m) (p : m.K × Option String)
      → m.live fam (after_write m id slot a p).0.kernel ≡ m.live fam p.0
  live-after_write id slot a (k, none) =
      live-after_reset id slot (record a { kernel = k }) (m.reset_rule_bucket slot k)
      ∙ m.live-reset fam slot k
  live-after_write id slot a (k, some e) = refl

  pub live-take_slot :
      (id : String) (r : Rule) (a : Assigning m) (o : Option (List ℕ × ℕ))
      → m.live fam (take_slot m id r a o).0.kernel ≡ m.live fam a.kernel
  live-take_slot id r a none = refl
  live-take_slot id r a (some (rest, slot)) =
      live-after_write id slot (record a { free = rest; fresh = a.fresh ++ slot ∷ [] })
        (m.put_rule_body slot r.body a.kernel)
      ∙ m.live-put fam slot r.body a.kernel

  pub live-assign_one :
      (id : String) (r : Rule) (kept : Option ℕ) (a : Assigning m)
      → m.live fam (assign_one m id r kept a).0.kernel ≡ m.live fam a.kernel
  live-assign_one id r (some slot) a = refl
  live-assign_one id r none a = live-take_slot id r a (pop_last a.free)

  pub live-assign :
      (installed : Map String InstalledRule) (next : Map String Rule) (a : Assigning m)
      → m.live fam (assign m installed next a).0.kernel ≡ m.live fam a.kernel
  unfolding assign
  live-assign installed [] a = refl
  live-assign installed ((id, r) ∷ rest) a =
      elim (Option-cases (assign_one m id r (kept_slot (get id installed) r) a).1) [
        | inl e ↦
            rw (e, assign)
              (live-assign installed rest _
                ∙ live-assign_one id r (kept_slot (get id installed) r) a)
        | inr (x, e) ↦ rw (e, assign) (live-assign_one id r (kept_slot (get id installed) r) a)
      ]

pub slot_entries-ext :
    (s t : Map String ℕ)
    → ((id : String) → slot_of id s ≡ slot_of id t)
    → (entries : Map Prefix (List Rule)) → slot_entries entries s ≡ slot_entries entries t
unfolding slot_entries
slot_entries-ext s t h [] = refl
slot_entries-ext s t h ((p, rules) ∷ rest) =
    rw (slot_entries-ext s t h rest)
      (ap (λ (x : List ℕ). (p, x) ∷ slot_entries rest t) (mapped rules))
  where
    mapped :
        (rs : List Rule)
        → map (λ (r : Rule). slot_of r.id s) rs ≡ map (λ (r : Rule). slot_of r.id t) rs
    mapped [] = refl
    mapped (r ∷ rs) = rw (h r.id, mapped rs)

pub slot_of-installed :
    (id : String) (next : Map String Rule) (slots : Map String ℕ)
    → (get id next ≡ none → get id slots ≡ none)
    → slot_of id (installed_slots (install_map next slots)) ≡ slot_of id slots
unfolding installed_slots install_map
slot_of-installed id [] slots h = ground (arith, h refl)
slot_of-installed id ((j, r) ∷ rest) slots h =
    ground (arith, eq_iff j id, slot_of-installed id rest slots)

pub plan-ok :
    (next : Map String Rule) (entries4 entries6 : Map Prefix (List Rule))
    → plan next ≡ ok (entries4, entries6)
    → (flatten (split_families next).0 ≡ ok entries4)
      × (flatten (split_families next).1 ≡ ok entries6)
unfolding plan
plan-ok next entries4 entries6 h =
    let (x, fits, h1) =
      >>=-ok (check_families (split_families next).0 (split_families next).1) _ h in
    let (a, flat4, h2) = >>=-ok (flatten (split_families next).0) _ h1 in
    let (b, flat6, h3) = >>=-ok (flatten (split_families next).1) _ h2 in (cc, cc)

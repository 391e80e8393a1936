-- ===== src/RuleEngine/Assigned.antt =====
-- The loop of install that gives each rule a slot.
use packetyeeter.Common.{
  ℕ, ◌+◌, ◌≤◌, ◌≡◌, refl, String, Option, none, some, List, [], ◌∷◌, ◌++◌, arith, count, one_if,
  count-append, string_key, eq_iff, Bool-cases, inl, inr, ◌⊎◌, Option-cases, ◌==◌, beq-false,
  beq_self, ◌∙◌, ap, subst₂,
}
use packetyeeter.Common.Assoc.{Map, get, put, IsUnique, Misses, get-put}
use packetyeeter.ScrubRules.Types.{Rule}
use packetyeeter.RuleEngine.Kernel.{RuleMaps}
use packetyeeter.RuleEngine.State.{InstalledRule, RuleError, slot_of, install_map}
use packetyeeter.RuleEngine.Install.{
  Assigning, pop_last, kept_slot, assign, assign_one, take_slot, after_write, after_reset,
}
use packetyeeter.RuleEngine.Slots.{held}

pop_last-none : (xs : List ℕ) → pop_last xs ≡ none → xs ≡ []
unfolding pop_last
pop_last-none [] h = refl
pop_last-none (y ∷ ys) h = ground (arith)

pop_last-count :
    (s : ℕ) (xs front : List ℕ) (x : ℕ)
    → pop_last xs ≡ some (front, x)
    → count s xs ≡ count s front + one_if s x
unfolding pop_last
pop_last-count s [] front x h = cc
pop_last-count s (y ∷ ys) front x h = elim (Option-cases (pop_last ys)) [
  | inl e ↦ ground (arith, pop_last-none ys)
  | inr ((f, l), e) ↦ ground (arith, pop_last-count s ys f l)
]

-- Where a rule ends up: at its old slot if its body is unchanged, else at a fresh one.
abbrev pub Placed : Option ℕ → ℕ → List ℕ → Type 0
Placed (some slot) at fresh = at ≡ slot
Placed none at fresh = 1 ≤ count at fresh

-- The slots recorded for the rules of `next`: the kept ones, and all the fresh ones.
abbrev pub kept_more : Option ℕ → List ℕ → List ℕ
kept_more none more = more
kept_more (some slot) more = slot ∷ more

abbrev pub kept_slots : Map String InstalledRule → Map String Rule → List ℕ
kept_slots olds [] = []
kept_slots olds ((id, r) ∷ rest) = kept_more (kept_slot (get id olds) r) (kept_slots olds rest)

module _ (m : RuleMaps) where
  -- A round that starts to use a slot leaves both lists of slots alone, and records the slot if it
  -- succeeds.
  abbrev Uses : String → ℕ → Assigning m → Assigning m → Option RuleError → Type 0
  Uses id slot a b f =
      (b.free ≡ a.free) × (b.fresh ≡ a.fresh) × (f ≡ none → b.slots ≡ put id slot a.slots)

  after_reset-Uses :
      (id : String) (slot : ℕ) (a : Assigning m) (p : m.K × Option String)
      → Uses id slot a (after_reset m id slot a p).0 (after_reset m id slot a p).1
  after_reset-Uses id slot a (k, some e) = (refl, refl, λ h. cc)
  after_reset-Uses id slot a (k, none) = (refl, refl, λ h. refl)

  after_write-Uses :
      (id : String) (slot : ℕ) (a : Assigning m) (p : m.K × Option String)
      → Uses id slot a (after_write m id slot a p).0 (after_write m id slot a p).1
  after_write-Uses id slot a (k, some e) = (refl, refl, λ h. cc)
  after_write-Uses id slot a (k, none) =
      after_reset-Uses id slot (record a { kernel = k }) (m.reset_rule_bucket slot k)

  -- What one round does: no slot is lost, and a successful round records a slot that is the rule's old
  -- one or comes from the free list.
  pub record Round (kept : Option ℕ) (id : String) (a b : Assigning m) (f : Option RuleError)
      : Type 0 where
    pub owned : (s : ℕ) → count s b.free + count s b.fresh ≡ count s a.free + count s a.fresh
    pub recorded :
        f ≡ none
        → (slot : ℕ) × (b.slots ≡ put id slot a.slots)
          × (((kept ≡ some slot) × (b.fresh ≡ a.fresh))
              ⊎ ((kept ≡ none) × (b.fresh ≡ a.fresh ++ slot ∷ [])))

  take_slot-Round :
      (id : String) (r : Rule) (a : Assigning m) (o : Option (List ℕ × ℕ))
      → pop_last a.free ≡ o
      → Round none id a (take_slot m id r a o).0 (take_slot m id r a o).1
  take_slot-Round id r a none e = record { owned = λ s. refl; recorded = λ h. cc }
  take_slot-Round id r a (some (rest, slot)) e =
      let taken : Assigning m = record a { free = rest; fresh = a.fresh ++ slot ∷ [] } in
      let u = after_write-Uses id slot taken (m.put_rule_body slot r.body a.kernel) in
      record {
        owned = λ s.
            rw (u.0, u.1)
              (omega
                (arith, count-append s a.fresh (slot ∷ []), pop_last-count s a.free rest slot e));
        recorded = λ h. (slot, u.2 h, inr (refl, u.1));
      }

  assign_one-Round :
      (id : String) (r : Rule) (kept : Option ℕ) (a : Assigning m)
      → Round kept id a (assign_one m id r kept a).0 (assign_one m id r kept a).1
  assign_one-Round id r (some slot) a = record {
    owned = λ s. refl;
    recorded = λ h. (slot, refl, inl (refl, refl));
  }
  assign_one-Round id r none a = take_slot-Round id r a (pop_last a.free) refl

  module _ (installed : Map String InstalledRule) where
    abbrev first : String → Rule → Assigning m → Assigning m × Option RuleError
    first id r a = assign_one m id r (kept_slot (get id installed) r) a

    -- However the loop ends, no slot is lost.
    pub assign-owned :
        (s : ℕ) (next : Map String Rule) (a : Assigning m)
        → count s (assign m installed next a).0.free + count s (assign m installed next a).0.fresh
          ≡ count s a.free + count s a.fresh
    unfolding assign
    assign-owned s [] a = refl
    assign-owned s ((id, r) ∷ rest) a = elim (Option-cases (first id r a).1) [
      | inl e ↦
          rw (e, assign)
            (assign-owned s rest (first id r a).0
              ∙ (assign_one-Round id r (kept_slot (get id installed) r) a).owned s)
      | inr (x, e) ↦
          rw (e, assign) ((assign_one-Round id r (kept_slot (get id installed) r) a).owned s)
    ]

    -- A successful loop went through a successful first round.
    assign-step :
        (id : String) (r : Rule) (rest : Map String Rule) (a : Assigning m)
        → (assign m installed ((id, r) ∷ rest) a).1 ≡ none
        → ((first id r a).1 ≡ none)
          × (assign m installed ((id, r) ∷ rest) a ≡ assign m installed rest (first id r a).0)
    unfolding assign
    assign-step id r rest a h = elim (Option-cases (first id r a).1) [
      | inl e ↦ (e, rw (e, assign))
      | inr (x, e) ↦ let clash : some x ≡ none = rw (e, assign) at h in cc
    ]

    -- The ids that the loop does not visit keep what was recorded for them.
    pub assign-frame :
        (j : String) (next : Map String Rule) (a : Assigning m)
        → (assign m installed next a).1 ≡ none
        → Misses j next
        → get j (assign m installed next a).0.slots ≡ get j a.slots
    unfolding assign
    assign-frame j [] a h miss = refl
    assign-frame j ((id, r) ∷ rest) a h miss =
        let (e, step) = assign-step id r rest a h in
        let b = (first id r a).0 in
        let (slot, put_it, _) =
          (assign_one-Round id r (kept_slot (get id installed) r) a).recorded e in
        rw step (
          assign-frame j rest b (rw step at h) miss.1
          ∙ ap (get j) put_it
          ∙ get-put id j slot a.slots
          ∙ rw (beq-false id j miss.0))

    assign-fresh_grows :
        (s : ℕ) (next : Map String Rule) (a : Assigning m)
        → (assign m installed next a).1 ≡ none
        → count s a.fresh ≤ count s (assign m installed next a).0.fresh
    unfolding assign
    assign-fresh_grows s [] a h = omega arith
    assign-fresh_grows s ((id, r) ∷ rest) a h =
        let (e, step) = assign-step id r rest a h in
        let b = (first id r a).0 in
        let (slot, _, from) =
          (assign_one-Round id r (kept_slot (get id installed) r) a).recorded e in
        rw step (
          ground
            (arith, assign-fresh_grows s rest b (rw step at h), count-append s a.fresh (slot ∷ [])))

    Placed-first :
        (kept : Option ℕ) (slot : ℕ) (old new fresh : List ℕ)
        → ((kept ≡ some slot) × (new ≡ old)) ⊎ ((kept ≡ none) × (new ≡ old ++ slot ∷ []))
        → count slot new ≤ count slot fresh
        → Placed kept slot fresh
    Placed-first none slot old new fresh from grows =
        ground (arith, count-append slot old (slot ∷ []))
    Placed-first (some at) slot old new fresh from grows = ground arith

    slot_of-some :
        (id : String) (slots : Map String ℕ) (slot : ℕ)
        → get id slots ≡ some slot
        → slot_of id slots ≡ slot
    slot_of-some id slots slot e = ground arith

    first-slot :
        (id : String) (r : Rule) (rest : Map String Rule) (a : Assigning m)
        → (assign m installed ((id, r) ∷ rest) a).1 ≡ none
        → Misses id rest
        → (slot : ℕ) × (slot_of id (assign m installed ((id, r) ∷ rest) a).0.slots ≡ slot)
          × (((kept_slot (get id installed) r ≡ some slot) × ((first id r a).0.fresh ≡ a.fresh))
              ⊎ ((kept_slot (get id installed) r ≡ none)
                  × ((first id r a).0.fresh ≡ a.fresh ++ slot ∷ [])))
    first-slot id r rest a h miss =
        let (e, step) = assign-step id r rest a h in
        let (slot, put_it, from) =
          (assign_one-Round id r (kept_slot (get id installed) r) a).recorded e in
        (
          slot,
          slot_of-some id _ slot (
              ap (λ (t : Assigning m × Option RuleError). get id t.0.slots) step
              ∙ assign-frame id rest (first id r a).0 (rw step at h) miss
              ∙ ap (get id) put_it
              ∙ get-put id id slot a.slots
              ∙ rw (beq_self id)),
          from,
        )

    assign-Placed_first :
        (id : String) (r : Rule) (rest : Map String Rule) (a : Assigning m)
        → (assign m installed ((id, r) ∷ rest) a).1 ≡ none
        → Misses id rest
        → Placed
            (kept_slot (get id installed) r)
            (slot_of id (assign m installed ((id, r) ∷ rest) a).0.slots)
            (assign m installed ((id, r) ∷ rest) a).0.fresh
    assign-Placed_first id r rest a h miss =
        let (slot, at, from) = first-slot id r rest a h miss in
        let (e, step) = assign-step id r rest a h in
        rw at (
          Placed-first (kept_slot (get id installed) r) slot a.fresh (first id r a).0.fresh _ from
            (rw step (assign-fresh_grows slot rest (first id r a).0 (rw step at h))))

    pub assign-Placed :
        (id : String) (r : Rule) (next : Map String Rule) (a : Assigning m)
        → (assign m installed next a).1 ≡ none
        → IsUnique next
        → get id next ≡ some r
        → Placed
            (kept_slot (get id installed) r)
            (slot_of id (assign m installed next a).0.slots)
            (assign m installed next a).0.fresh
    assign-Placed id r [] a h u e = cc
    assign-Placed id r ((j, q) ∷ rest) a h u e = elim (Bool-cases (j == id)) [
      | inl same ↦
          subst₂
            (λ x y.
              Placed (kept_slot (get x installed) y)
                (slot_of x (assign m installed ((j, q) ∷ rest) a).0.slots)
                (assign m installed ((j, q) ∷ rest) a).0.fresh)
            ((eq_iff j id).0 same) (ground arith) (assign-Placed_first j q rest a h u.0)
      | inr other ↦
          let (ok, step) = assign-step j q rest a h in
          rw step (assign-Placed id r rest (first j q a).0 (rw step at h) u.1 (rw other at e))
    ]

    pub assign-balance :
        (s : ℕ) (next : Map String Rule) (a : Assigning m)
        → (assign m installed next a).1 ≡ none
        → IsUnique next
        → count s (held (install_map next (assign m installed next a).0.slots)) + count s a.fresh
          ≡ count s (kept_slots installed next) + count s (assign m installed next a).0.fresh
    unfolding install_map
    assign-balance s [] a h u = unfold assign in refl
    assign-balance s ((id, r) ∷ rest) a h u =
        let (slot, at, from) = first-slot id r rest a h u.0 in
        let (ok, step) = assign-step id r rest a h in
        let more = assign-balance s rest (first id r a).0 (rw step at h) u.1 in
        rw (at, step) (ground (arith, count-append s a.fresh (slot ∷ [])))

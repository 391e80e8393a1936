-- ===== src/RuleEngine/Handover.antt =====
-- commit: the slots that the old map held are kept by the new one or retired, each of them once.
use packetyeeter.Common.{
  ℕ, ◌+◌, ◌≤◌, ◌≡◌, refl, String, Bool, false, not, Option, none, some, List, [], ◌∷◌, arith,
  if◌then◌else◌, count, one_if, string_key, eq_iff, All, Bool-cases, inl, inr, ◌==◌, beq-false,
  beq_self, sym, subst,
}
use packetyeeter.Common.Assoc.{Map, get, IsUnique, Misses, Misses-get}
use packetyeeter.ScrubRules.Types.{Rule}
use packetyeeter.RuleEngine.State.{InstalledRule, retire, superseded, body_eq}
use packetyeeter.RuleEngine.Install.{kept_slot}
use packetyeeter.RuleEngine.Slots.{held, waiting}
use packetyeeter.RuleEngine.Assigned.{kept_slots}

-- The new rule set keeps the old rule's slot.
abbrev pub keeps : Option Rule → InstalledRule → Bool
keeps none cur = false
keeps (some r) cur = body_eq cur.body r.body

abbrev pub retained : Map String Rule → Map String InstalledRule → List ℕ
retained next [] = []
retained next ((id, cur) ∷ rest) =
    if keeps (get id next) cur then cur.slot ∷ retained next rest else retained next rest

kept_slots-miss :
    (id : String) (cur : InstalledRule) (rest : Map String InstalledRule) (next : Map String Rule)
    → Misses id next
    → kept_slots ((id, cur) ∷ rest) next ≡ kept_slots rest next
kept_slots-miss id cur rest [] miss = refl
kept_slots-miss id cur rest ((j, r) ∷ next) miss =
    ground (arith, beq-false id j (λ e. miss.0 (sym e)), kept_slots-miss id cur rest next miss.1)

kept_slots-cons :
    (s : ℕ) (id : String) (cur : InstalledRule) (rest : Map String InstalledRule)
    (next : Map String Rule)
    → Misses id rest
    → IsUnique next
    → count s (kept_slots ((id, cur) ∷ rest) next)
      ≡ (if keeps (get id next) cur then one_if s cur.slot else 0) + count s (kept_slots rest next)
unfolding kept_slot
kept_slots-cons s id cur rest [] miss u = omega arith
kept_slots-cons s id cur rest ((j, r) ∷ next) miss u = elim (Bool-cases (id == j)) [
  | inl same ↦ ground (
    arith,
    (eq_iff id j).0 same,
    beq_self id,
    Misses-get j rest (subst (λ k. Misses k rest) ((eq_iff id j).0 same) miss),
    kept_slots-miss id cur rest next (subst (λ k. Misses k next) (sym ((eq_iff id j).0 same)) u.0),
  )
  | inr other ↦
      ground (arith, eq_iff j id, eq_iff id j, kept_slots-cons s id cur rest next miss u.1)
]

pub count-retained :
    (s : ℕ) (next : Map String Rule) (installed : Map String InstalledRule)
    → IsUnique next
    → IsUnique installed
    → count s (kept_slots installed next) ≡ count s (retained next installed)
unfolding kept_slot
count-retained s [] [] u v = refl
count-retained s ((id, r) ∷ next) [] u v = count-retained s next [] u.1 v
count-retained s next ((id, cur) ∷ rest) u v =
    rw (kept_slots-cons s id cur rest next v.0 u) (ground (arith, count-retained s next rest u v.1))

-- What the old map says of its own entries.
abbrev pub Entry : Map String InstalledRule → String × InstalledRule → Type 0
Entry whole p = (get p.0 whole ≡ some p.1) × (1 ≤ count p.1.slot (held whole))

Entry-weaken :
    (j : String) (w : InstalledRule) (whole part : Map String InstalledRule)
    → Misses j part
    → All (Entry whole) part
    → All (Entry ((j, w) ∷ whole)) part
Entry-weaken j w whole [] miss h = tt
Entry-weaken j w whole ((i, v) ∷ rest) miss h = (
  (ground (arith, beq-false j i (λ e. miss.0 (sym e))), ground arith),
  Entry-weaken j w whole rest miss.1 h.1,
)

pub Entry-All : (whole : Map String InstalledRule) → IsUnique whole → All (Entry whole) whole
Entry-All [] u = tt
Entry-All ((j, w) ∷ rest) u =
    ((rw (beq_self j), ground arith), Entry-weaken j w rest rest u.0 (Entry-All rest u.1))

pub count-retire :
    (s now : ℕ) (next : Map String Rule) (new old : Map String InstalledRule)
    → All (λ p. superseded (get p.0 new) p.1 ≡ not (keeps (get p.0 next) p.1)) old
    → count s (retained next old) + count s (waiting (retire now new old)) ≡ count s (held old)
unfolding retire
count-retire s now next new [] h = refl
count-retire s now next new ((id, cur) ∷ rest) h =
    ground (arith, count-retire s now next new rest h.1)

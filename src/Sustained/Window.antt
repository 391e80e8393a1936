-- ===== src/Sustained/Window.antt =====
-- What holds of a client's window: its section counts are those of its resources, which are at most the limit,
-- each once, and ordered by when they were seen.
use packetyeeter.Common.{
  ℕ, suc, ◌≤◌, ◌≡◌, refl, sym, ap, ◌∙◌, ◌≢◌, inl, inr, false, List, [], ◌∷◌, ◌++◌, arith, length,
  All, All-append, count, count-append, length-append, ◌==◌, nat_key, nat_beq_iff, Bool-cases,
}
use packetyeeter.Common.Assoc.{IsUnique}
use packetyeeter.Sustained.Resources.{ResourceEntry, has_key, refresh}
use packetyeeter.Sustained.Client.{ClientWindow, new_client}
use packetyeeter.Sustained.Refs.{IsCounted, empty-IsCounted}

abbrev pub sections_of : List ResourceEntry → List ℕ
sections_of [] = []
sections_of (e ∷ order) = e.section ∷ sections_of order

-- Each key once.
abbrev pub AreOnce : List ResourceEntry → Type 0
AreOnce [] = Unit
AreOnce (e ∷ order) = All (λ f. f.key ≢ e.key) order × AreOnce order

-- Seen in this order, and none after `now`.
abbrev pub AreSeen : ℕ → List ResourceEntry → Type 0
AreSeen now [] = Unit
AreSeen now (e ∷ order) = (e.seen ≤ now) × All (λ f. e.seen ≤ f.seen) order × AreSeen now order

pub sections_of-append :
    (xs ys : List ResourceEntry) → sections_of (xs ++ ys) ≡ sections_of xs ++ sections_of ys
sections_of-append [] ys = refl
sections_of-append (x ∷ xs) ys = ap (λ zs. x.section ∷ zs) (sections_of-append xs ys)

pub AreSeen-snoc :
    (now : ℕ) (order : List ResourceEntry) (e : ResourceEntry)
    → AreSeen now order
    → e.seen ≡ now
    → AreSeen now (order ++ e ∷ [])
AreSeen-snoc now [] e h q = (omega arith, tt, tt)
AreSeen-snoc now (x ∷ order) e h q = (
  h.0,
  All-append (λ f. x.seen ≤ f.seen) order (e ∷ []) h.1 (omega (arith, h.0), tt),
  AreSeen-snoc now order e h.2 q,
)

pub AreSeen-later :
    (now later : ℕ) (order : List ResourceEntry)
    → now ≤ later
    → AreSeen now order
    → AreSeen later order
AreSeen-later now later [] le h = tt
AreSeen-later now later (x ∷ order) le h =
    (omega (arith, h.0), h.1, AreSeen-later now later order le h.2)

pub AreOnce-snoc :
    (order : List ResourceEntry) (e : ResourceEntry)
    → AreOnce order
    → All (λ f. f.key ≢ e.key) order
    → AreOnce (order ++ e ∷ [])
AreOnce-snoc [] e h k = (tt, tt)
AreOnce-snoc (x ∷ order) e h k = (
  All-append (λ f. f.key ≢ x.key) order (e ∷ []) h.0 ((λ q. k.0 (sym q)), tt),
  AreOnce-snoc order e h.1 k.1,
)

pub missing_key :
    (key : ℕ) (order : List ResourceEntry)
    → has_key key order ≡ false
    → All (λ f. f.key ≢ key) order
missing_key key [] h = tt
missing_key key (x ∷ order) h =
    (ground (arith, nat_beq_iff x.key key), missing_key key order (ground arith))

pub All-refresh :
    (P : ResourceEntry → Type 0) (key now : ℕ) (order : List ResourceEntry)
    → ((e : ResourceEntry) → P e → P (record e { seen = now }))
    → All P order
    → All P (refresh key now order)
unfolding refresh
All-refresh P key now [] f h = tt
All-refresh P key now (x ∷ order) f h = elim (Bool-cases (x.key == key)) [
  | inl same ↦ rw same (All-append P order _ h.1 (f x h.0, tt))
  | inr other ↦ rw other (h.0, All-refresh P key now order f h.1)
]

pub length-refresh :
    (key now : ℕ) (order : List ResourceEntry) → length (refresh key now order) ≡ length order
unfolding refresh
length-refresh key now [] = refl
length-refresh key now (x ∷ order) = elim (Bool-cases (x.key == key)) [
  | inl same ↦ rw same (length-append order _ ∙ omega arith)
  | inr other ↦ rw other (ap suc (length-refresh key now order))
]

pub count-refresh :
    (s key now : ℕ) (order : List ResourceEntry)
    → count s (sections_of (refresh key now order)) ≡ count s (sections_of order)
unfolding refresh
count-refresh s key now [] = refl
count-refresh s key now (x ∷ order) = elim (Bool-cases (x.key == key)) [
  | inl same ↦ rw same (
      ap (count s) (sections_of-append order _)
      ∙ count-append s (sections_of order) _
      ∙ omega arith)
  | inr other ↦ rw other (omega (arith, count-refresh s key now order))
]

pub AreOnce-refresh :
    (key now : ℕ) (order : List ResourceEntry) → AreOnce order → AreOnce (refresh key now order)
unfolding refresh
AreOnce-refresh key now [] h = tt
AreOnce-refresh key now (x ∷ order) h = elim (Bool-cases (x.key == key)) [
  | inl same ↦ rw same (AreOnce-snoc order _ h.1 h.0)
  | inr other ↦ rw other (
    All-refresh (λ f. f.key ≢ x.key) key now order (λ e n. n) h.0,
    AreOnce-refresh key now order h.1,
  )
]

pub AreSeen-refresh :
    (key now : ℕ) (order : List ResourceEntry)
    → AreSeen now order
    → AreSeen now (refresh key now order)
unfolding refresh
AreSeen-refresh key now [] h = tt
AreSeen-refresh key now (x ∷ order) h = elim (Bool-cases (x.key == key)) [
  | inl same ↦ rw same (AreSeen-snoc now order _ h.2 refl)
  | inr other ↦ rw other (
    h.0,
    All-refresh (λ f. x.seen ≤ f.seen) key now order (λ e le. h.0) h.1,
    AreSeen-refresh key now order h.2,
  )
]

pub record IsWindow (limit : ℕ) (c : ClientWindow) : Type 0 where
  pub counted : IsCounted (sections_of c.resources.order) c.section_refs
  pub limited : c.resources.limit ≡ limit
  pub capped : length c.resources.order ≤ limit
  pub once : AreOnce c.resources.order
  pub seen : AreSeen c.last_seen c.resources.order
  pub starts : IsUnique c.buckets

pub new_client-IsWindow : (limit now : ℕ) → IsWindow limit (new_client limit now)
new_client-IsWindow limit now = record {
  counted = empty-IsCounted;
  limited = refl;
  capped = omega arith;
  once = tt;
  seen = tt;
  starts = tt;
}

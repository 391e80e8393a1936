-- ===== src/Sustained/Newest.antt =====
-- The newest entries of an unlimited set of resources, and what refreshing an entry does to them.
use packetyeeter.Common.{
  ℕ, ◌+◌, ◌-◌, ◌≤◌, ◌≡◌, refl, sym, ap, ◌∙◌, subst, ◌≢◌, inl, inr, true, false, ◌||◌, List, [], ◌∷◌,
  ◌++◌, arith, if◌then◌else◌, length, drop, All, length-append, ◌==◌, nat_key, nat_beq_iff,
  Bool-cases,
}
use packetyeeter.Sustained.Resources.{ResourceEntry, has_key, refresh}
use packetyeeter.Sustained.Window.{AreOnce}
use packetyeeter.Sustained.Observing.{entry_of}

-- The newest entries of an unlimited set, which are all of them unless the limited one is full.
pub record IsNewest (limit : ℕ) (all newest : List ResourceEntry) : Type 0 where
  pub older : List ResourceEntry
  pub split : all ≡ older ++ newest
  pub once : AreOnce all
  pub full : 1 ≤ length older → length newest ≡ limit
  pub capped : length newest ≤ limit

abbrev pub AreSections : (ℕ → ℕ) → List ResourceEntry → Type 0
AreSections section_of order = All (λ e. e.section ≡ section_of e.key) order

pub has_key-append :
    (key : ℕ) (xs ys : List ResourceEntry)
    → has_key key (xs ++ ys) ≡ (has_key key xs || has_key key ys)
has_key-append key [] ys = refl
has_key-append key (x ∷ xs) ys = ground (arith, has_key-append key xs ys)

pub refresh-late :
    (key now : ℕ) (xs ys : List ResourceEntry)
    → has_key key xs ≡ false
    → refresh key now (xs ++ ys) ≡ xs ++ refresh key now ys
unfolding refresh
refresh-late key now [] ys h = refl
refresh-late key now (x ∷ xs) ys h =
    let other : (x.key == key) ≡ false = ground arith in
    rw other (ap (λ zs. x ∷ zs) (refresh-late key now xs ys (ground arith)))

-- The list without the first entry of the key.
unfoldable pub lose : ℕ → List ResourceEntry → List ResourceEntry
lose key [] = []
lose key (x ∷ xs) = let rest = lose key xs in if x.key == key then xs else x ∷ rest

entry_same :
    (section_of : ℕ → ℕ) (key now : ℕ) (e : ResourceEntry)
    → e.section ≡ section_of e.key
    → e.key ≡ key
    → record e { seen = now } ≡ entry_of key (section_of key) now
entry_same section_of key now e h k = rw (h, k) refl

pub refresh_early :
    (section_of : ℕ → ℕ) (key now : ℕ) (xs ys : List ResourceEntry)
    → AreSections section_of xs
    → has_key key xs ≡ true
    → refresh key now (xs ++ ys) ≡ lose key xs ++ ys ++ entry_of key (section_of key) now ∷ []
unfolding refresh lose
refresh_early section_of key now [] ys s h = absurd (ground arith)
refresh_early section_of key now (x ∷ xs) ys s h = elim (Bool-cases (x.key == key)) [
  | inl same ↦
      let e = entry_same section_of key now x s.0 ((nat_beq_iff x.key key).0 same) in
      rw same (ap (λ z. xs ++ ys ++ z ∷ []) e)
  | inr other ↦
      rw other (ap (λ zs. x ∷ zs) (refresh_early section_of key now xs ys s.1 (ground arith)))
]

has_key-missing :
    (key : ℕ) (xs : List ResourceEntry) → All (λ f. f.key ≢ key) xs → has_key key xs ≡ false
has_key-missing key [] h = refl
has_key-missing key (x ∷ xs) h = ground (arith, nat_beq_iff x.key key, has_key-missing key xs h.1)

pub not_older :
    (key : ℕ) (xs ys : List ResourceEntry)
    → AreOnce (xs ++ ys)
    → has_key key ys ≡ true
    → has_key key xs ≡ false
not_older key [] ys o h = refl
not_older key (x ∷ xs) ys o h = elim (Bool-cases (x.key == key)) [
  | inr other ↦ rw other (not_older key xs ys o.1 h)
  | inl same ↦
      let away = has_key-missing x.key (xs ++ ys) o.0 in
      let q = (nat_beq_iff x.key key).0 same in
      absurd (
        ground
          (arith, subst (λ k. has_key k (xs ++ ys) ≡ false) q away, has_key-append key xs ys, h))
]

pub append_assoc {ℓ} : {A : Type ℓ} (xs ys zs : List A) → (xs ++ ys) ++ zs ≡ xs ++ (ys ++ zs)
append_assoc [] ys zs = refl
append_assoc (x ∷ xs) ys zs = ap (λ ws. x ∷ ws) (append_assoc xs ys zs)

pub All-left {ℓ κ} : {A : Type ℓ} (P : A → Type κ) (xs ys : List A) → All P (xs ++ ys) → All P xs
All-left P [] ys h = tt
All-left P (x ∷ xs) ys h = (h.0, All-left P xs ys h.1)

pub length-lose :
    (key : ℕ) (xs : List ResourceEntry)
    → has_key key xs ≡ true
    → length (lose key xs) + 1 ≡ length xs
unfolding lose
length-lose key [] h = ground arith
length-lose key (x ∷ xs) h = ground (arith, length-lose key xs)

drop_older {ℓ} : {A : Type ℓ} (xs ys : List A) → drop (length xs) (xs ++ ys) ≡ ys
drop_older [] ys = refl
drop_older (x ∷ xs) ys = drop_older xs ys

pub newest-drop :
    (limit : ℕ) (all newest : List ResourceEntry)
    → IsNewest limit all newest
    → newest ≡ drop (length all - limit) all
newest-drop limit all newest n =
    let size = ap length n.split ∙ length-append n.older newest in
    let count : length n.older ≡ length all - limit = ground (arith, size, n.full, n.capped) in
    sym (
      ap (λ k. drop k all) (sym count)
      ∙ ap (drop (length n.older)) n.split
      ∙ drop_older n.older newest)

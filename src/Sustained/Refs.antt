-- ===== src/Sustained/Refs.antt =====
-- The reference counts of the sections: they count exactly the retained resources.
use packetyeeter.Common.{
  ℕ, suc, ◌+◌, ◌-◌, ◌≤◌, ◌≡◌, refl, sym, ap, ◌∙◌, inl, inr, false, some, List, [], ◌∷◌, ◌++◌, arith,
  if◌then◌else◌, leb, length, All, count, count-append, ◌==◌, nat_key, nat_beq_iff, Bool-cases,
  Option-cases,
}
use packetyeeter.Common.Assoc.{
  Map, get, put, delete, IsUnique, IsUnique-put, IsUnique-delete, get-put, get-delete, All-put,
  All-delete, length-delete, length-put-has, has-get,
}
use packetyeeter.Sustained.Client.{refs_of, release_section, release_each}

pub record IsCounted (sections : List ℕ) (refs : Map ℕ ℕ) : Type 0 where
  pub unique : IsUnique refs
  pub positive : All (λ p. 1 ≤ p.1) refs
  pub counts : (s : ℕ) → refs_of s refs ≡ count s sections

pub empty-IsCounted : IsCounted [] []
empty-IsCounted = record { unique = tt; positive = tt; counts = λ s. refl }

refs_of-put :
    (k j n : ℕ) (refs : Map ℕ ℕ) → refs_of j (put k n refs) ≡ (if k == j then n else refs_of j refs)
refs_of-put k j n refs = ground (arith, get-put k j n refs)

refs_of-delete :
    (k j : ℕ) (refs : Map ℕ ℕ) → refs_of j (delete k refs) ≡ (if k == j then 0 else refs_of j refs)
refs_of-delete k j refs = ground (arith, get-delete k j refs)

pub acquire-IsCounted :
    (section : ℕ) (sections : List ℕ) (refs : Map ℕ ℕ)
    → IsCounted sections refs
    → IsCounted (sections ++ section ∷ []) (put section (refs_of section refs + 1) refs)
acquire-IsCounted section sections refs c = record {
  unique = IsUnique-put section _ refs c.unique;
  positive = All-put (λ p. 1 ≤ p.1) section _ refs (λ j e. omega arith) c.positive;
  counts = λ s. ground (
    arith,
    refs_of-put section s (refs_of section refs + 1) refs,
    count-append s sections (section ∷ []),
    c.counts s,
  );
}

pub release-IsCounted :
    (section : ℕ) (sections : List ℕ) (refs : Map ℕ ℕ)
    → IsCounted (section ∷ sections) refs
    → IsCounted sections (release_section section refs)
unfolding release_section
release-IsCounted section sections refs c = elim (Bool-cases (leb (refs_of section refs) 1)) [
  | inl last ↦ rw last (record {
    unique = IsUnique-delete section refs c.unique;
    positive = All-delete (λ p. 1 ≤ p.1) section refs c.positive;
    counts = λ s. ground (arith, refs_of-delete section s refs, c.counts s, c.counts section);
  })
  | inr more ↦ rw more (record {
    unique = IsUnique-put section _ refs c.unique;
    positive = All-put (λ p. 1 ≤ p.1) section _ refs (λ j e. ground arith) c.positive;
    counts = λ s. ground (
      arith,
      refs_of-put section s (refs_of section refs - 1) refs,
      c.counts s,
      c.counts section,
    );
  })
]

pub release_each-IsCounted :
    (gone sections : List ℕ) (refs : Map ℕ ℕ)
    → IsCounted (gone ++ sections) refs
    → IsCounted sections (release_each gone refs)
unfolding release_each
release_each-IsCounted [] sections refs c = c
release_each-IsCounted (section ∷ gone) sections refs c =
    release_each-IsCounted gone sections (release_section section refs)
      (release-IsCounted section (gone ++ sections) refs c)

-- Lists with the same counts are counted alike.
pub IsCounted-same :
    (xs ys : List ℕ) (refs : Map ℕ ℕ)
    → ((s : ℕ) → count s ys ≡ count s xs)
    → IsCounted xs refs
    → IsCounted ys refs
IsCounted-same xs ys refs h c = record {
  unique = c.unique;
  positive = c.positive;
  counts = λ s. c.counts s ∙ sym (h s);
}

-- How many different numbers a list holds.
abbrev pub distinct : List ℕ → ℕ
distinct [] = 0
distinct (x ∷ xs) = if count x xs == 0 then suc (distinct xs) else distinct xs

no_refs : (refs : Map ℕ ℕ) → IsCounted [] refs → length refs ≡ 0
no_refs [] c = refl
no_refs ((k, n) ∷ refs) c = absurd (ground (arith, c.counts k, c.positive.0, nat_beq_iff k k))

refs-some : (s n : ℕ) (refs : Map ℕ ℕ) → refs_of s refs ≡ suc n → get s refs ≡ some (suc n)
refs-some s n refs h = elim (Option-cases (get s refs)) [
  | inl gone ↦ absurd (ground (arith, gone))
  | inr (m, found) ↦ ground (arith, found)
]

length-release :
    (section : ℕ) (sections : List ℕ) (refs : Map ℕ ℕ)
    → IsCounted (section ∷ sections) refs
    → (if count section sections == 0
        then suc (length (release_section section refs))
        else length (release_section section refs))
      ≡ length refs
unfolding release_section
length-release section sections refs c = elim (Bool-cases (count section sections == 0)) [
  | inl only ↦
      let one : refs_of section refs ≡ suc 0 =
        ground (arith, c.counts section, nat_beq_iff section section) in
      rw (only, one) (length-delete section 1 refs c.unique (refs-some section 0 refs one))
  | inr more ↦
      let n : ℕ = count section sections - 1 in
      let many : refs_of section refs ≡ suc (suc n) =
        ground (arith, c.counts section, nat_beq_iff section section) in
      let there = has-get section refs (suc (suc n)) (refs-some section (suc n) refs many) in
      let big : leb (refs_of section refs) 1 ≡ false = ground (arith, many) in
      rw (more, big) (length-put-has section (refs_of section refs - 1) refs there)
]

-- The section count is the number of different sections of the retained resources.
pub length-refs :
    (sections : List ℕ) (refs : Map ℕ ℕ) → IsCounted sections refs → length refs ≡ distinct sections
length-refs [] refs c = no_refs refs c
length-refs (x ∷ xs) refs c =
    let rest = length-refs xs (release_section x refs) (release-IsCounted x xs refs c) in
    sym (length-release x xs refs c) ∙ ap (λ n. if count x xs == 0 then suc n else n) rest

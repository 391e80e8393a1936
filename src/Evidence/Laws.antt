-- ===== src/Evidence/Laws.antt =====
-- The evidence set is bounded, and remembers what was added for as long as it should.
use packetyeeter.Common.{
  ℕ, ◌↔◌, ◌+◌, ◌≤◌, ◌<◌, ◌≡◌, refl, sym, ap, ◌∙◌, subst, inl, inr, String, true, Option, none, some,
  [], ◌∷◌, leb, length, keep, length-keep-le, arith, eq_iff, Bool-cases, string_key, ◌==◌,
}
use packetyeeter.Common.Assoc.{
  Map, get, put, has, delete, IsUnique, length-put, length-put-has, length-delete, IsUnique-put,
  IsUnique-delete, IsUnique-keep, get-put, Misses, Misses-get,
}
use packetyeeter.Sampling.Laws.{evict_oldest-Evicts}
use packetyeeter.Evidence.{
  EvidenceSet, seen_when, within, is_fresh, with_room, add_at, purge, is_live, has_at,
  scrub_evidence_refresh,
}

pub record IsEvidence (e : EvidenceSet) : Type 0 where
  pub room : 1 ≤ e.cap
  pub bounded : length e.seen ≤ e.cap
  pub distinct : IsUnique e.seen
  pub lasting : scrub_evidence_refresh ≤ e.ttl

-- What with_room leaves: room for the key, distinct keys.
with_room_lem :
    (key : String) (e : EvidenceSet)
    → IsEvidence e
    → (length (put key 0 (with_room key e)) ≤ e.cap) × IsUnique (with_room key e)
with_room_lem key e v = elim (Bool-cases (has key e.seen)) [
  | inl there ↦ rw there (omega (arith, v.bounded, length-put-has key 0 e.seen there), v.distinct)
  | inr new ↦ elim (Bool-cases (leb e.cap (length e.seen))) [
    | inr space ↦ rw (new, space) (ground (arith, length-put key 0 e.seen), v.distinct)
    | inl full ↦
        let (best, at, here, oldest, out) =
          evict_oldest-Evicts seen_when e.seen v.distinct (ground (arith, v.room)) in
        let less = length-delete best at e.seen v.distinct here in
        rw (new, full, out)
          (
            omega (arith, v.bounded, length-put key 0 (delete best e.seen)),
            IsUnique-delete best e.seen v.distinct,
          )
  ]
]

length-put_same :
    (key : String) (a b : ℕ) (m : Map String ℕ) → length (put key a m) ≡ length (put key b m)
length-put_same key a b [] = refl
length-put_same key a b ((j, w) ∷ m) = ground (arith, length-put_same key a b m)

-- An addition keeps the set within its size, each address once; the address is then found at that time, and
-- at every later time before its age reaches the ttl less the refresh interval.
abbrev pub Added : String → ℕ → EvidenceSet → EvidenceSet → Type 0
Added key now e e' =
    IsEvidence e'
    × (at : ℕ) × (get key e'.seen ≡ some at)
    × (now < at + scrub_evidence_refresh)
    × (e'.ttl ≡ e.ttl)

pub add_at-Added :
    (key : String) (now : ℕ) (e : EvidenceSet)
    → IsEvidence e
    → Added key now e (add_at (some key) now e)
unfolding add_at
add_at-Added key now e v = elim (Bool-cases (is_fresh now (get key e.seen))) [
  | inl fresh ↦
      let (at, found, late, same) = recent (get key e.seen) refl fresh in
      rw fresh (v, at, found, late, same)
  | inr stale ↦
      let (count, unique) = with_room_lem key e v in
      rw stale (
        record {
          room = v.room;
          bounded = omega (arith, count, length-put_same key now 0 (with_room key e));
          distinct = IsUnique-put key now _ unique;
          lasting = v.lasting;
        },
        now,
        ground (arith, get-put key key now (with_room key e), eq_iff key key),
        omega arith,
        refl,
      )
]
  where
    recent :
        (o : Option ℕ)
        → get key e.seen ≡ o
        → is_fresh now o ≡ true
        → (at : ℕ) × (get key e.seen ≡ some at)
          × (now < at + scrub_evidence_refresh)
          × (e.ttl ≡ e.ttl)
    recent none h f = cc
    recent (some at) h f = (at, h, ground arith, refl)

-- An address that was added is held at every time up to the ttl less the refresh interval after the addition.
pub has_at-add_at :
    (key : String) (now later : ℕ) (e : EvidenceSet)
    → IsEvidence e
    → later + scrub_evidence_refresh ≤ now + e.ttl
    → has_at (some key) later (add_at (some key) now e) ≡ true
unfolding has_at
has_at-add_at key now later e v h =
    let (v', at, found, late, same) = add_at-Added key now e v in rw (found, same) (ground arith)

is_live-keep :
    (key : String) (now ttl : ℕ) (m : Map String ℕ)
    → IsUnique m
    → is_live now ttl (get key (keep (λ p. within now p.1 ttl) m)) ≡ is_live now ttl (get key m)
is_live-keep key now ttl [] u = refl
is_live-keep key now ttl ((j, at) ∷ m) u = elim (Bool-cases (j == key)) [
  | inr other ↦ elim (Bool-cases (within now at ttl)) [
    | inl kept ↦ rw (kept, other) (is_live-keep key now ttl m u.1)
    | inr gone ↦ rw (gone, other) (is_live-keep key now ttl m u.1)
  ]
  | inl found ↦ elim (Bool-cases (within now at ttl)) [
    | inl kept ↦ rw (kept, found) refl
    | inr gone ↦
        let missing : get key m ≡ none =
          Misses-get key m (subst (λ i. Misses i m) ((eq_iff j key).0 found) u.0) in
        rw (gone, found) (is_live-keep key now ttl m u.1 ∙ ap (is_live now ttl) missing ∙ sym gone)
  ]
]

within_iff : (now at ttl : ℕ) → (within now at ttl ≡ true ↔ now < at + ttl)
within_iff now at ttl = ground arith

get-keep :
    (key : String) (now ttl at : ℕ) (m : Map String ℕ)
    → IsUnique m
    → (get key (keep (λ p. within now p.1 ttl) m) ≡ some at
        ↔ (get key m ≡ some at) × (within now at ttl ≡ true))
get-keep key now ttl at [] u = ground arith
get-keep key now ttl at ((j, last) ∷ m) u = elim (Bool-cases (j == key)) [
  | inr other ↦ elim (Bool-cases (within now last ttl)) [
    | inl kept ↦ rw (kept, other) (get-keep key now ttl at m u.1)
    | inr gone ↦ rw (gone, other) (get-keep key now ttl at m u.1)
  ]
  | inl found ↦ elim (Bool-cases (within now last ttl)) [
    | inl kept ↦
        rw (kept, found)
          (
            (λ h.
                let same : last ≡ at = ground (arith, h) in
                (h, subst (λ t. within now t ttl ≡ true) same kept)),
            (λ h. h.0),
          )
    | inr gone ↦
        let missing : get key m ≡ none =
          Misses-get key m (subst (λ i. Misses i m) ((eq_iff j key).0 found) u.0) in
        let before = get-keep key now ttl at m u.1 in
        rw (gone, found)
          (
            (λ h. let was : none ≡ some at = sym missing ∙ (before.0 h).0 in absurd cc),
            (λ h.
                let same : last ≡ at = ground (arith, h) in
                let live : within now last ttl ≡ true =
                  subst (λ t. within now t ttl ≡ true) (sym same) h.1 in
                absurd (ground (arith, gone, live))),
          )
  ]
]

-- purge of a well-formed evidence set leaves an address with its time exactly if it was there with that time and is
-- younger than the ttl, so it changes no answer of hasAt at its time; it returns how many are left, and keeps the set
-- well-formed.
pub purge-Purged :
    (key : String) (now at : ℕ) (e : EvidenceSet)
    → IsEvidence e
    → let out = purge now e in
      (get key out.0.seen ≡ some at ↔ (get key e.seen ≡ some at) × (now < at + e.ttl))
      × (has_at (some key) now out.0 ≡ has_at (some key) now e)
      × (out.1 ≡ length out.0.seen)
      × IsEvidence out.0
unfolding has_at purge
purge-Purged key now at e v =
    let kept = get-keep key now e.ttl at e.seen v.distinct in
    let young = within_iff now at e.ttl in
    (
      ((λ h. let (was, live) = kept.0 h in (was, young.0 live)), (λ h. kept.1 (h.0, young.1 h.1))),
      is_live-keep key now e.ttl e.seen v.distinct,
      refl,
      record {
        room = v.room;
        bounded =
            omega
              (arith, v.bounded, length-keep-le (λ (p : String × ℕ). within now p.1 e.ttl) e.seen);
        distinct = IsUnique-keep _ e.seen v.distinct;
        lasting = v.lasting;
      },
    )

-- ===== src/Ring/Refines.antt =====
-- The ring behaves as a bounded list: the operations of ring.go on what it holds.
use packetyeeter.Common.{
  ℕ, ◌+◌, ◌-◌, ◌*◌, ◌≤◌, ◌<◌, ◌≡◌, refl, ◌≢◌, ◌⊎◌, inl, inr, Option, some, List, [], ◌∷◌, ◌++◌,
  arith, length, get_elem?, set, drop, replicate, get_elem?-set_self, get_elem?-set_ne, length-set,
  ltb, leb, if◌then◌else◌, min, max, length-replicate, length-drop, length-append, get_elem?-drop,
  get_elem?-append_left, get_elem?-append_right, ap, ◌∙◌, sym, Bool-cases, ◌==◌, nat_key,
}
use packetyeeter.Ring.{
  EventRing, physical, at, grow, copy_to, min_ring_growth, overwrite_oldest, append_newest,
}
use packetyeeter.Ring.View.{IsRing, Holds, length-copy_to, get_elem?-copy_to}

-- The index of entry `i` in a buffer of `n` places.
abbrev pub place : ℕ → ℕ → ℕ → ℕ
place n h i = if leb n (h + i) then h + i - n else h + i

place_next :
    (n h i : ℕ)
    → h < n
    → i + 1 < n
    → (place n (place n h 1) i ≡ place n h (i + 1)) × (h ≢ place n h (i + 1))
place_next n h i p q = (ground arith, ground arith)

place_last : (n h i : ℕ) → h < n → i + 1 ≡ n → place n (place n h 1) i ≡ h
place_last n h i p q = ground arith

place_in : (n h i : ℕ) → h < n → i ≤ n → place n h i < n ⊎ (i ≡ n)
place_in n h i p q = ground arith

place_ne : (n h i j : ℕ) → h < n → i < j → j < n → place n h j ≢ place n h i
place_ne n h i j p q r = ground arith

module _ {ℓ} {A : Type ℓ} where
  pub at_place :
      (r : EventRing A) (i : ℕ) → at r i ≡ get_elem? r.buf (place (length r.buf) r.head i)
  unfolding at physical
  at_place r i = refl

  -- One place further: the old head is overwritten by `w` and becomes the last place.
  abbrev pub advance : EventRing A → A → EventRing A
  advance r w = record r {
    buf = set r.buf r.head w;
    head = place (length (set r.buf r.head w)) r.head 1;
  }

  pub at-advance :
      (r : EventRing A) (w : A) (i : ℕ)
      → r.head < length r.buf
      → i + 1 < length r.buf
      → at (advance r w) i ≡ at r (i + 1)
  at-advance r w i p q =
      at_place (advance r w) i
      ∙ ap (λ (n : ℕ). get_elem? (set r.buf r.head w) (place n (place n r.head 1) i))
          (length-set r.buf r.head w)
      ∙ ap (get_elem? (set r.buf r.head w)) (place_next (length r.buf) r.head i p q).0
      ∙ get_elem?-set_ne r.buf r.head (place (length r.buf) r.head (i + 1)) w
          (place_next (length r.buf) r.head i p q).1
      ∙ sym (at_place r (i + 1))

  at-advance_last :
      (r : EventRing A) (w : A) (i : ℕ)
      → r.head < length r.buf
      → i + 1 ≡ length r.buf
      → at (advance r w) i ≡ some w
  at-advance_last r w i p q =
      at_place (advance r w) i
      ∙ ap (λ (n : ℕ). get_elem? (set r.buf r.head w) (place n (place n r.head 1) i))
          (length-set r.buf r.head w)
      ∙ ap (get_elem? (set r.buf r.head w)) (place_last (length r.buf) r.head i p q)
      ∙ get_elem?-set_self r.buf r.head w p

  pub get_elem?-snoc :
      (xs : List A) (v : A) (i : ℕ) → i ≡ length xs → get_elem? (xs ++ v ∷ []) i ≡ some v
  get_elem?-snoc xs v i e =
      ap (get_elem? (xs ++ v ∷ [])) {y = length xs + 0} (omega arith)
      ∙ get_elem?-append_right 0 xs (v ∷ [])

  -- What a list bounded by the limit does with one more entry.
  abbrev pub bounded_push : EventRing A → List A → A → List A
  bounded_push r xs v = if r.size == r.limit then drop 1 xs ++ v ∷ [] else xs ++ v ∷ []

  abbrev pub Pushed : EventRing A → List A → Option (EventRing A) → Type ℓ
  Pushed r xs out =
      (r' : EventRing A) × (out ≡ some r') × IsRing r' × Holds r' xs × (r'.limit ≡ r.limit)

  pub overwrite_oldest_lem :
      (r : EventRing A) (xs : List A) (v : A)
      → IsRing r
      → Holds r xs
      → r.size ≡ r.limit
      → Pushed r (drop 1 xs ++ v ∷ []) (overwrite_oldest r v)
  unfolding physical
  overwrite_oldest_lem r xs v inv holds full =
      let buf : List A = set r.buf r.head v in
      let r' : EventRing A = record r { buf = buf; head = place (length buf) r.head 1 } in
      (
        r',
        ground (arith, length-set r.buf r.head v),
        ground (arith, length-set r.buf r.head v),
        record {
          count = ground (arith, length-append (drop 1 xs) (v ∷ []), length-drop 1 xs, holds.count);
          entries = λ i lt. elim (Bool-cases (ltb (i + 1) r.size)) [
            | inl early ↦
                at-advance r v i (omega arith) (ground arith)
                ∙ holds.entries (i + 1) (ground arith)
                ∙ ap (get_elem? xs) {y = 1 + i} (omega arith)
                ∙ sym (get_elem?-drop 1 i xs)
                ∙ sym (
                    get_elem?-append_left i (drop 1 xs) (v ∷ [])
                      (ground (arith, length-drop 1 xs, holds.count)))
            | inr last ↦
                at-advance_last r v i (omega arith) (ground arith)
                ∙ sym
                    (get_elem?-snoc (drop 1 xs) v i (ground (arith, length-drop 1 xs, holds.count)))
          ];
        },
        refl,
      )

  pub append_newest_lem :
      (r : EventRing A) (xs : List A) (v : A)
      → IsRing r
      → Holds r xs
      → r.size < length r.buf
      → Pushed r (xs ++ v ∷ []) (append_newest r v)
  unfolding physical
  append_newest_lem r xs v inv holds room =
      let i = place (length r.buf) r.head r.size in
      let r' : EventRing A = record r { buf = set r.buf i v; size = r.size + 1 } in
      (
        r',
        ground arith,
        ground (arith, length-set r.buf i v),
        record {
          count = ground (arith, length-append xs (v ∷ []), holds.count);
          entries = λ j lt. elim (Bool-cases (ltb j r.size)) [
            | inl early ↦
                at_place r' j
                ∙ ap (λ (n : ℕ). get_elem? (set r.buf i v) (place n r.head j))
                    (length-set r.buf i v)
                ∙ get_elem?-set_ne r.buf i (place (length r.buf) r.head j) v (λ e.
                  place_ne (length r.buf) r.head j r.size (omega arith) (ground arith) room e)
                ∙ sym (at_place r j)
                ∙ holds.entries j (ground arith)
                ∙ sym (get_elem?-append_left j xs (v ∷ []) (ground (arith, holds.count)))
            | inr last ↦
                at_place r' j
                ∙ ap (λ (n : ℕ). get_elem? (set r.buf i v) (place n r.head j))
                    (length-set r.buf i v)
                ∙ ap (λ (k : ℕ). get_elem? (set r.buf i v) (place (length r.buf) r.head k))
                    {y = r.size} (ground arith)
                ∙ get_elem?-set_self r.buf i v (ground arith)
                ∙ sym (get_elem?-snoc xs v j (ground (arith, holds.count)))
          ];
        },
        refl,
      )

  pub grow_lem :
      (r : EventRing A) (xs : List A)
      → IsRing r
      → Holds r xs
      → r.size ≡ length r.buf
      → r.size ≢ r.limit
      → IsRing (grow r) × Holds (grow r) xs × (r.size < length (grow r).buf)
  unfolding grow
  grow_lem r xs inv holds full more =
      let capacity : ℕ = min (max (2 * length r.buf) min_ring_growth) r.limit in
      let fresh : List A = replicate capacity r.unused in
      let enough : r.size < capacity = omega (arith, inv.fits, inv.bounded, inv.room) in
      let sized : length (copy_to r fresh) ≡ capacity =
        length-copy_to r fresh inv (omega (arith, length-replicate capacity r.unused))
        ∙ length-replicate capacity r.unused in
      (
        omega (arith, sized, inv.room),
        record {
          count = holds.count;
          entries = λ i lt.
              at_place (grow r) i
              ∙ ap (get_elem? (copy_to r fresh)) {y = i} (ground (arith, sized))
              ∙ get_elem?-copy_to r fresh i inv (omega (arith, length-replicate capacity r.unused))
                  lt
              ∙ holds.entries i lt;
        },
        omega (arith, sized),
      )

-- ===== src/Ring/Laws.antt =====
-- The contract of ring.go: from a well-formed ring, PushBack, DropFront and Slice never index out of range,
-- and act on what the ring holds as on a list.
use packetyeeter.Common.{
  ℕ, zero, suc, ◌+◌, ◌-◌, ◌≡◌, refl, inl, inr, Option, none, some, List, [], ◌∷◌, arith, length,
  get_elem?, set, drop, replicate, length-set, if◌then◌else◌, ltb, min, length-replicate,
  length-drop, get_elem?-drop, get_elem?-ext, ap, ◌∙◌, sym, Bool-cases, ◌==◌, nat_key, nat_beq_iff,
}
use packetyeeter.Common.Panic.{store-lt}
use packetyeeter.Ring.{
  EventRing, physical, at, push_back, grow, drop_each, drop_front, slice_out, copy_to,
}
use packetyeeter.Ring.View.{IsRing, Holds, length-copy_to, get_elem?-copy_to}
use packetyeeter.Ring.Refines.{
  bounded_push, Pushed, overwrite_oldest_lem, append_newest_lem, grow_lem, advance, at-advance,
}

module _ {ℓ} {A : Type ℓ} where
  -- From a well-formed ring that holds `xs`, PushBack succeeds with a well-formed ring of the same limit
  -- that holds `xs` and the new entry, without the oldest entry of `xs` if the ring was at its limit.
  pub push_back-Pushed :
      (r : EventRing A) (xs : List A) (v : A)
      → IsRing r
      → Holds r xs
      → Pushed r (bounded_push r xs v) (push_back r v)
  unfolding push_back
  push_back-Pushed r xs v inv holds = elim (Bool-cases (r.size == r.limit)) [
    | inl full ↦
        rw full (overwrite_oldest_lem r xs v inv holds ((nat_beq_iff r.size r.limit).0 full))
    | inr more ↦ elim (Bool-cases (r.size == length r.buf)) [
      | inl fills ↦
          let (inv', holds', room) =
            grow_lem r xs inv holds ((nat_beq_iff r.size (length r.buf)).0 fills) (ground arith) in
          rw (more, fills) (append_newest_lem (grow r) xs v inv' holds' room)
      | inr room ↦ rw (more, room) (append_newest_lem r xs v inv holds (ground (arith, inv.fits)))
    ]
  ]

  -- The loop of DropFront does not look at the size.
  abbrev pub shrink : EventRing A → ℕ → EventRing A
  shrink r s = record r { size = s }

  abbrev shrunk : Option (EventRing A) → ℕ → Option (EventRing A)
  shrunk none s = none
  shrunk (some r) s = some (shrink r s)

  drop_each-shrink :
      (n : ℕ) (r : EventRing A) (s : ℕ) → drop_each n (shrink r s) ≡ shrunk (drop_each n r) s
  unfolding drop_each
  drop_each-shrink zero r s = refl
  drop_each-shrink (suc n) r s = elim (Bool-cases (ltb r.head (length r.buf))) [
    | inl fits ↦ rw (fits) (
        drop_each-shrink n
          (record r {
            buf = set r.buf r.head r.unused;
            head = physical (record r { buf = set r.buf r.head r.unused }) 1;
          })
          s)
    | inr out ↦ rw out
  ]

  abbrev pub Dropped : EventRing A → List A → ℕ → ℕ → Option (EventRing A) → Type ℓ
  Dropped r xs n left out =
      (r' : EventRing A) × (out ≡ some r')
      × IsRing (shrink r' left)
      × Holds (shrink r' left) (drop n xs)
      × (r'.limit ≡ r.limit)

  drop-suc : (n : ℕ) (xs : List A) → drop n (drop 1 xs) ≡ drop (suc n) xs
  drop-suc zero [] = refl
  drop-suc (suc n) [] = refl
  drop-suc zero (x ∷ xs) = refl
  drop-suc (suc n) (x ∷ xs) = refl

  drop-min : (n : ℕ) (xs : List A) → drop (min n (length xs)) xs ≡ drop n xs
  drop-min zero xs = ap (λ (k : ℕ). drop k xs) {y = 0} (omega arith)
  drop-min (suc n) [] = ap (λ (k : ℕ). drop k []) {y = 0} (omega arith)
  drop-min (suc n) (x ∷ xs) =
      ap (λ (k : ℕ). drop k (x ∷ xs)) {y = suc (min n (length xs))} (omega arith) ∙ drop-min n xs

  pub drop_each_lem :
      (n left : ℕ) (r : EventRing A) (xs : List A)
      → IsRing r
      → Holds r xs
      → left + n ≡ r.size
      → Dropped r xs n left (drop_each n r)
  unfolding drop_each at physical
  drop_each_lem zero left r xs inv holds h =
      let same : left ≡ r.size = omega arith in rw same (r, refl, inv, holds, refl)
  drop_each_lem (suc n) left r xs inv holds h =
      let next : EventRing A = shrink (advance r r.unused) (left + n) in
      let (r', ran, inv', holds', same) =
        drop_each_lem n left next (drop 1 xs) (ground (arith, length-set r.buf r.head r.unused))
          (record {
            count = ground (arith, length-drop 1 xs, holds.count);
            entries = λ i lt.
                at-advance r r.unused i (omega arith) (omega arith)
                ∙ holds.entries (i + 1) (omega arith)
                ∙ ap (get_elem? xs) {y = 1 + i} (omega arith)
                ∙ sym (get_elem?-drop 1 i xs);
          })
          refl in
      (
        shrink r' r.size,
        rw (store-lt r.buf r.head r.unused (omega arith)) (
            drop_each-shrink n next r.size
            ∙ ap (λ (o : Option (EventRing A)). shrunk o r.size) ran),
        inv',
        rw (← drop-suc n xs) holds',
        same,
      )

  -- From a well-formed ring that holds `xs`, DropFront succeeds with a well-formed ring of the same limit
  -- that holds `xs` without its first n entries, or nothing if it has fewer.
  pub drop_front_lem :
      (r : EventRing A) (xs : List A) (n : ℕ)
      → IsRing r
      → Holds r xs
      → (r' : EventRing A) × (drop_front r n ≡ some r')
        × IsRing r'
        × Holds r' (drop n xs)
        × (r'.limit ≡ r.limit)
  unfolding drop_front at physical
  drop_front_lem r xs n inv holds =
      let left : ℕ = r.size - min n r.size in
      let (r', ran, inv', holds', same) =
        drop_each_lem (min n r.size) left r xs inv holds (omega arith) in
      let all_dropped : drop (min n r.size) xs ≡ drop n xs =
        ap (λ (k : ℕ). drop (min n k) xs) (sym holds.count) ∙ drop-min n xs in
      (
        record r' { size = left; head = if left == 0 then 0 else r'.head },
        rw ran,
        ground (arith, inv'.fits, inv'.head_in),
        record {
          count = ap length (sym all_dropped) ∙ holds'.count;
          entries = λ i lt. elim (Bool-cases (left == 0)) [
            | inl none_left ↦ absurd (ground arith)
            | inr some_left ↦ rw some_left (rw (← all_dropped) (holds'.entries i lt))
          ];
        },
        same,
      )

  -- Slice returns what a well-formed ring holds, oldest first.
  pub slice_out_lem : (r : EventRing A) (xs : List A) → IsRing r → Holds r xs → slice_out r ≡ xs
  unfolding slice_out
  slice_out_lem r xs inv holds =
      let sized : length (copy_to r (replicate r.size r.unused)) ≡ r.size =
        length-copy_to r (replicate r.size r.unused) inv
          (omega (arith, length-replicate r.size r.unused))
        ∙ length-replicate r.size r.unused in
      get_elem?-ext (copy_to r (replicate r.size r.unused)) xs (sized ∙ sym holds.count) (λ i lt.
        get_elem?-copy_to r (replicate r.size r.unused) i inv
          (omega (arith, length-replicate r.size r.unused)) (omega (arith, sized))
        ∙ holds.entries i (omega (arith, sized)))

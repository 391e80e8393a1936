-- ===== src/Ring/View.antt =====
-- What the ring holds, oldest first, and the invariant under which every index is in range.
use packetyeeter.Common.{
  ℕ, zero, suc, ◌+◌, ◌-◌, ◌≤◌, ◌<◌, ◌≡◌, refl, inl, inr, List, [], ◌∷◌, ◌++◌, arith, length,
  get_elem?, take, drop, ltb, leb, if◌then◌else◌, length-take, length-drop, length-append,
  get_elem?-take, get_elem?-drop, get_elem?-append_left, get_elem?-append_right, ap, ◌∙◌, sym,
  Bool-cases, ◌==◌, nat_key,
}
use packetyeeter.Ring.{EventRing, physical, at, new_event_ring, copy_to, copy, slice, copy_wrapped}

module _ {ℓ} {A : Type ℓ} where
  pub record IsRing (r : EventRing A) : Type 0 where
    pub room : 1 ≤ r.limit
    pub fits : r.size ≤ length r.buf
    pub bounded : length r.buf ≤ r.limit
    pub head_in : r.head ≤ length r.buf - 1

  pub new_event_ring-IsRing : (unused : A) (limit : ℕ) → IsRing (new_event_ring unused limit)
  unfolding new_event_ring
  new_event_ring-IsRing unused limit = omega arith

  -- The contents: entry i of the list is At(i).
  pub record Holds (r : EventRing A) (xs : List A) : Type ℓ where
    pub count : length xs ≡ r.size
    pub entries : (i : ℕ) → i < r.size → at r i ≡ get_elem? xs i

  length-copy : (dst src : List A) → length (copy dst src) ≡ length dst
  length-copy [] src = refl
  length-copy (d ∷ dst) [] = refl
  length-copy (d ∷ dst) (x ∷ src) = ap suc (length-copy dst src)

  get_elem?-copy :
      (i : ℕ) (dst src : List A)
      → i < length src
      → i < length dst
      → get_elem? (copy dst src) i ≡ get_elem? src i
  get_elem?-copy i [] src h k = absurd (omega arith)
  get_elem?-copy i (d ∷ dst) [] h k = absurd (omega arith)
  get_elem?-copy zero (d ∷ dst) (x ∷ src) h k = refl
  get_elem?-copy (suc i) (d ∷ dst) (x ∷ src) h k =
      get_elem?-copy i dst src (omega arith) (omega arith)

  length-slice : (buf : List A) (lo hi : ℕ) → hi ≤ length buf → length (slice buf lo hi) ≡ hi - lo
  length-slice buf lo hi h = omega (arith, length-take (hi - lo) (drop lo buf), length-drop lo buf)

  get_elem?-slice :
      (buf : List A) (lo hi i : ℕ)
      → i < hi - lo
      → get_elem? (slice buf lo hi) i ≡ get_elem? buf (lo + i)
  get_elem?-slice buf lo hi i h =
      get_elem?-take (hi - lo) i (drop lo buf) h ∙ get_elem?-drop lo i buf

  pub length-copy_to :
      (r : EventRing A) (dst : List A)
      → IsRing r
      → r.size ≤ length dst
      → length (copy_to r dst) ≡ length dst
  unfolding copy_to
  length-copy_to r dst v room = ground (
    arith,
    length-copy dst (slice r.buf r.head (r.head + r.size)),
    length-slice r.buf r.head (length r.buf),
    length-append
        (take (length (slice r.buf r.head (length r.buf)))
          (copy dst (slice r.buf r.head (length r.buf))))
        (copy (drop (length (slice r.buf r.head (length r.buf))) dst)
          (slice r.buf 0 (r.head + r.size - length r.buf))),
    length-take (length (slice r.buf r.head (length r.buf)))
        (copy dst (slice r.buf r.head (length r.buf))),
    length-copy dst (slice r.buf r.head (length r.buf)),
    length-copy (drop (length (slice r.buf r.head (length r.buf))) dst)
        (slice r.buf 0 (r.head + r.size - length r.buf)),
    length-drop (length (slice r.buf r.head (length r.buf))) dst,
  )

  -- The wrapped copy, over the head part `first` and the part that stands at the front.
  get_elem?-wrapped :
      (dst first front : List A) (i : ℕ)
      → length first ≤ length dst
      → i < length first + length front
      → i < length dst
      → get_elem? (take (length first) (copy dst first) ++ copy (drop (length first) dst) front) i
        ≡ (if ltb i (length first) then get_elem? first i else get_elem? front (i - length first))
  get_elem?-wrapped dst first front i fits h k =
      let head_part : List A = take (length first) (copy dst first) in
      let tail_part : List A = copy (drop (length first) dst) front in
      let head_length : length head_part ≡ length first =
        omega (arith, length-take (length first) (copy dst first), length-copy dst first) in
      elim (Bool-cases (ltb i (length first))) [
        | inl before ↦ rw before (
            get_elem?-append_left i _ _
              (ground (arith, length-take (length first) (copy dst first), length-copy dst first))
            ∙ get_elem?-take (length first) i (copy dst first) (ground arith)
            ∙ get_elem?-copy i dst first (ground arith) (ground arith))
        | inr after ↦ rw after (
            ap (get_elem? (head_part ++ tail_part)) {y = length head_part + (i - length first)}
              (ground (arith, head_length))
            ∙ get_elem?-append_right (i - length first) head_part tail_part
            ∙ get_elem?-copy (i - length first) (drop (length first) dst) front (ground arith)
                (ground (arith, length-drop (length first) dst)))
      ]

  pub physical-inside :
      (r : EventRing A) (i : ℕ) → r.head + i < length r.buf → physical r i ≡ r.head + i
  unfolding physical
  physical-inside r i h = ground arith

  pub physical-wrapped :
      (r : EventRing A) (i : ℕ)
      → length r.buf ≤ r.head + i
      → physical r i ≡ r.head + i - length r.buf
  unfolding physical
  physical-wrapped r i h = ground arith

  get_elem?-copy_wrapped :
      (r : EventRing A) (dst : List A) (i : ℕ)
      → IsRing r
      → r.size ≤ length dst
      → i < r.size
      → length r.buf < r.head + r.size
      → get_elem? (copy_wrapped r dst (slice r.buf r.head (length r.buf))) i ≡ at r i
  unfolding at
  get_elem?-copy_wrapped r dst i v room h wraps =
      let front : List A = slice r.buf 0 (r.head + r.size - length r.buf) in
      let first : List A = slice r.buf r.head (length r.buf) in
      let first_length : length first ≡ length r.buf - r.head =
        length-slice r.buf r.head (length r.buf) (omega arith) in
      let front_length : length front ≡ r.head + r.size - length r.buf - 0 =
        length-slice r.buf 0 (r.head + r.size - length r.buf) (omega arith) in
      get_elem?-wrapped dst first front i (omega arith) (omega arith) (omega arith)
      ∙ elim (Bool-cases (ltb i (length first))) [
        | inl before ↦ rw before (
            get_elem?-slice r.buf r.head (length r.buf) i (ground arith)
            ∙ ap (get_elem? r.buf) (sym (physical-inside r i (ground arith))))
        | inr after ↦ rw after (
            get_elem?-slice r.buf 0 (r.head + r.size - length r.buf) (i - length first)
              (ground arith)
            ∙ ap (get_elem? r.buf) {y = physical r i} (ground (arith, physical-wrapped r i)))
      ]

  pub get_elem?-copy_to :
      (r : EventRing A) (dst : List A) (i : ℕ)
      → IsRing r
      → r.size ≤ length dst
      → i < r.size
      → get_elem? (copy_to r dst) i ≡ at r i
  unfolding copy_to at
  get_elem?-copy_to r dst i v room h = elim (Bool-cases (r.size == 0)) [
    | inl empty ↦ absurd (ground arith)
    | inr some_left ↦ elim (Bool-cases (leb (r.head + r.size) (length r.buf))) [
      | inl straight ↦
          rw (some_left, straight)
            (get_elem?-copy i dst (slice r.buf r.head (r.head + r.size))
                (ground (arith, length-slice r.buf r.head (r.head + r.size))) (omega arith)
              ∙ get_elem?-slice r.buf r.head (r.head + r.size) i (omega arith)
              ∙ ap (get_elem? r.buf) (sym (physical-inside r i (ground arith))))
      | inr wraps ↦ rw (some_left, wraps) (get_elem?-copy_wrapped r dst i v room h (ground arith))
    ]
  ]

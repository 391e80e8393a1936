-- ===== src/Ring.antt =====
-- pkg/analyzer/aidetection/ring.go: a ring buffer that grows up to a limit and then overwrites its oldest
-- entry. An index out of range, which panics in Go, is `none`.
pub mod View
pub mod Refines
pub mod Laws
mod Tests
use packetyeeter.Common.{
  ℕ, zero, suc, ◌+◌, ◌-◌, ◌*◌, min, max, Bool, Option, none, some, List, [], ◌∷◌, ◌++◌,
  if◌then◌else◌, ltb, leb, length, get_elem?, set, take, drop, replicate, ◌==◌, nat_key,
}
use packetyeeter.Common.Panic.{◌>>=◌, store}

abbrev pub min_ring_growth : ℕ
min_ring_growth = 8

-- `unused` is the zero value of the element type.
pub record EventRing {ℓ} (A : Type ℓ) : Type ℓ where
  pub buf : List A
  pub head : ℕ
  pub size : ℕ
  pub limit : ℕ
  pub unused : A

module _ {ℓ} {A : Type ℓ} where
  pub new_event_ring : A → ℕ → EventRing A
  new_event_ring unused limit = record {
    buf = [];
    head = 0;
    size = 0;
    limit = max limit 1;
    unused = unused;
  }

  unfoldable pub physical : EventRing A → ℕ → ℕ
  physical r i = if leb (length r.buf) (r.head + i) then r.head + i - length r.buf else r.head + i

  unfoldable pub at : EventRing A → ℕ → Option A
  unfolding physical
  at r i = get_elem? r.buf (physical r i)

  -- copy(dst, src): the elements that fit are overwritten.
  abbrev pub copy : List A → List A → List A
  copy [] src = []
  copy (d ∷ dst) [] = d ∷ dst
  copy (d ∷ dst) (x ∷ src) = x ∷ copy dst src

  -- buf[lo:hi]
  abbrev pub slice : List A → ℕ → ℕ → List A
  slice buf lo hi = take (hi - lo) (drop lo buf)

  -- The wrapped contents: what stands from the head to the end, then what wraps to the front.
  abbrev pub copy_wrapped : EventRing A → List A → List A → List A
  copy_wrapped r dst first =
      take (length first) (copy dst first)
      ++ copy (drop (length first) dst) (slice r.buf 0 (r.head + r.size - length r.buf))

  -- copyTo: the destination after the copy.
  pub copy_to : EventRing A → List A → List A
  copy_to r dst =
      if r.size == 0
      then dst
      else if leb (r.head + r.size) (length r.buf)
      then copy dst (slice r.buf r.head (r.head + r.size))
      else copy_wrapped r dst (slice r.buf r.head (length r.buf))

  pub grow : EventRing A → EventRing A
  unfolding copy_to
  grow r =
      let capacity = min (max (2 * length r.buf) min_ring_growth) r.limit in
      record r { buf = copy_to r (replicate capacity r.unused); head = 0 }

  -- The full ring overwrites its oldest entry.
  abbrev overwrite_oldest : EventRing A → A → Option (EventRing A)
  overwrite_oldest r v = do
    buf ← store r.buf r.head v
    some (record r { buf = buf; head = physical (record r { buf = buf }) 1 })

  abbrev append_newest : EventRing A → A → Option (EventRing A)
  append_newest r v = do
    buf ← store r.buf (physical r r.size) v
    some (record r { buf = buf; size = r.size + 1 })

  unfoldable pub push_back : EventRing A → A → Option (EventRing A)
  unfolding physical grow
  push_back r v =
      if r.size == r.limit
      then overwrite_oldest r v
      else if r.size == length r.buf
      then append_newest (grow r) v
      else append_newest r v

  -- The loop of DropFront.
  unfoldable pub drop_each : ℕ → EventRing A → Option (EventRing A)
  unfolding physical
  drop_each zero r = some r
  drop_each (suc n) r = do
    buf ← store r.buf r.head r.unused
    drop_each n (record r { buf = buf; head = physical (record r { buf = buf }) 1 })

  pub drop_front : EventRing A → ℕ → Option (EventRing A)
  unfolding drop_each
  drop_front r n = do
    r' ← drop_each (min n r.size) r
    some (record r' {
      size = r.size - min n r.size;
      head = if r.size - min n r.size == 0 then 0 else r'.head;
    })

  pub slice_out : EventRing A → List A
  unfolding copy_to
  slice_out r = copy_to r (replicate r.size r.unused)

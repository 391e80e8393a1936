-- ===== src/Fingerprints/Grouped.antt =====
-- The destinations that selectTopFingerprints groups the fingerprints by.
use packetyeeter.Common.{
  ℕ, ◌+◌, ◌%◌, ◌^◌, ◌≡◌, ◌≢◌, refl, sym, inl, inr, List, [], ◌∷◌, ◌++◌, arith, if◌then◌else◌, All,
  All-append, Bool-cases, ◌==◌,
}
use packetyeeter.Common.Sort.{sort, insert, All-sort, All-insert}
use packetyeeter.Common.Sums.{sum, sum-append}
use packetyeeter.Fingerprints.Types.{Fingerprint, bytes_key}
use packetyeeter.Fingerprints.Top.{FpDest, dest_key, add_bucket, by_dest, dest_before}

-- `weight` for the fingerprints of a destination alone.
abbrev pub of_dest : (Fingerprint → ℕ) → List ℕ → Fingerprint → ℕ
of_dest weight k f = if dest_key f == k then weight f else 0

pub of_dest-all :
    (weight : Fingerprint → ℕ) (k : List ℕ) (xs : List Fingerprint)
    → All (λ f. dest_key f ≡ k) xs
    → sum (of_dest weight k) xs ≡ sum weight xs
of_dest-all weight k [] h = refl
of_dest-all weight k (f ∷ xs) h =
    ground (arith, (bytes_key.same_iff (dest_key f) k).1 h.0, of_dest-all weight k xs h.1)

pub of_dest-none :
    (weight : Fingerprint → ℕ) (k : List ℕ) (xs : List Fingerprint)
    → All (λ f. dest_key f ≢ k) xs
    → sum (of_dest weight k) xs ≡ 0
of_dest-none weight k [] h = refl
of_dest-none weight k (f ∷ xs) h = elim (Bool-cases (dest_key f == k)) [
  | inl same ↦ absurd (h.0 ((bytes_key.same_iff (dest_key f) k).0 same))
  | inr other ↦ rw other (omega (arith, of_dest-none weight k xs h.1))
]

abbrev pub packets_of : Fingerprint → ℕ
packets_of f = f.packets

-- The fingerprints of a destination are its own, and it has their packets.
abbrev pub IsDest : FpDest → Type 0
IsDest d = All (λ f. dest_key f ≡ d.key) d.buckets × (d.packets ≡ sum packets_of d.buckets % 2 ^ 64)

abbrev pub IsApart : List ℕ → List FpDest → Type 0
IsApart k dests = All (λ d. d.key ≢ k) dests

-- No two destinations have one key.
abbrev pub AreApart : List FpDest → Type 0
AreApart [] = Unit
AreApart (d ∷ dests) = IsApart d.key dests × AreApart dests

abbrev pub buckets_of : List FpDest → List Fingerprint
buckets_of [] = []
buckets_of (d ∷ dests) = d.buckets ++ buckets_of dests

add_bucket-IsDest :
    (fp : Fingerprint) (dests : List FpDest) → All IsDest dests → All IsDest (add_bucket fp dests)
unfolding add_bucket
add_bucket-IsDest fp [] h = (((refl, tt), omega arith), tt)
add_bucket-IsDest fp (d ∷ dests) h = elim (Bool-cases (d.key == dest_key fp)) [
  | inl same ↦ rw same (
    (
      All-append (λ f. dest_key f ≡ d.key) d.buckets (fp ∷ []) h.0.0
          (sym ((bytes_key.same_iff d.key (dest_key fp)).0 same), tt),
      omega (arith, h.0.1, sum-append packets_of d.buckets (fp ∷ [])),
    ),
    h.1,
  )
  | inr other ↦ rw other (h.0, add_bucket-IsDest fp dests h.1)
]

add_bucket-IsApart :
    (k : List ℕ) (fp : Fingerprint) (dests : List FpDest)
    → dest_key fp ≢ k
    → IsApart k dests
    → IsApart k (add_bucket fp dests)
unfolding add_bucket
add_bucket-IsApart k fp [] n h = (n, tt)
add_bucket-IsApart k fp (d ∷ dests) n h = elim (Bool-cases (d.key == dest_key fp)) [
  | inl same ↦ rw same h
  | inr other ↦ rw other (h.0, add_bucket-IsApart k fp dests n h.1)
]

add_bucket-AreApart :
    (fp : Fingerprint) (dests : List FpDest) → AreApart dests → AreApart (add_bucket fp dests)
unfolding add_bucket
add_bucket-AreApart fp [] h = (tt, tt)
add_bucket-AreApart fp (d ∷ dests) h = elim (Bool-cases (d.key == dest_key fp)) [
  | inl same ↦ rw same h
  | inr other ↦
      let apart : dest_key fp ≢ d.key =
        λ e. ground (arith, (bytes_key.same_iff d.key (dest_key fp)).1 (sym e)) in
      rw other (add_bucket-IsApart d.key fp dests apart h.0, add_bucket-AreApart fp dests h.1)
]

add_bucket-sum :
    (weight : Fingerprint → ℕ) (fp : Fingerprint) (dests : List FpDest)
    → sum weight (buckets_of (add_bucket fp dests)) ≡ weight fp + sum weight (buckets_of dests)
unfolding add_bucket
add_bucket-sum weight fp [] = refl
add_bucket-sum weight fp (d ∷ dests) = elim (Bool-cases (d.key == dest_key fp)) [
  | inl same ↦ rw same (
      omega (
        arith,
        sum-append weight (d.buckets ++ fp ∷ []) (buckets_of dests),
        sum-append weight d.buckets (fp ∷ []),
        sum-append weight d.buckets (buckets_of dests),
      ))
  | inr other ↦ rw other (
      omega (
        arith,
        sum-append weight d.buckets (buckets_of (add_bucket fp dests)),
        sum-append weight d.buckets (buckets_of dests),
        add_bucket-sum weight fp dests,
      ))
]

-- What holds of the destinations of some fingerprints.
pub record AreDests (fps : List Fingerprint) (dests : List FpDest) : Type 0 where
  pub own : All IsDest dests
  pub apart : AreApart dests
  pub sums : (weight : Fingerprint → ℕ) → sum weight (buckets_of dests) ≡ sum weight fps

by_dest-own :
    (fps : List Fingerprint) (dests : List FpDest)
    → All IsDest dests
    → All IsDest (by_dest fps dests)
unfolding by_dest
by_dest-own [] dests h = h
by_dest-own (fp ∷ fps) dests h =
    by_dest-own fps (add_bucket fp dests) (add_bucket-IsDest fp dests h)

by_dest-apart :
    (fps : List Fingerprint) (dests : List FpDest) → AreApart dests → AreApart (by_dest fps dests)
unfolding by_dest
by_dest-apart [] dests h = h
by_dest-apart (fp ∷ fps) dests h =
    by_dest-apart fps (add_bucket fp dests) (add_bucket-AreApart fp dests h)

by_dest-sum :
    (weight : Fingerprint → ℕ) (fps : List Fingerprint) (dests : List FpDest)
    → sum weight (buckets_of (by_dest fps dests)) ≡ sum weight fps + sum weight (buckets_of dests)
unfolding by_dest
by_dest-sum weight [] dests = omega arith
by_dest-sum weight (fp ∷ fps) dests =
    omega (arith, by_dest-sum weight fps (add_bucket fp dests), add_bucket-sum weight fp dests)

insert-AreApart :
    (d : FpDest) (dests : List FpDest)
    → IsApart d.key dests
    → AreApart dests
    → AreApart (insert dest_before d dests)
unfolding insert
insert-AreApart d [] n h = (tt, tt)
insert-AreApart d (x ∷ dests) n h = elim (Bool-cases (dest_before x d)) [
  | inl earlier ↦ rw earlier (
    All-insert dest_before (λ e. e.key ≢ x.key) d dests (λ e. n.0 (sym e)) h.0,
    insert-AreApart d dests n.1 h.1,
  )
  | inr later ↦ rw later (n, h)
]

sort-AreApart : (dests : List FpDest) → AreApart dests → AreApart (sort dest_before dests)
unfolding sort
sort-AreApart [] h = tt
sort-AreApart (d ∷ dests) h =
    insert-AreApart d (sort dest_before dests) (All-sort dest_before (λ e. e.key ≢ d.key) dests h.0)
      (sort-AreApart dests h.1)

insert-sum :
    (weight : Fingerprint → ℕ) (d : FpDest) (dests : List FpDest)
    → sum weight (buckets_of (insert dest_before d dests))
      ≡ sum weight d.buckets + sum weight (buckets_of dests)
unfolding insert
insert-sum weight d [] = sum-append weight d.buckets []
insert-sum weight d (x ∷ dests) = elim (Bool-cases (dest_before x d)) [
  | inl earlier ↦ rw earlier (
      omega (
        arith,
        sum-append weight x.buckets (buckets_of (insert dest_before d dests)),
        sum-append weight x.buckets (buckets_of dests),
        insert-sum weight d dests,
      ))
  | inr later ↦ rw later (sum-append weight d.buckets (buckets_of (x ∷ dests)))
]

sort-sum :
    (weight : Fingerprint → ℕ) (dests : List FpDest)
    → sum weight (buckets_of (sort dest_before dests)) ≡ sum weight (buckets_of dests)
unfolding sort
sort-sum weight [] = refl
sort-sum weight (d ∷ dests) = omega (
  arith,
  insert-sum weight d (sort dest_before dests),
  sort-sum weight dests,
  sum-append weight d.buckets (buckets_of dests),
)

pub sorted-AreDests : (fps : List Fingerprint) → AreDests fps (sort dest_before (by_dest fps []))
sorted-AreDests fps = record {
  own = All-sort dest_before IsDest (by_dest fps []) (by_dest-own fps [] tt);
  apart = sort-AreApart (by_dest fps []) (by_dest-apart fps [] tt);
  sums = λ weight. omega (arith, sort-sum weight (by_dest fps []), by_dest-sum weight fps []);
}

-- ===== src/Fingerprints/Trimmed.antt =====
-- What selectTopFingerprints keeps and trims of the destinations that stay.
use packetyeeter.Common.{
  ℕ, zero, suc, ◌+◌, ◌*◌, ◌%◌, ◌^◌, ◌≤◌, ◌≡◌, ◌≢◌, sym, ◌∙◌, subst, ◌++◌, refl, All-append, inl,
  inr, List, [], ◌∷◌, arith, length, take, drop, length-append, length-take, All, All-map_imp,
  Bool-cases, ◌==◌,
}
use packetyeeter.Common.Sort.{sort, All-sort, insert, length-sort, IsSorted, IsOrder}
use packetyeeter.Common.Sums.{sum, sum-append, sum-take, sum-sort}
use packetyeeter.Common.Text.{codes-IsOrder}
use packetyeeter.Fingerprints.Types.{Fingerprint, bytes_key}
use packetyeeter.Fingerprints.Top.{
  FpDest, dest_key, add_bucket, by_dest, dest_before, fingerprint_before, tie_codes, count_buckets,
  keep_top,
}
use packetyeeter.Fingerprints.Grouped.{
  of_dest, of_dest-all, of_dest-none, packets_of, IsDest, IsApart, AreApart, buckets_of,
}

count_buckets-add :
    (fp : Fingerprint) (dests : List FpDest)
    → count_buckets (add_bucket fp dests) ≡ count_buckets dests + 1
unfolding add_bucket count_buckets
count_buckets-add fp [] = omega arith
count_buckets-add fp (d ∷ dests) = elim (Bool-cases (d.key == dest_key fp)) [
  | inl same ↦ rw same (omega (arith, length-append d.buckets (fp ∷ [])))
  | inr other ↦ rw other (omega (arith, count_buckets-add fp dests))
]

pub count_buckets-by_dest :
    (fps : List Fingerprint) (dests : List FpDest)
    → count_buckets (by_dest fps dests) ≡ count_buckets dests + length fps
unfolding by_dest
count_buckets-by_dest [] dests = omega arith
count_buckets-by_dest (fp ∷ fps) dests =
    omega (arith, count_buckets-by_dest fps (add_bucket fp dests), count_buckets-add fp dests)

count_buckets-insert :
    (d : FpDest) (dests : List FpDest)
    → count_buckets (insert dest_before d dests) ≡ length d.buckets + count_buckets dests
unfolding insert count_buckets
count_buckets-insert d [] = refl
count_buckets-insert d (x ∷ dests) = elim (Bool-cases (dest_before x d)) [
  | inl earlier ↦ rw earlier (omega (arith, count_buckets-insert d dests))
  | inr later ↦ rw later refl
]

pub count_buckets-sort :
    (dests : List FpDest) → count_buckets (sort dest_before dests) ≡ count_buckets dests
unfolding sort count_buckets
count_buckets-sort [] = refl
count_buckets-sort (d ∷ dests) =
    omega (arith, count_buckets-insert d (sort dest_before dests), count_buckets-sort dests)

pub count_buckets-take-drop :
    (n : ℕ) (dests : List FpDest)
    → count_buckets (take n dests) + count_buckets (drop n dests) ≡ count_buckets dests
unfolding count_buckets
count_buckets-take-drop zero dests = omega arith
count_buckets-take-drop (suc n) [] = omega arith
count_buckets-take-drop (suc n) (d ∷ dests) = omega (arith, count_buckets-take-drop n dests)

pub keep_top-cut :
    (top : ℕ) (dests : List FpDest)
    → length (keep_top top dests).0 + (keep_top top dests).1 ≡ count_buckets dests
unfolding keep_top count_buckets
keep_top-cut top [] = omega arith
keep_top-cut top (d ∷ dests) =
    let sorted = sort fingerprint_before d.buckets in
    omega (
      arith,
      keep_top-cut top dests,
      length-append (take top sorted) (keep_top top dests).0,
      length-take top sorted,
      length-sort fingerprint_before d.buckets,
    )

pub keep_top-bound :
    (top : ℕ) (dests : List FpDest) → length (keep_top top dests).0 ≤ length dests * top
unfolding keep_top
keep_top-bound top [] = omega arith
keep_top-bound top (d ∷ dests) =
    let sorted = sort fingerprint_before d.buckets in
    omega (
      arith,
      keep_top-bound top dests,
      length-append (take top sorted) (keep_top top dests).0,
      length-take top sorted,
    )

pub dest-IsOrder : IsOrder dest_before
dest-IsOrder = record {
  asym = λ x y h. ground (arith, codes-IsOrder.asym x.key y.key);
  trans = λ x y z h k. ground (arith, codes-IsOrder.trans x.key y.key z.key);
}

pub mul_mono : (a b n : ℕ) → a ≤ b → a * n ≤ b * n
mul_mono zero b n h = omega arith
mul_mono (suc a) zero n h = absurd (omega (arith, h))
mul_mono (suc a) (suc b) n h = omega (arith, mul_mono a b n (omega (arith, h)))

pub fingerprint-IsOrder : IsOrder fingerprint_before
fingerprint-IsOrder = record {
  asym = λ x y h. ground (arith, codes-IsOrder.asym (tie_codes x.key) (tie_codes y.key));
  trans = λ x y z h k.
      ground (arith, codes-IsOrder.trans (tie_codes x.key) (tie_codes y.key) (tie_codes z.key));
}

pub All-dropped {ℓ} :
    {A : Type ℓ} (P : A → Type 0) (n : ℕ) (xs : List A) → All P xs → All P (drop n xs)
All-dropped P zero xs a = a
All-dropped P (suc n) [] a = tt
All-dropped P (suc n) (x ∷ xs) a = All-dropped P n xs a.1

pub All-taken {ℓ} :
    {A : Type ℓ} (P : A → Type 0) (n : ℕ) (xs : List A) → All P xs → All P (take n xs)
All-taken P zero xs a = tt
All-taken P (suc n) [] a = tt
All-taken P (suc n) (x ∷ xs) a = (a.0, All-taken P n xs a.1)

pub All-both {ℓ} :
    {A : Type ℓ} (P Q : A → Type 0) (ys : List A) → All P ys → All Q ys → All (λ y. P y × Q y) ys
All-both P Q [] p q = tt
All-both P Q (y ∷ ys) p q = ((p.0, q.0), All-both P Q ys p.1 q.1)

pub All-unit {ℓ} : {A : Type ℓ} (ys : List A) → All (λ y. Unit {0}) ys
All-unit [] = tt
All-unit (y ∷ ys) = (tt, All-unit ys)

-- In the sorted buckets of a destination, nothing that is dropped has more packets than what is taken.
pub busiest-first :
    (n : ℕ) (xs : List Fingerprint)
    → IsSorted fingerprint_before xs
    → All (λ y. All (λ x. y.packets ≤ x.packets) (take n xs)) (drop n xs)
busiest-first zero xs h = All-unit xs
busiest-first (suc n) [] h = tt
busiest-first (suc n) (x ∷ xs) h =
    All-both (λ y. y.packets ≤ x.packets) (λ y. All (λ z. y.packets ≤ z.packets) (take n xs))
      (drop n xs)
      (All-dropped (λ y. y.packets ≤ x.packets) n xs
        (All-map_imp _ (λ y. y.packets ≤ x.packets) (λ y q. ground (arith, q)) xs h.0))
      (busiest-first n xs h.1)

-- What the loop trims: the buckets of a destination that stays after its top ones.
abbrev pub trimmed : ℕ → List FpDest → List Fingerprint
trimmed top [] = []
trimmed top (d ∷ dests) = drop top (sort fingerprint_before d.buckets) ++ trimmed top dests

-- How many fingerprints of a destination a list has, and their packets as a uint64.
abbrev pub count_of : List ℕ → List Fingerprint → ℕ
count_of k xs = sum (of_dest (λ f. 1) k) xs

abbrev pub load_of : List ℕ → List Fingerprint → ℕ
load_of k fps = sum (of_dest packets_of k) fps % 2 ^ 64

pub sum-ones : (xs : List Fingerprint) → sum (λ f. 1) xs ≡ length xs
sum-ones [] = refl
sum-ones (x ∷ xs) = omega (arith, sum-ones xs)

pub keep_top-sum :
    (weight : Fingerprint → ℕ) (top : ℕ) (dests : List FpDest)
    → sum weight (keep_top top dests).0 + sum weight (trimmed top dests)
      ≡ sum weight (buckets_of dests)
unfolding keep_top
keep_top-sum weight top [] = refl
keep_top-sum weight top (d ∷ dests) =
    let sorted = sort fingerprint_before d.buckets in
    omega (
      arith,
      sum-append weight (take top sorted) (keep_top top dests).0,
      sum-append weight (drop top sorted) (trimmed top dests),
      sum-append weight d.buckets (buckets_of dests),
      sum-take weight top sorted,
      sum-sort weight fingerprint_before d.buckets,
      keep_top-sum weight top dests,
    )

pub take-drop-sum :
    (weight : Fingerprint → ℕ) (n : ℕ) (dests : List FpDest)
    → sum weight (buckets_of (take n dests)) + sum weight (buckets_of (drop n dests))
      ≡ sum weight (buckets_of dests)
take-drop-sum weight zero dests = omega arith
take-drop-sum weight (suc n) [] = refl
take-drop-sum weight (suc n) (d ∷ dests) = omega (
  arith,
  sum-append weight d.buckets (buckets_of (take n dests)),
  sum-append weight d.buckets (buckets_of dests),
  take-drop-sum weight n dests,
)

-- What holds of all buckets of the destinations holds of what is kept and of what is trimmed.
pub All-keep_top :
    (P : Fingerprint → Type 0) (top : ℕ) (dests : List FpDest)
    → All (λ d. All P d.buckets) dests
    → All P (keep_top top dests).0 × All P (trimmed top dests)
unfolding keep_top
All-keep_top P top [] h = (tt, tt)
All-keep_top P top (d ∷ dests) h =
    let sorted = sort fingerprint_before d.buckets in
    let all : All P sorted = All-sort fingerprint_before P d.buckets h.0 in
    let more = All-keep_top P top dests h.1 in
    (
      All-append P (take top sorted) (keep_top top dests).0 (All-taken P top sorted all) more.0,
      All-append P (drop top sorted) (trimmed top dests) (All-dropped P top sorted all) more.1,
    )

pub All-buckets_of :
    (P : Fingerprint → Type 0) (dests : List FpDest)
    → All (λ d. All P d.buckets) dests
    → All P (buckets_of dests)
All-buckets_of P [] h = tt
All-buckets_of P (d ∷ dests) h =
    All-append P d.buckets (buckets_of dests) h.0 (All-buckets_of P dests h.1)

-- The fingerprints of other destinations are not of the destination `k`.
pub others :
    (k : List ℕ) (dests : List FpDest)
    → All IsDest dests
    → IsApart k dests
    → All (λ d. All (λ f. dest_key f ≢ k) d.buckets) dests
others k [] own apart = tt
others k (d ∷ dests) own apart = (
  All-map_imp (λ f. dest_key f ≡ d.key) (λ f. dest_key f ≢ k) (λ f e q. apart.0 (sym e ∙ q))
      d.buckets own.0.0,
  others k dests own.1 apart.1,
)

-- At most the top fingerprints of a destination are kept.
pub count_of-keep_top :
    (k : List ℕ) (top : ℕ) (dests : List FpDest)
    → All IsDest dests
    → AreApart dests
    → count_of k (keep_top top dests).0 ≤ top
unfolding keep_top
count_of-keep_top k top [] own apart = omega arith
count_of-keep_top k top (d ∷ dests) own apart =
    let sorted = sort fingerprint_before d.buckets in
    let mine : All (λ f. dest_key f ≡ d.key) (take top sorted) =
      All-taken _ top sorted (All-sort fingerprint_before _ d.buckets own.0.0) in
    let split = sum-append (of_dest (λ f. 1) k) (take top sorted) (keep_top top dests).0 in
    elim (Bool-cases (d.key == k)) [
      | inl same ↦
          let is_k : d.key ≡ k = (bytes_key.same_iff d.key k).0 same in
          let rest =
            of_dest-none (λ f. 1) k (keep_top top dests).0
              (All-keep_top _ top dests
                (others k dests own.1 (subst (λ j. IsApart j dests) is_k apart.0))).0 in
          let here =
            of_dest-all (λ f. 1) k (take top sorted)
              (All-map_imp _ (λ f. dest_key f ≡ k) (λ f e. e ∙ is_k) (take top sorted) mine) in
          omega (arith, split, rest, here, sum-ones (take top sorted), length-take top sorted)
      | inr other ↦
          let none_here =
            of_dest-none (λ f. 1) k (take top sorted)
              (All-map_imp _ (λ f. dest_key f ≢ k)
                (λ f e q. ground (arith, other, (bytes_key.same_iff d.key k).1 (sym e ∙ q)))
                (take top sorted) mine) in
          omega (arith, split, none_here, count_of-keep_top k top dests own.1 apart.1)
    ]

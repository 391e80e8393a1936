-- ===== src/Fingerprints/Selected.antt =====
-- The selection of the top fingerprints keeps the busiest of each destination, and the busiest destinations.
use packetyeeter.Common.{
  ℕ, zero, suc, ◌+◌, ◌*◌, ◌%◌, ◌^◌, ◌≤◌, ◌<◌, ◌≡◌, ◌≢◌, refl, sym, ap, ◌∙◌, subst, List, [], ◌∷◌,
  ◌++◌, arith, length, take, drop, length-take, All, All-append, All-map_imp,
}
use packetyeeter.Common.Sort.{sort, All-sort, sort-IsSorted, IsSorted}
use packetyeeter.Common.Sums.{sum, sum-append}
use packetyeeter.Fingerprints.Types.{Fingerprint, bytes_key}
use packetyeeter.Fingerprints.Top.{
  FpDest, dest_key, by_dest, dest_before, fingerprint_before, keep_top, count_buckets,
  select_top_fingerprints,
}
use packetyeeter.Fingerprints.Grouped.{
  of_dest, of_dest-all, of_dest-none, packets_of, IsDest, IsApart, AreApart, buckets_of, AreDests,
  sorted-AreDests,
}
use packetyeeter.Fingerprints.Trimmed.{
  keep_top-cut, keep_top-bound, count_buckets-by_dest, count_buckets-sort, count_buckets-take-drop,
  dest-IsOrder, mul_mono, fingerprint-IsOrder, All-both, All-unit, All-dropped, All-taken,
  busiest-first, trimmed, count_of, load_of, sum-ones, keep_top-sum, take-drop-sum, All-keep_top,
  All-buckets_of, others, count_of-keep_top,
}

-- A fingerprint that is trimmed: the top of its destination are kept, and none of those has fewer packets.
abbrev pub IsTrimmed : ℕ → List Fingerprint → Fingerprint → Type 0
IsTrimmed top kept y =
    (count_of (dest_key y) kept ≡ top)
    × All (λ x. dest_key x ≡ dest_key y → y.packets ≤ x.packets) kept

full_when_dropped : (n : ℕ) (xs : List Fingerprint) → All (λ y. n < length xs) (drop n xs)
full_when_dropped zero [] = tt
full_when_dropped zero (x ∷ xs) = All-map_imp _ _ (λ y u. omega arith) (x ∷ xs) (All-unit (x ∷ xs))
full_when_dropped (suc n) [] = tt
full_when_dropped (suc n) (x ∷ xs) =
    All-map_imp (λ y. n < length xs) (λ y. suc n < length (x ∷ xs)) (λ y h. omega (arith, h))
      (drop n xs) (full_when_dropped n xs)

trimmed-IsTrimmed :
    (top : ℕ) (dests : List FpDest)
    → All IsDest dests
    → AreApart dests
    → All (IsTrimmed top (keep_top top dests).0) (trimmed top dests)
unfolding keep_top
trimmed-IsTrimmed top [] own apart = tt
trimmed-IsTrimmed top (d ∷ dests) own apart =
    let sorted = sort fingerprint_before d.buckets in
    let here = take top sorted in
    let kept = (keep_top top dests).0 in
    let mine : All (λ f. dest_key f ≡ d.key) sorted =
      All-sort fingerprint_before _ d.buckets own.0.0 in
    let mine_here : All (λ f. dest_key f ≡ d.key) here = All-taken _ top sorted mine in
    let (not_kept, not_trimmed) =
      All-keep_top (λ f. dest_key f ≢ d.key) top dests (others d.key dests own.1 apart.0) in
    All-append _ (drop top sorted) (trimmed top dests)
      (All-map_imp
        (λ y.
          (dest_key y ≡ d.key) × ((top < length sorted) × All (λ x. y.packets ≤ x.packets) here))
        (IsTrimmed top (here ++ kept))
        (λ y h.
          let none_other =
            of_dest-none (λ f. 1) (dest_key y) kept
              (All-map_imp _ (λ f. dest_key f ≢ dest_key y) (λ f n e. n (e ∙ h.0)) kept not_kept) in
          let all_here =
            of_dest-all (λ f. 1) (dest_key y) here
              (All-map_imp _ (λ f. dest_key f ≡ dest_key y) (λ f e. e ∙ sym h.0) here mine_here) in
          (
            omega (
              arith,
              sum-append (of_dest (λ f. 1) (dest_key y)) here kept,
              none_other,
              all_here,
              sum-ones here,
              length-take top sorted,
              h.1.0,
            ),
            All-append (λ x. dest_key x ≡ dest_key y → y.packets ≤ x.packets) here kept
                (All-map_imp (λ x. y.packets ≤ x.packets) _ (λ x le e. le) here h.1.1)
                (All-map_imp _ _ (λ x n e. absurd (n (e ∙ h.0))) kept not_kept),
          ))
        (drop top sorted)
        (All-both _ _ (drop top sorted) (All-dropped _ top sorted mine) (
          All-both _ _ (drop top sorted) (full_when_dropped top sorted) (
            busiest-first top sorted
              (sort-IsSorted fingerprint_before fingerprint-IsOrder d.buckets)))))
      (All-map_imp (λ y. (dest_key y ≢ d.key) × IsTrimmed top kept y) (IsTrimmed top (here ++ kept))
        (λ y h.
          let none_here =
            of_dest-none (λ f. 1) (dest_key y) here
              (All-map_imp _ (λ f. dest_key f ≢ dest_key y) (λ f e q. h.0 (sym q ∙ e)) here
                mine_here) in
          (
            omega (arith, sum-append (of_dest (λ f. 1) (dest_key y)) here kept, none_here, h.1.0),
            All-append (λ x. dest_key x ≡ dest_key y → y.packets ≤ x.packets) here kept
                (All-map_imp _ _ (λ x e q. absurd (h.0 (sym q ∙ e))) here mine_here) h.1.1,
          ))
        (trimmed top dests)
        (All-both _ _ (trimmed top dests) not_trimmed (trimmed-IsTrimmed top dests own.1 apart.1)))

-- No destination that is dropped is one that stays.
drop-IsApart :
    (n : ℕ) (dests : List FpDest)
    → AreApart dests
    → All (λ e. IsApart e.key (take n dests)) (drop n dests)
drop-IsApart zero dests h = All-unit dests
drop-IsApart (suc n) [] h = tt
drop-IsApart (suc n) (d ∷ dests) h =
    All-map_imp (λ e. (e.key ≢ d.key) × IsApart e.key (take n dests)) _
      (λ e p. ((λ q. p.0 (sym q)), p.1)) (drop n dests)
      (All-both _ _ (drop n dests) (All-dropped (λ e. e.key ≢ d.key) n dests h.0)
        (drop-IsApart n dests h.1))

-- In the sorted destinations, none that is dropped has more packets than one that stays.
dropped_less :
    (n : ℕ) (dests : List FpDest)
    → IsSorted dest_before dests
    → All (λ e. All (λ d. e.packets ≤ d.packets) (take n dests)) (drop n dests)
dropped_less zero dests h = All-unit dests
dropped_less (suc n) [] h = tt
dropped_less (suc n) (d ∷ dests) h =
    All-both (λ e. e.packets ≤ d.packets) _ (drop n dests)
      (All-dropped (λ e. e.packets ≤ d.packets) n dests
        (All-map_imp _ (λ e. e.packets ≤ d.packets) (λ e q. ground (arith, q)) dests h.0))
      (dropped_less n dests h.1)

-- The packets to a destination, of all fingerprints.
sum-own :
    (dests : List FpDest)
    → All IsDest dests
    → AreApart dests
    → All (λ d. sum (of_dest packets_of d.key) (buckets_of dests) ≡ sum packets_of d.buckets) dests
sum-own [] own apart = tt
sum-own (d ∷ dests) own apart = (
  omega (
    arith,
    sum-append (of_dest packets_of d.key) d.buckets (buckets_of dests),
    of_dest-all packets_of d.key d.buckets own.0.0,
    of_dest-none packets_of d.key (buckets_of dests)
        (All-buckets_of _ dests (others d.key dests own.1 apart.0)),
  ),
  All-map_imp
      (λ e.
        (e.key ≢ d.key)
        × (sum (of_dest packets_of e.key) (buckets_of dests) ≡ sum packets_of e.buckets))
      _
      (λ e h. omega (
        arith,
        sum-append (of_dest packets_of e.key) d.buckets (buckets_of dests),
        of_dest-none packets_of e.key d.buckets
            (All-map_imp _ (λ f. dest_key f ≢ e.key) (λ f q r. h.0 (sym r ∙ q)) d.buckets own.0.0),
        h.1,
      ))
      dests (All-both _ _ dests apart.0 (sum-own dests own.1 apart.1)),
)

-- Each destination has the load of its key.
loads :
    (fps : List Fingerprint) (dests : List FpDest)
    → AreDests fps dests
    → All (λ d. IsDest d × (load_of d.key fps ≡ d.packets)) dests
loads fps dests v =
    All-map_imp
      (λ d.
        IsDest d × (sum (of_dest packets_of d.key) (buckets_of dests) ≡ sum packets_of d.buckets))
      _
      (λ d h.
        (h.0, ap (λ n. n % 2 ^ 64) (sym (v.sums (of_dest packets_of d.key)) ∙ h.1) ∙ sym h.0.1))
      dests (All-both _ _ dests v.own (sum-own dests v.own v.apart))

-- A fingerprint whose destination is dropped: none of it is kept, and its destination has no more packets than that
-- of any fingerprint that is kept.
abbrev pub IsDropped : List Fingerprint → List Fingerprint → Fingerprint → Type 0
IsDropped fps kept y =
    (count_of (dest_key y) kept ≡ 0)
    × All (λ x. load_of (dest_key y) fps ≤ load_of (dest_key x) fps) kept

drop-IsDropped :
    (fps : List Fingerprint) (top n : ℕ) (dests : List FpDest)
    → AreDests fps dests
    → IsSorted dest_before dests
    → All (IsDropped fps (keep_top top (take n dests)).0) (buckets_of (drop n dests))
drop-IsDropped fps top n dests v sorted =
    let kept = (keep_top top (take n dests)).0 in
    let stay : All (λ d. IsDest d × (load_of d.key fps ≡ d.packets)) (take n dests) =
      All-taken _ n dests (loads fps dests v) in
    All-buckets_of (IsDropped fps kept) (drop n dests) (
      All-map_imp
        (λ e.
          (IsDest e × (load_of e.key fps ≡ e.packets))
          × (IsApart e.key (take n dests) × All (λ d. e.packets ≤ d.packets) (take n dests)))
        _
        (λ e h.
          All-map_imp (λ y. dest_key y ≡ e.key) (IsDropped fps kept)
            (λ y is_e.
              subst
                (λ k.
                  (count_of k kept ≡ 0) × All (λ x. load_of k fps ≤ load_of (dest_key x) fps) kept)
                (sym is_e)
                (
                  of_dest-none (λ f. 1) e.key kept
                      (All-keep_top _ top (take n dests) (
                        others e.key (take n dests)
                          (All-map_imp _ IsDest (λ d q. q.0) (take n dests) stay) h.1.0)).0,
                  (All-keep_top (λ x. load_of e.key fps ≤ load_of (dest_key x) fps) top
                      (take n dests)
                      (All-map_imp
                        (λ d.
                          (IsDest d × (load_of d.key fps ≡ d.packets)) × (e.packets ≤ d.packets))
                        _
                        (λ d q.
                          All-map_imp (λ x. dest_key x ≡ d.key) _
                            (λ x is_d.
                              let same : load_of (dest_key x) fps ≡ d.packets =
                                ap (λ k. load_of k fps) is_d ∙ q.0.1 in
                              omega (arith, same, h.0.1, q.1))
                            d.buckets q.0.0.0)
                        (take n dests) (All-both _ _ (take n dests) stay h.1.1))).0,
                ))
            e.buckets h.0.0.0)
        (drop n dests)
        (All-both _ _ (drop n dests) (All-dropped _ n dests (loads fps dests v)) (
          All-both _ _ (drop n dests) (drop-IsApart n dests v.apart)
            (dropped_less n dests sorted))))

count_none : count_buckets [] ≡ 0
unfolding count_buckets
count_none = refl

AreApart-take : (n : ℕ) (dests : List FpDest) → AreApart dests → AreApart (take n dests)
AreApart-take zero dests h = tt
AreApart-take (suc n) [] h = tt
AreApart-take (suc n) (d ∷ dests) h =
    (All-taken (λ e. e.key ≢ d.key) n dests h.0, AreApart-take n dests h.1)

-- A selection: what is kept, trimmed and dropped is what was there, in this sense for every weight of fingerprints; the
-- cut counts what is trimmed and dropped; at most `top` are kept of each destination.
abbrev pub IsSelection :
    List Fingerprint → ℕ → ℕ → List Fingerprint → ℕ → List Fingerprint → List Fingerprint → Type 0
IsSelection fps top max_dst kept cut trim drops =
    ((weight : Fingerprint → ℕ)
      → sum weight kept + sum weight trim + sum weight drops ≡ sum weight fps)
    × (cut ≡ length trim + length drops)
    × ((k : List ℕ) → count_of k kept ≤ top)
    × (length kept ≤ max_dst * top)

-- Some fingerprints are trimmed and some are dropped, and with those that are kept they are all that were given; the cut
-- counts them. At most `top` are kept of each destination and `max_dst * top` in all. Of the destination of a trimmed
-- one exactly `top` are kept, none of them with fewer packets than it. Of the destination of a dropped one none is kept,
-- and it has no more packets, as a uint64, than the destination of any that is kept.
pub select_top-Selected :
    (fps : List Fingerprint) (top max_dst : ℕ)
    → let out = select_top_fingerprints fps top max_dst in
      (trim : List Fingerprint) × (drops : List Fingerprint) × IsSelection fps top max_dst out.0
        out.1.buckets trim drops
      × All (IsTrimmed top out.0) trim
      × All (IsDropped fps out.0) drops
unfolding select_top_fingerprints
select_top-Selected fps top max_dst =
    let dests = sort dest_before (by_dest fps []) in
    let v = sorted-AreDests fps in
    let stay = take max_dst dests in
    let own : All IsDest stay = All-taken IsDest max_dst dests v.own in
    let apart : AreApart stay = AreApart-take max_dst dests v.apart in
    let all : (weight : Fingerprint → ℕ)
        → sum weight (keep_top top stay).0
            + sum weight (trimmed top stay)
            + sum weight (buckets_of (drop max_dst dests))
          ≡ sum weight fps =
      λ weight.
        omega (
          arith,
          keep_top-sum weight top stay,
          take-drop-sum weight max_dst dests,
          v.sums weight,
        ) in
    (
      trimmed top stay,
      buckets_of (drop max_dst dests),
      (
        all,
        omega (
          arith,
          keep_top-cut top stay,
          count_buckets-take-drop max_dst dests,
          count_buckets-sort (by_dest fps []),
          count_buckets-by_dest fps [],
          count_none,
          all (λ f. 1),
          sum-ones (keep_top top stay).0,
          sum-ones (trimmed top stay),
          sum-ones (buckets_of (drop max_dst dests)),
          sum-ones fps,
        ),
        (λ k. count_of-keep_top k top stay own apart),
        omega (
          arith,
          keep_top-bound top stay,
          mul_mono (length stay) max_dst top (omega (arith, length-take max_dst dests)),
        ),
      ),
      trimmed-IsTrimmed top stay own apart,
      drop-IsDropped fps top max_dst dests v
          (sort-IsSorted dest_before dest-IsOrder (by_dest fps [])),
    )

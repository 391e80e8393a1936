-- ===== src/ScrubRules/Ports/Coverage.antt =====
-- What portRanges promises the XDP matcher: the same ports, in sorted ranges that do not touch.
use packetyeeter.Common.{
  ℕ, suc, ◌+◌, ◌≤◌, ◌<◌, ◌≡◌, refl, Bool, ◌&&◌, ◌||◌, List, [], ◌∷◌, arith, ltb, leb, length, All,
  any, max, inl, inr, Bool-cases, ◌∙◌,
}
use packetyeeter.Common.Result.{ok, reject, >>=-ok}
use packetyeeter.Common.Sort.{
  sort, sort-IsSorted, IsSorted, IsOrder, any-sort, All-sort, length-sort,
}
use packetyeeter.ScrubRules.Types.{PortRange, rule_max_ranges}
use packetyeeter.ScrubRules.Ports.{
  check_ranges, from_before, merge_after, merge_ranges, port_ranges, too_many_ranges,
}

abbrev pub in_range : ℕ → PortRange → Bool
in_range x r = leb r.from x && leb x r.to

-- A range of 16-bit ports that is not empty.
abbrev pub IsRange : PortRange → Type 0
IsRange r = (r.from ≤ r.to) × (r.to ≤ 65535)

-- Each range is one, and between two neighbours at least one port is left out.
abbrev pub IsSeparated : List PortRange → Type 0
IsSeparated [] = Unit
IsSeparated (r ∷ []) = IsRange r
IsSeparated (r ∷ s ∷ rest) = IsRange r × (r.to + 1 < s.from) × IsSeparated (s ∷ rest)

from_IsOrder : IsOrder from_before
from_IsOrder = record { asym = λ x y h. ground arith; trans = λ x y z h k. ground arith }

check_ranges_lem :
    (pending ranges : List PortRange)
    → check_ranges pending ≡ ok ranges
    → (ranges ≡ pending) × All IsRange ranges
unfolding check_ranges
check_ranges_lem [] [] h = (refl, tt)
check_ranges_lem [] (r ∷ rs) h = cc
check_ranges_lem (r ∷ rest) [] h = ground arith
check_ranges_lem (r ∷ rest) (q ∷ qs) h = ground (arith, check_ranges_lem rest qs)

any-merge_after :
    (x : ℕ) (last : PortRange) (rest : List PortRange)
    → IsRange last
    → All IsRange rest
    → IsSorted from_before (last ∷ rest)
    → any (in_range x) (merge_after last rest) ≡ (in_range x last || any (in_range x) rest)
unfolding merge_after
any-merge_after x last [] v vs s = refl
any-merge_after x last (r ∷ rest) v vs s = ground (
  arith,
  any-merge_after x (record last { to = max last.to r.to }) rest,
  any-merge_after x r rest,
)

-- The first range written starts where `last` does.
merge_after_cons :
    (last : PortRange) (rest : List PortRange)
    → (h : PortRange) × (t : List PortRange) × (merge_after last rest ≡ h ∷ t)
      × (h.from ≡ last.from)
unfolding merge_after
merge_after_cons last [] = (last, [], refl, refl)
merge_after_cons last (r ∷ rest) = elim (Bool-cases (leb r.from (last.to + 1))) [
  | inl joins ↦ rw joins (merge_after_cons (record last { to = max last.to r.to }) rest)
  | inr apart ↦ rw apart (last, merge_after r rest, refl, refl)
]

IsSeparated-cons :
    (r s : PortRange) (out : List PortRange)
    → IsRange r
    → r.to + 1 < s.from
    → ((h : PortRange) × (t : List PortRange) × (out ≡ h ∷ t) × (h.from ≡ s.from))
    → IsSeparated out
    → IsSeparated (r ∷ out)
IsSeparated-cons r s [] v gap (h, t, e, f) sep = v
IsSeparated-cons r s (o ∷ os) v gap (h, t, e, f) sep = (v, ground arith, sep)

merge_after-IsSeparated :
    (last : PortRange) (rest : List PortRange)
    → IsRange last
    → All IsRange rest
    → IsSorted from_before (last ∷ rest)
    → IsSeparated (merge_after last rest)
unfolding merge_after
merge_after-IsSeparated last [] v vs s = v
merge_after-IsSeparated last (r ∷ rest) v vs s = elim (Bool-cases (leb r.from (last.to + 1))) [
  | inl joins ↦ rw joins (
      merge_after-IsSeparated (record last { to = max last.to r.to }) rest (ground arith) vs.1
        (s.0.1, s.1.1))
  | inr apart ↦ rw apart (
      IsSeparated-cons last r (merge_after r rest) v (ground arith) (merge_after_cons r rest)
        (merge_after-IsSeparated r rest vs.0 vs.1 s.1))
]

any-merge_ranges :
    (x : ℕ) (rs : List PortRange)
    → All IsRange rs
    → IsSorted from_before rs
    → any (in_range x) (merge_ranges rs) ≡ any (in_range x) rs
unfolding merge_ranges
any-merge_ranges x [] v s = refl
any-merge_ranges x (r ∷ rest) v s = any-merge_after x r rest v.0 v.1 s

merge_ranges-IsSeparated :
    (rs : List PortRange) → All IsRange rs → IsSorted from_before rs → IsSeparated (merge_ranges rs)
unfolding merge_ranges
merge_ranges-IsSeparated [] v s = tt
merge_ranges-IsSeparated (r ∷ rest) v s = merge_after-IsSeparated r rest v.0 v.1 s

length-merge_after :
    (last : PortRange) (rest : List PortRange) → length (merge_after last rest) ≤ suc (length rest)
unfolding merge_after
length-merge_after last [] = omega arith
length-merge_after last (r ∷ rest) = ground (
  arith,
  length-merge_after (record last { to = max last.to r.to }) rest,
  length-merge_after r rest,
)

length-merge_ranges : (rs : List PortRange) → length (merge_ranges rs) ≤ length rs
unfolding merge_ranges
length-merge_ranges [] = omega arith
length-merge_ranges (r ∷ rest) = length-merge_after r rest

-- What a successful call of port_ranges went through.
port_ranges-ok :
    (pending out : List PortRange)
    → port_ranges pending ≡ ok out
    → (length pending ≤ rule_max_ranges)
      × All IsRange pending
      × (out ≡ merge_ranges (sort from_before pending))
unfolding port_ranges
port_ranges-ok pending out h =
    let (u, fits, h') =
      >>=-ok (reject (ltb 8 (length pending)) (too_many_ranges (length pending))) _ h in
    let (rs, e, h'') = >>=-ok (check_ranges pending) _ h' in
    let (same, v) = check_ranges_lem pending rs e in (ground arith, rw same at v, ground arith)

check_ranges_total :
    (pending : List PortRange) → All IsRange pending → check_ranges pending ≡ ok pending
unfolding check_ranges
check_ranges_total [] v = refl
check_ranges_total (r ∷ rest) v = ground (arith, check_ranges_total rest v.1)

-- When portRanges accepts a list, a port lies in one of the ranges it writes exactly when it lies in
-- one of the given ranges.
pub port_ranges_covers :
    (x : ℕ) (pending out : List PortRange)
    → port_ranges pending ≡ ok out
    → any (in_range x) out ≡ any (in_range x) pending
port_ranges_covers x pending out h =
    let (few, v, e) = port_ranges-ok pending out h in
    rw e (
      any-merge_ranges x (sort from_before pending) (All-sort from_before IsRange pending v)
        (sort-IsSorted from_before from_IsOrder pending)
      ∙ any-sort from_before (in_range x) pending)

-- When portRanges accepts a list, what it writes fits the fixed array and is sorted, and between two
-- neighbouring ranges at least one port is left out, so a binary search finds the one that can match.
pub port_ranges-IsSeparated :
    (pending out : List PortRange)
    → port_ranges pending ≡ ok out
    → IsSeparated out × (length out ≤ rule_max_ranges)
port_ranges-IsSeparated pending out h =
    let (few, v, e) = port_ranges-ok pending out h in
    rw e (
      merge_ranges-IsSeparated (sort from_before pending) (All-sort from_before IsRange pending v)
          (sort-IsSorted from_before from_IsOrder pending),
      omega
          (arith, length-merge_ranges (sort from_before pending), length-sort from_before pending),
    )

-- portRanges accepts every list of at most eight ranges that are in order and within 16 bits.
pub port_ranges_total :
    (pending : List PortRange)
    → length pending ≤ rule_max_ranges
    → All IsRange pending
    → port_ranges pending ≡ ok (merge_ranges (sort from_before pending))
unfolding port_ranges
port_ranges_total pending few v = rw (check_ranges_total pending v) (ground arith)

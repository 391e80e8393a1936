-- ===== src/ScrubRules/Ports.antt =====
-- portRanges of pkg/scrubrules/scrubrules.go. XDP binary-searches the result.
pub mod Coverage
use packetyeeter.Common.{
  ℕ, ◌+◌, ◌%◌, ◌^◌, ◌≤◌, ◌<◌, max, ◌≡◌, Bool, true, false, ◌&&◌, ◌||◌, List, [], ◌∷◌, ◌++◌, arith,
  if◌then◌else◌, ltb, leb, length, All, map, replicate, refl,
}
use packetyeeter.Common.Result.{Result, ok, err, ◌>>=◌, ◌>>◌, reject}
use packetyeeter.Common.Sort.{sort}
use packetyeeter.ScrubRules.Types.{PortRange, rule_max_ranges}

pub data PortsError : Type 0 where
  too_many_ranges : ℕ → PortsError
  invalid_range : PortRange → PortsError

abbrev bad_range : PortRange → Bool
bad_range pr = ltb pr.to pr.from || ltb 65535 pr.to

-- The checked ranges, each cut to 16 bits.
pub check_ranges : List PortRange → Result PortsError (List PortRange)
check_ranges [] = ok []
check_ranges (pr ∷ rest) = do
  reject (bad_range pr) (invalid_range pr)
  ranges ← check_ranges rest
  ok (record { from = pr.from % 2 ^ 16; to = pr.to % 2 ^ 16 } ∷ ranges)

abbrev pub from_before : PortRange → PortRange → Bool
from_before x y = ltb x.from y.from

-- The loop over the sorted ranges; `last` is dst[n-1], what stands before it is written already.
pub merge_after : PortRange → List PortRange → List PortRange
merge_after last [] = last ∷ []
merge_after last (r ∷ rest) =
    let joined = merge_after (record last { to = max last.to r.to }) rest in
    let apart = merge_after r rest in if leb r.from (last.to + 1) then joined else last ∷ apart

pub merge_ranges : List PortRange → List PortRange
unfolding merge_after
merge_ranges [] = []
merge_ranges (r ∷ rest) = merge_after r rest

-- The value stands for dst[:n]; what follows it in the array stays zero.
unfoldable pub port_ranges : List PortRange → Result PortsError (List PortRange)
unfolding check_ranges merge_ranges
port_ranges pending = do
  reject (ltb rule_max_ranges (length pending)) (too_many_ranges (length pending))
  ranges ← check_ranges pending
  ok (merge_ranges (sort from_before ranges))

-- The array that holds the ranges.
unfoldable pub port_array : List PortRange → List PortRange
port_array ranges = fill (replicate rule_max_ranges (record { from = 0; to = 0 })) ranges
  where
    fill : List PortRange → List PortRange → List PortRange
    fill [] rs = []
    fill (z ∷ zs) [] = z ∷ zs
    fill (z ∷ zs) (r ∷ rs) = r ∷ fill zs rs

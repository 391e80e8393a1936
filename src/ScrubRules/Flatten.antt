-- ===== src/ScrubRules/Flatten.antt =====
-- SplitFamilies, Flatten and CheckCapacity of pkg/scrubrules/scrubrules.go.
use packetyeeter.Common.{
  ℕ, zero, suc, String, Bool, true, false, not, ◌||◌, none, some, List, [], ◌∷◌, ◌++◌,
  if◌then◌else◌, ltb, length, keep, nat_key,
}
use packetyeeter.Common.Assoc.{Map, get, put, values}
use packetyeeter.Common.Result.{Result, ok, ◌>>=◌, ◌>>◌, reject}
use packetyeeter.Common.Sort.{sort}
use packetyeeter.Common.Text.{text_before}
use packetyeeter.ScrubRules.Types.{Prefix, Rule, ancestor, prefix_key, rules_max, rules_per_dst}

pub data CapacityError : Type 0 where
  too_many_rules : ℕ → ℕ → CapacityError
  too_many_covering : Prefix → ℕ → CapacityError

abbrev pub is_v4 : Rule → Bool
is_v4 r = r.dst.is4

-- SplitFamilies: the IPv4 rules and the IPv6 rules.
unfoldable pub split_families : Map String Rule → List Rule × List Rule
split_families rules = (keep is_v4 (values rules), keep (λ r. not (is_v4 r)) (values rules))

abbrev pub at_prefix : Prefix → Map Prefix (List Rule) → List Rule
at_prefix p m = elim (get p m) [ none ↦ [] | some rules ↦ rules ]

-- byPrefix
pub by_prefix : List Rule → Map Prefix (List Rule) → Map Prefix (List Rule)
by_prefix [] m = m
by_prefix (r ∷ rest) m = by_prefix rest (put r.dst (at_prefix r.dst m ++ r ∷ []) m)

-- The rules at the ancestors of `p` of at most `bits` bits, the shortest first.
pub covering_upto : Map Prefix (List Rule) → Prefix → ℕ → List Rule
covering_upto m p zero = at_prefix (ancestor p zero) m
covering_upto m p (suc bits) = covering_upto m p bits ++ at_prefix (ancestor p (suc bits)) m

abbrev pub rule_before : Rule → Rule → Bool
rule_before a b =
    if ltb a.priority b.priority
    then true
    else if ltb b.priority a.priority
    then false
    else text_before a.id b.id

unfoldable pub covering : Map Prefix (List Rule) → Prefix → List Rule
unfolding covering_upto
covering m p = sort rule_before (covering_upto m p p.bits)

pub flatten_each :
    Map Prefix (List Rule) → Map Prefix (List Rule) → Result CapacityError (Map Prefix (List Rule))
flatten_each m [] = ok []
flatten_each m ((p, _) ∷ rest) = do
  let rules = covering m p
  reject (ltb rules_per_dst (length rules)) (too_many_covering p (length rules))
  out ← flatten_each m rest
  ok ((p, rules) ∷ out)

unfoldable pub flatten : List Rule → Result CapacityError (Map Prefix (List Rule))
unfolding by_prefix covering flatten_each
flatten rules = let m = by_prefix rules [] in flatten_each m m

unfoldable pub check_families : List Rule → List Rule → Result CapacityError (Unit {0})
check_families v4 v6 =
    reject (ltb rules_max (length v4) || ltb rules_max (length v6))
      (too_many_rules (length v4) (length v6))

unfoldable pub check_capacity : Map String Rule → Result CapacityError (Unit {0})
unfolding split_families check_families
check_capacity rules = do
  let split = split_families rules
  check_families split.0 split.1
  entries4 ← flatten split.0
  entries6 ← flatten split.1
  ok tt

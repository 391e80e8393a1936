-- ===== src/RuleStore/RoundTrip.antt =====
-- Loading what was saved restores the rules that are still valid.
use packetyeeter.Common.{String, Bool, false, Option, none, some, [], ◌∷◌, string_key}
use packetyeeter.Common.Assoc.{Map}
use packetyeeter.ScrubRules.Types.{ProtoRule}
use packetyeeter.RuleStore.Persist.{Bytes, SystemCall}

-- No system call fails.
abbrev pub works : SystemCall → Bool
works call = false

-- How a document reads after encoding/json wrote it: each raw message is compacted and escaped.
abbrev pub rewritten_set : (Bytes → Bytes) → Map String Bytes → Map String Bytes
rewritten_set rewrite [] = []
rewritten_set rewrite ((id, raw) ∷ rest) = (id, rewrite raw) ∷ rewritten_set rewrite rest

abbrev pub rewritten :
    (Bytes → Bytes) → Map String (Map String Bytes) → Map String (Map String Bytes)
rewritten rewrite [] = []
rewritten rewrite ((scope, enc) ∷ rest) =
    (scope, rewritten_set rewrite enc) ∷ rewritten rewrite rest

abbrev rewrite_some : (Bytes → Bytes) → Option Bytes → Option Bytes
rewrite_some rewrite none = none
rewrite_some rewrite (some raw) = some (rewrite raw)

module _ (marshal : ProtoRule → Option Bytes) (rewrite : Bytes → Bytes) where
  abbrev marshal_rewritten : ProtoRule → Option Bytes
  marshal_rewritten r = rewrite_some rewrite (marshal r)

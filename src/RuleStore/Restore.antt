-- ===== src/RuleStore/Restore.antt =====
-- load of pkg/analyzer/rules_persist.go, which restores the rules from the file. The decodings of protojson and
-- encoding/json are the parameters `unmarshal` and `decode_doc`.
use packetyeeter.Common.{
  ℕ, ◌-◌, ◌/◌, ◌+◌, String, Bool, true, false, not, ◌&&◌, ◌||◌, Option, none, some, List, [], ◌∷◌,
  if◌then◌else◌, ltb, leb, length, any, ◌==◌, nat_key, string_key, nat_beq,
}
use Prim.Native.String.{◌++◌ as concat}
use packetyeeter.Common.Assoc.{Map, put}
use packetyeeter.Common.Result.{Result, ok, err}
use packetyeeter.Common.Sort.{sort}
use packetyeeter.Common.Text.{codes, text_before}
use packetyeeter.ScrubRules.Types.{Prefix, ProtoRule}
use packetyeeter.ScrubRules.Parse.{ParseError, parse}
use packetyeeter.RuleStore.{RuleSet, Scopes, StoreError, unix_epoch, expires_of, replace}
use packetyeeter.RuleStore.Persist.{
  max_rule_state_bytes, Bytes, PersistedRules, SystemCall, PersistError, call_failed,
  unsupported_version, Disk, decode_state, state_too_large, rename_aside, open_file, read_file,
}

abbrev pub starts_with : List ℕ → List ℕ → Bool
starts_with [] ys = true
starts_with (x ∷ xs) [] = false
starts_with (x ∷ xs) (y ∷ ys) = let rest = starts_with xs ys in if x == y then rest else false

-- strings.HasPrefix of an id, for the scope with its separator.
abbrev pub in_scope : String → String → Bool
in_scope scope id = starts_with (codes (concat scope "/")) (codes id)

abbrev pub invalid_scope : String → Bool
invalid_scope scope = scope == "" || any (λ c. nat_beq c b'/') (codes scope)

abbrev pub parses : {A : Type 0} → Result ParseError A → Bool
parses (err e) = false
parses (ok a) = true

module _ (parse_prefix : String → Option Prefix) (proto_size : ProtoRule → ℕ) where
  -- A rule is still valid: it has not expired, and it parses.
  abbrev pub is_valid : ℕ → ProtoRule → Bool
  is_valid now r = not (leb (expires_of r) now) && parses (parse parse_prefix r now)

  -- `replace` of a scope, unless nothing is left of it or it no longer fits.
  abbrev pub or_skip : Scopes × ℕ → ℕ → Result StoreError Scopes → Scopes × ℕ
  or_skip before n (err e) = before
  or_skip before n (ok scopes) = (scopes, before.1 + n)

  abbrev pub restore_set : String → ℕ → RuleSet → Scopes × ℕ → Scopes × ℕ
  restore_set scope now [] before = before
  restore_set scope now (r ∷ rs) before =
      or_skip before (length (r ∷ rs)) (replace parse_prefix proto_size scope (r ∷ rs) now before.0)

  module _ (unmarshal : Bytes → Option ProtoRule) where
    abbrev pub add_rule : String → ℕ → String → Option ProtoRule → RuleSet → RuleSet
    add_rule scope now id none set = set
    add_rule scope now id (some r) set =
        if r.id == id && in_scope scope id && is_valid now r then put id r set else set

    unfoldable pub decode_set : String → ℕ → Map String Bytes → RuleSet → RuleSet
    decode_set scope now [] set = set
    decode_set scope now ((id, raw) ∷ rest) set =
        decode_set scope now rest (add_rule scope now id (unmarshal raw) set)

    unfoldable pub restore_scopes : ℕ → Map String (Map String Bytes) → Scopes × ℕ → Scopes × ℕ
    unfolding decode_set
    restore_scopes now [] before = before
    restore_scopes now ((scope, set) ∷ rest) before = restore_scopes now rest (
        if invalid_scope scope
        then before
        else restore_set scope now (decode_set scope now set []) before)

abbrev pub scope_before {ℓ} : {V : Type ℓ} → String × V → String × V → Bool
scope_before x y = text_before x.0 y.0

-- The decoded document, or why it cannot be read.
abbrev pub checked_version : Option PersistedRules → Result PersistError PersistedRules
checked_version none = err decode_state
checked_version (some doc) =
    if doc.version == 1 then ok doc else err (unsupported_version doc.version)

abbrev pub decoded : (Bytes → Option PersistedRules) → Bytes → Result PersistError PersistedRules
decoded decode_doc bytes =
    if ltb max_rule_state_bytes (length bytes)
    then err state_too_large
    else checked_version (decode_doc bytes)

-- The rename of an unreadable file.
abbrev pub set_aside : ℕ → Bytes → Disk → Disk
set_aside now bytes d = record d {
  file = none;
  aside = put ((now - unix_epoch) / 1_000_000_000) bytes d.aside;
}

module _ (parse_prefix : String → Option Prefix) (proto_size : ProtoRule → ℕ)
    (unmarshal : Bytes → Option ProtoRule) (decode_doc : Bytes → Option PersistedRules)
    (fails : SystemCall → Bool) (now : ℕ) where
  abbrev pub restored :
      Result PersistError PersistedRules
      → Bytes
      → Disk
      → Scopes
      → Disk × Scopes × Result PersistError ℕ
  restored (err e) bytes d scopes =
      if fails rename_aside then (d, scopes, err e) else (set_aside now bytes d, scopes, err e)
  restored (ok doc) bytes d scopes =
      let out =
        restore_scopes parse_prefix proto_size unmarshal now (sort scope_before doc.scopes)
          (scopes, 0) in
      (d, out.0, ok out.1)

  abbrev pub load_file : Option Bytes → Disk → Scopes → Disk × Scopes × Result PersistError ℕ
  load_file none d scopes = (d, scopes, ok 0)
  load_file (some bytes) d scopes =
      if fails open_file
      then (d, scopes, err (call_failed open_file))
      else if fails read_file
      then (d, scopes, err (call_failed read_file))
      else restored (decoded decode_doc bytes) bytes d scopes

  -- `load`: the disk and the store after it, and the number of restored rules.
  unfoldable pub load : Disk → Scopes → Disk × Scopes × Result PersistError ℕ
  unfolding restore_scopes sort
  load d scopes = load_file d.file d scopes

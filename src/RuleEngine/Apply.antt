-- ===== src/RuleEngine/Apply.antt =====
-- Apply and Expire of pkg/collector/rules.go.
use packetyeeter.Common.{
  ℕ, suc, ◌+◌, String, Bool, true, Option, none, some, List, [], ◌∷◌, if◌then◌else◌, leb, length,
  string_key,
}
use packetyeeter.Common.Assoc.{Map, put, delete, has}
use packetyeeter.Common.Result.{Result, ok, err, ◌>>=◌, ◌>>◌, reject}
use packetyeeter.Common.Sort.{sort}
use packetyeeter.Common.Text.{text_before}
use packetyeeter.ScrubRules.Types.{Prefix, ProtoRule, Rule}
use packetyeeter.ScrubRules.Parse.{ParseError, parse}
use packetyeeter.RuleEngine.Kernel.{RuleMaps}
use packetyeeter.RuleEngine.State.{Engine, RuleError, bad_rule, duplicate_rule, release_retired}
use packetyeeter.RuleEngine.Install.{install}

-- apiv1.RuleSetDelta
pub record RuleSetDelta : Type 0 where
  pub upsert : List ProtoRule
  pub remove : List String
  pub replace : Bool

pub record RuleApplyResult : Type 0 where
  pub upserted : ℕ
  pub removed : ℕ
  pub active_v4 : ℕ
  pub active_v6 : ℕ

-- The loop over the ids to remove, with the number of rules that it removed.
unfoldable pub remove_ids : List String → Map String Rule → ℕ → Map String Rule × ℕ
remove_ids [] next removed = (next, removed)
remove_ids (id ∷ rest) next removed =
    let here = has id next in
    remove_ids rest (if here then delete id next else next) (if here then removed + 1 else removed)

-- Rules of the old set that the new one lacks.
unfoldable pub dropped : Map String Rule → Map String Rule → ℕ
dropped next [] = 0
dropped next ((id, r) ∷ rest) =
    let more = dropped next rest in if has id next then more else suc more

abbrev pub lift_parse : {A : Type 0} → Result ParseError A → Result RuleError A
lift_parse (ok a) = ok a
lift_parse (err e) = err (bad_rule e)

-- The ids whose rules have expired, in the order of the map.
unfoldable pub expired_ids : ℕ → Map String Rule → List String
expired_ids now [] = []
expired_ids now ((id, r) ∷ rest) =
    let more = expired_ids now rest in if leb r.expires now then id ∷ more else more

unfoldable pub delete_all : List String → Map String Rule → Map String Rule
delete_all [] next = next
delete_all (id ∷ rest) next = delete_all rest (delete id next)

module _ (parse_prefix : String → Option Prefix) where
  -- The loop over the upserts: the next rules, and the ids seen.
  unfoldable pub upsert_rules :
      ℕ
      → List ProtoRule
      → Map String Rule
      → Map String Bool
      → Result RuleError (Map String Rule × Map String Bool)
  upsert_rules now [] next seen = ok (next, seen)
  upsert_rules now (pr ∷ rest) next seen = do
    r ← lift_parse (parse parse_prefix pr now)
    reject (has r.id seen) (duplicate_rule r.id)
    upsert_rules now rest (put r.id r next) (put r.id true seen)

  -- The rule set that a delta asks for, the ids seen, and the number of rules removed.
  unfoldable pub next_rules :
      RuleSetDelta → ℕ → Map String Rule → Result RuleError (Map String Rule × Map String Bool × ℕ)
  unfolding remove_ids upsert_rules dropped
  next_rules delta now rules = do
    let start = remove_ids delta.remove (if delta.replace then [] else rules) 0
    upserted ← upsert_rules now delta.upsert start.0 []
    ok (
      upserted.0,
      upserted.1,
      (if delta.replace then start.1 + dropped upserted.0 rules else start.1),
    )

module _ (m : RuleMaps) where
  open m use {K}

  abbrev pub apply_report :
      ℕ → ℕ → Engine × K × Option RuleError → Engine × K × Result RuleError RuleApplyResult
  apply_report upserted removed (e, k, some error) = (e, k, err error)
  apply_report upserted removed (e, k, none) = (
    e,
    k,
    ok (record {
      upserted = upserted;
      removed = removed;
      active_v4 = e.active_v4;
      active_v6 = e.active_v6;
    }),
  )

  abbrev pub apply_next :
      ℕ
      → Engine
      → K
      → Result RuleError (Map String Rule × Map String Bool × ℕ)
      → Engine × K × Result RuleError RuleApplyResult
  apply_next now e k (err error) = (e, k, err error)
  apply_next now e k (ok (next, seen, removed)) =
      apply_report (length seen) removed (install m next now e k)

  unfoldable pub apply :
      (String → Option Prefix)
      → RuleSetDelta
      → ℕ
      → Engine
      → K
      → Engine × K × Result RuleError RuleApplyResult
  unfolding next_rules install
  apply parse_prefix delta now e k = apply_next now e k (next_rules parse_prefix delta now e.rules)

  abbrev pub expire_report :
      List String → Engine × K × Option RuleError → Engine × K × Result RuleError (List String)
  expire_report expired (e, k, some error) = (e, k, err error)
  expire_report expired (e, k, none) = (e, k, ok (sort text_before expired))

  abbrev pub expire_ids : List String → ℕ → Engine → K → Engine × K × Result RuleError (List String)
  expire_ids [] now e k = (release_retired now e, k, ok [])
  expire_ids (id ∷ ids) now e k =
      expire_report (id ∷ ids) (install m (delete_all (id ∷ ids) e.rules) now e k)

  unfoldable pub expire : ℕ → Engine → K → Engine × K × Result RuleError (List String)
  unfolding expired_ids delete_all release_retired install
  expire now e k = expire_ids (expired_ids now e.rules) now e k

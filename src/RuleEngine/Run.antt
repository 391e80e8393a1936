-- ===== src/RuleEngine/Run.antt =====
-- The rule engine over time: any sequence of deltas and expiry ticks.
use packetyeeter.Common.{
  ℕ, ◌≡◌, refl, String, Bool, true, false, Option, none, some, List, [], ◌∷◌, arith, if◌then◌else◌,
  string_key, subst, ltb,
}
use packetyeeter.Common.Assoc.{Map, put, delete, has, IsUnique, IsUnique-put, IsUnique-delete}
use packetyeeter.Common.Result.{Result, ok, err, >>=-ok, reject}
use packetyeeter.ScrubRules.Types.{Prefix, ProtoRule, Rule, rule_slots}
use packetyeeter.ScrubRules.Parse.{parse}
use packetyeeter.RuleEngine.Kernel.{RuleMaps}
use packetyeeter.RuleEngine.State.{Engine, RuleError, duplicate_rule, new_rule_engine}
use packetyeeter.RuleEngine.Install.{install}
use packetyeeter.RuleEngine.Slots.{owners}
use packetyeeter.RuleEngine.Apply.{
  RuleSetDelta, remove_ids, upsert_rules, next_rules, lift_parse, apply, apply_next, apply_report,
  expire, expire_ids, expire_report, expired_ids, delete_all,
}
use packetyeeter.RuleEngine.Invariant.{install-Inv}
use packetyeeter.RuleEngine.Installed.{Inv, new_rule_engine-Inv, release_retired-Inv}

IsUnique-if_delete :
    (b : Bool) (id : String) (next : Map String Rule)
    → IsUnique next
    → IsUnique (if b then delete id next else next)
IsUnique-if_delete true id next u = IsUnique-delete id next u
IsUnique-if_delete false id next u = u

IsUnique-remove_ids :
    (ids : List String) (next : Map String Rule) (n : ℕ)
    → IsUnique next
    → IsUnique (remove_ids ids next n).0
unfolding remove_ids
IsUnique-remove_ids [] next n u = u
IsUnique-remove_ids (id ∷ rest) next n u =
    IsUnique-remove_ids rest _ _ (IsUnique-if_delete (has id next) id next u)

IsUnique-delete_all :
    (ids : List String) (next : Map String Rule) → IsUnique next → IsUnique (delete_all ids next)
unfolding delete_all
IsUnique-delete_all [] next u = u
IsUnique-delete_all (id ∷ rest) next u =
    IsUnique-delete_all rest (delete id next) (IsUnique-delete id next u)

IsUnique-start :
    (b : Bool) (rules : Map String Rule) → IsUnique rules → IsUnique (if b then [] else rules)
IsUnique-start true rules u = tt
IsUnique-start false rules u = u

module _ (parse_prefix : String → Option Prefix) where
  IsUnique-upsert_rules :
      (now : ℕ) (prs : List ProtoRule) (next : Map String Rule) (seen : Map String Bool)
      (out : Map String Rule × Map String Bool)
      → IsUnique next
      → upsert_rules parse_prefix now prs next seen ≡ ok out
      → IsUnique out.0
  unfolding upsert_rules
  IsUnique-upsert_rules now [] next seen (a, b) u h = rw (← next_eq) u
    where
      next_eq : next ≡ a
      next_eq = ground arith
  IsUnique-upsert_rules now (pr ∷ rest) next seen out u h =
      let (r, parsed, h') = >>=-ok (lift_parse (parse parse_prefix pr now)) _ h in
      let (x, once, h'') = >>=-ok (reject (has r.id seen) (duplicate_rule r.id)) _ h' in
      IsUnique-upsert_rules now rest (put r.id r next) (put r.id true seen) out
        (IsUnique-put r.id r next u) h''

  IsUnique-next_rules :
      (delta : RuleSetDelta) (now : ℕ) (rules : Map String Rule)
      (out : Map String Rule × Map String Bool × ℕ)
      → IsUnique rules
      → next_rules parse_prefix delta now rules ≡ ok out
      → IsUnique out.0
  unfolding next_rules
  IsUnique-next_rules delta now rules out u h =
      let started = remove_ids delta.remove (if delta.replace then [] else rules) 0 in
      let (up, upserted, h') =
        >>=-ok (upsert_rules parse_prefix now delta.upsert started.0 []) _ h in
      let same : up.0 ≡ out.0 = ground arith in
      subst IsUnique same (
        IsUnique-upsert_rules now delta.upsert started.0 [] up
          (IsUnique-remove_ids delta.remove _ 0 (IsUnique-start delta.replace rules u)) upserted)

module _ (m : RuleMaps) (parse_prefix : String → Option Prefix) where
  report-Inv :
      (n removed : ℕ) (p : Engine × m.K × Option RuleError)
      → Inv p.0
      → Inv (apply_report m n removed p).0
  report-Inv n removed (e, k, none) v = v
  report-Inv n removed (e, k, some error) v = v

  expire_report-Inv :
      (ids : List String) (p : Engine × m.K × Option RuleError)
      → Inv p.0
      → Inv (expire_report m ids p).0
  expire_report-Inv ids (e, k, none) v = v
  expire_report-Inv ids (e, k, some error) v = v

  pub apply-Inv :
      (delta : RuleSetDelta) (now : ℕ) (e : Engine) (k : m.K)
      → Inv e
      → Inv (apply m parse_prefix delta now e k).0
  unfolding apply
  apply-Inv delta now e k v = from (next_rules parse_prefix delta now e.rules) refl
    where
      from :
          (o : Result RuleError (Map String Rule × Map String Bool × ℕ))
          → next_rules parse_prefix delta now e.rules ≡ o
          → Inv (apply_next m now e k o).0
      from (err error) h = v
      from (ok (next, seen, removed)) h = report-Inv _ removed (install m next now e k) (
          install-Inv m e k next now v (
            IsUnique-next_rules parse_prefix delta now e.rules (next, seen, removed) v.unique_rules
              h))

  expire_ids-Inv :
      (ids : List String) (now : ℕ) (e : Engine) (k : m.K)
      → Inv e
      → Inv (expire_ids m ids now e k).0
  expire_ids-Inv [] now e k v = release_retired-Inv now e v
  expire_ids-Inv (id ∷ ids) now e k v =
      expire_report-Inv (id ∷ ids) (install m (delete_all (id ∷ ids) e.rules) now e k)
        (install-Inv m e k _ now v (IsUnique-delete_all (id ∷ ids) e.rules v.unique_rules))

  pub expire-Inv : (now : ℕ) (e : Engine) (k : m.K) → Inv e → Inv (expire m now e k).0
  unfolding expire
  expire-Inv now e k v = expire_ids-Inv (expired_ids now e.rules) now e k v

-- What happens to a collector's engine: a delta arrives, or the expiry ticker fires.
pub data Event : Type 0 where
  delta_at : RuleSetDelta → ℕ → Event
  tick_at : ℕ → Event

module _ (m : RuleMaps) (parse_prefix : String → Option Prefix) where
  pub step : Engine × m.K → Event → Engine × m.K
  step (e, k) (delta_at delta now) = let out = apply m parse_prefix delta now e k in (out.0, out.1)
  step (e, k) (tick_at now) = let out = expire m now e k in (out.0, out.1)

  pub run : Engine × m.K → List Event → Engine × m.K
  unfolding step
  run s [] = s
  run s (ev ∷ rest) = run (step s ev) rest

  step-Inv : (s : Engine × m.K) (ev : Event) → Inv s.0 → Inv (step s ev).0
  unfolding step
  step-Inv (e, k) (delta_at delta now) v = apply-Inv m parse_prefix delta now e k v
  step-Inv (e, k) (tick_at now) v = expire-Inv m parse_prefix now e k v

  pub run-Inv : (s : Engine × m.K) (evs : List Event) → Inv s.0 → Inv (run s evs).0
  unfolding run
  run-Inv s [] v = v
  run-Inv s (ev ∷ rest) v = run-Inv (step s ev) rest (step-Inv s ev v)

-- After any sequence of deltas and expiry ticks, whatever the kernel answers, each of the kernel's slots
-- is owned exactly once: it is free, or installed for one rule, or retired. So no slot is leaked and none
-- is given to two rules.
pub run-owners :
    (m : RuleMaps) (parse_prefix : String → Option Prefix) (k : m.K) (evs : List Event) (s : ℕ)
    → owners s (run m parse_prefix (new_rule_engine, k) evs).0 ≡ (if ltb s rule_slots then 1 else 0)
run-owners m parse_prefix k evs s =
    (run-Inv m parse_prefix (new_rule_engine, k) evs new_rule_engine-Inv).partition s

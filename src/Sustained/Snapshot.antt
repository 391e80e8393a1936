-- ===== src/Sustained/Snapshot.antt =====
-- Snapshot of pkg/analyzer/sustained/snapshot.go, without the rates, the ratio and the margin that is a ratio, which
-- are floating-point numbers. An int64 or uint64 that the code converts is the number itself.
use packetyeeter.Common.{
  ℕ, ◌-◌, ◌*◌, ◌/◌, ◌%◌, ◌^◌, String, Bool, false, not, ◌&&◌, Option, none, some, List, [], ◌∷◌,
  if◌then◌else◌, ltb, take, ◌==◌, string_key, nat_key,
}
use packetyeeter.Common.Assoc.{Map}
use packetyeeter.Common.Sort.{sort}
use packetyeeter.Sustained.Client.{ClientWindow, second}
use packetyeeter.Sustained.Config.{Config, Settings}
use packetyeeter.Sustained.Thresholds.{
  Measured, Match, over, path, match_thresholds, blockers, times64,
}
use packetyeeter.Sustained.Tracker.{Tracker, measure}
use packetyeeter.Sustained.Evaluate.{factor_of}

pub data Action : Type 0 where
  watching : Action
  would_block : Action
  blocking : Action

pub record ClientSnapshot : Type 0 where
  pub ip : String
  pub measured : Measured
  pub good_reputation : Bool
  pub threshold_factor : ℕ
  pub action : Action
  pub path : String
  pub held : Bool
  pub held_seconds : ℕ
  pub blockers : List String
  pub margins : Map String ℕ

abbrev pub percent_of : ℕ → ℕ → ℕ
percent_of value threshold =
    if threshold == 0
    then 100
    else if ltb 100 (value * 100 % 2 ^ 64 / threshold)
    then 100
    else value * 100 % 2 ^ 64 / threshold

abbrev pub margins_of : Config → Measured → ℕ → Map String ℕ
margins_of cfg m factor =
    ("requests", percent_of m.requests (times64 cfg.minimum_requests factor))
    ∷ ("bytes", percent_of m.bytes (times64 cfg.minimum_bytes factor))
    ∷ ("resources", percent_of m.resources cfg.minimum_resources)
    ∷ ("sections", percent_of m.sections cfg.minimum_sections)
    ∷ []

abbrev pub held_seconds_of : ℕ → Option ℕ → ℕ
held_seconds_of now none = 0
held_seconds_of now (some since) = (now - since) / second

abbrev pub is_held : Match → Option ℕ → Bool
is_held matched none = false
is_held matched (some since) = not (over matched)

abbrev pub action_of : Bool → Match → Bool → Action
action_of enforcing matched held =
    if not (over matched) && not held then watching else if enforcing then blocking else would_block

module _ (good : String → Bool) (s : Settings) (now : ℕ) (enforcing : Bool) where
  unfoldable pub snapshot_client : String → ClientWindow → ClientSnapshot
  unfolding match_thresholds blockers
  snapshot_client ip c =
      let m = measure c in
      let factor = factor_of good s now ip in
      let matched = match_thresholds s.config m (factor % 2 ^ 64) in
      record {
        ip = ip;
        measured = m;
        good_reputation = good ip;
        threshold_factor = factor;
        action = action_of enforcing matched (is_held matched c.selected_since);
        path = path matched;
        held = is_held matched c.selected_since;
        held_seconds = held_seconds_of now c.selected_since;
        blockers = blockers s.config m (factor % 2 ^ 64);
        margins = margins_of s.config m (factor % 2 ^ 64);
      }

  unfoldable pub snapshot_each : Map String ClientWindow → List ClientSnapshot
  unfolding snapshot_client
  snapshot_each [] = []
  snapshot_each ((ip, c) ∷ clients) =
      let more = snapshot_each clients in snapshot_client ip c ∷ more

-- `less` of sortSnapshots: by the bytes, unless `by` names another measure.
abbrev pub size_by : String → ClientSnapshot → ℕ
size_by by c =
    if by == "requests"
    then c.measured.requests
    else if by == "resources"
    then c.measured.resources
    else if by == "sections"
    then c.measured.sections
    else c.measured.bytes

abbrev pub less_by : String → ClientSnapshot → ClientSnapshot → Bool
less_by by i j = ltb (size_by by j) (size_by by i)

unfoldable pub sort_snapshots : String → List ClientSnapshot → List ClientSnapshot
unfolding sort
sort_snapshots by snapshots = sort (less_by by) snapshots

-- A limit that is not positive is 25.
abbrev pub limit_or : ℕ → ℕ
limit_or limit = if limit == 0 then 25 else limit

unfoldable pub snapshot : (String → Bool) → ℕ → ℕ → String → Bool → Tracker → List ClientSnapshot
unfolding snapshot_each sort_snapshots
snapshot good now limit by enforcing t =
    take (limit_or limit)
      (sort_snapshots by (snapshot_each good t.settings now enforcing t.clients))

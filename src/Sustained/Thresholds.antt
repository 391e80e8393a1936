-- ===== src/Sustained/Thresholds.antt =====
-- The thresholds of pkg/analyzer/sustained/tracker.go, and blockers of snapshot.go, which explains them.
use packetyeeter.Common.{
  ℕ, ◌*◌, ◌%◌, ◌^◌, String, Bool, false, not, ◌&&◌, ◌||◌, List, [], ◌∷◌, if◌then◌else◌, ltb, leb,
}
use packetyeeter.Sustained.Config.{Config}

pub record Match : Type 0 where
  pub volume : Bool
  pub shape : Bool

abbrev pub no_match : Match
no_match = record { volume = false; shape = false }

abbrev pub over : Match → Bool
over m = m.volume || m.shape

abbrev pub path : Match → String
path m =
    if m.volume && m.shape
    then "volume+shape"
    else if m.volume
    then "volume"
    else if m.shape
    then "shape"
    else ""

-- What a client did in the window.
pub record Measured : Type 0 where
  pub requests : ℕ
  pub bytes : ℕ
  pub resources : ℕ
  pub sections : ℕ

unfoldable pub resources_per_section_within : ℕ → ℕ → ℕ → Bool
resources_per_section_within maximum_percent resources sections =
    ltb 0 sections
    && ltb 0 maximum_percent
    && leb (resources * 100 % 2 ^ 64) (sections * maximum_percent % 2 ^ 64)

-- A product of uint64 values.
abbrev pub times64 : ℕ → ℕ → ℕ
times64 a b = a * b % 2 ^ 64

unfoldable pub match_thresholds : Config → Measured → ℕ → Match
unfolding resources_per_section_within
match_thresholds cfg m factor =
    if not (
      leb (times64 cfg.minimum_requests factor) m.requests
      && leb cfg.minimum_resources m.resources
      && leb cfg.minimum_sections m.sections)
    then no_match
    else record {
      volume = leb (times64 cfg.minimum_bytes factor) m.bytes;
      shape =
          resources_per_section_within cfg.maximum_resources_per_section_percent m.resources
            m.sections;
    }

abbrev pub reason_if : Bool → String → List String → List String
reason_if b reason rest = if b then reason ∷ rest else rest

-- The floors that both paths share.
abbrev pub shared_blockers : Config → Measured → ℕ → List String
shared_blockers cfg m factor =
    reason_if (ltb m.requests (times64 cfg.minimum_requests factor)) "requests" (
      reason_if (ltb m.resources cfg.minimum_resources) "resources"
        (reason_if (ltb m.sections cfg.minimum_sections) "sections" []))

abbrev pub path_blockers : Config → Measured → ℕ → List String
path_blockers cfg m factor = reason_if (ltb m.bytes (times64 cfg.minimum_bytes factor)) "bytes" (
    reason_if
      (not (
        resources_per_section_within cfg.maximum_resources_per_section_percent m.resources
          m.sections))
      "resources_per_section" [])

abbrev pub or_path : List String → List String → List String
or_path [] reasons = reasons
or_path (r ∷ rs) reasons = r ∷ rs

unfoldable pub blockers : Config → Measured → ℕ → List String
unfolding match_thresholds resources_per_section_within
blockers cfg m factor =
    if over (match_thresholds cfg m factor)
    then []
    else or_path (shared_blockers cfg m factor) (path_blockers cfg m factor)

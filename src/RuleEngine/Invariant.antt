-- ===== src/RuleEngine/Invariant.antt =====
-- The invariant of the rule engine is kept by install on every path, whatever the kernel answers.
use packetyeeter.Common.{
  ℕ, ◌≡◌, refl, String, true, false, Option, none, some, List, [], ◌∷◌, arith, count, count-append,
  string_key, ap,
}
use packetyeeter.Common.Assoc.{Map, IsUnique}
use packetyeeter.Common.Result.{Result, ok, err}
use packetyeeter.ScrubRules.Types.{Prefix, Rule}
use packetyeeter.ScrubRules.Flatten.{CapacityError, flatten, split_families}
use packetyeeter.RuleEngine.Kernel.{RuleMaps}
use packetyeeter.RuleEngine.State.{
  Engine, RuleError, swap_failed, release_retired, install_map, retire, commit,
}
use packetyeeter.RuleEngine.Install.{
  Assigning, assign, after_assign, after_swap4, after_swap6, after_restore, rolled_back, restore,
  plan, install, install_planned, quarantine,
}
use packetyeeter.RuleEngine.Slots.{waiting, IsPartition, waiting-append}
use packetyeeter.RuleEngine.Assigned.{assign-owned, assign-balance}
use packetyeeter.RuleEngine.Handover.{Entry-All, count-retained, count-retire}
use packetyeeter.RuleEngine.Installed.{
  Inv, release_retired-Inv, install_map-bodies, IsUnique-install_map, superseded-All,
}

module _ (m : RuleMaps) (e : Engine) (v : Inv e) (next : Map String Rule) (u : IsUnique next)
    (now : ℕ) where
  abbrev start : m.K → Assigning m
  start k = record { kernel = k; free = e.free; fresh = []; slots = [] }

  abbrev out : m.K → Assigning m
  out k = (assign m e.installed next (start k)).0

  commit-IsPartition :
      (k : m.K)
      → (assign m e.installed next (start k)).1 ≡ none
      → IsPartition (commit next (out k).slots now (record e { free = (out k).free }))
  unfolding commit
  commit-IsPartition k h s = omega (
    arith,
    v.partition s,
    assign-owned m e.installed s next (start k),
    assign-balance m e.installed s next (start k) h u,
    count-retained s next e.installed u v.unique_installed,
    count-retire s now next (install_map next (out k).slots) e.installed
        (superseded-All m e next k v u h e.installed (Entry-All e.installed v.unique_installed)),
    ap (count s)
        (waiting-append e.retired (retire now (install_map next (out k).slots) e.installed)),
    count-append s (waiting e.retired)
        (waiting (retire now (install_map next (out k).slots) e.installed)),
  )

  pub commit-Inv :
      (k : m.K)
      → (assign m e.installed next (start k)).1 ≡ none
      → Inv (commit next (out k).slots now (record e { free = (out k).free }))
  commit-Inv k h = record {
    partition = commit-IsPartition k h;
    unique_rules = unfold commit in u;
    unique_installed = unfold commit in IsUnique-install_map next (out k).slots u;
    tracks = unfold commit in install_map-bodies next (out k).slots;
  }

  pub rolled_back-Inv : (k k' : m.K) (error : RuleError) → Inv (rolled_back m e (out k) k' error).0
  rolled_back-Inv k k' error = record {
    partition = λ s. omega (
      arith,
      v.partition s,
      count-append s (out k).free (out k).fresh,
      assign-owned m e.installed s next (start k),
    );
    unique_rules = v.unique_rules;
    unique_installed = v.unique_installed;
    tracks = v.tracks;
  }

  waiting-quarantine : (fresh : List ℕ) → waiting (quarantine m now fresh) ≡ fresh
  waiting-quarantine [] = refl
  waiting-quarantine (x ∷ xs) = ap (◌∷◌ x) (waiting-quarantine xs)

  after_restore-Inv :
      (k : m.K) (error : String) (p : m.K × Option String)
      → Inv (after_restore m now e (out k) error p).0
  after_restore-Inv k error (k', none) = rolled_back-Inv k k' (swap_failed error)
  after_restore-Inv k error (k', some x) = record {
    partition = λ s. omega (
      arith,
      v.partition s,
      assign-owned m e.installed s next (start k),
      ap (count s) (waiting-append e.retired (quarantine m now (out k).fresh)),
      count-append s (waiting e.retired) (waiting (quarantine m now (out k).fresh)),
      ap (count s) (waiting-quarantine (out k).fresh),
    );
    unique_rules = v.unique_rules;
    unique_installed = v.unique_installed;
    tracks = v.tracks;
  }

  after_swap6-Inv :
      (k : m.K)
      → (assign m e.installed next (start k)).1 ≡ none
      → (p : m.K × Option String) → Inv (after_swap6 m next now e (out k) p).0
  after_swap6-Inv k h (k', none) = commit-Inv k h
  after_swap6-Inv k h (k', some error) =
      after_restore-Inv k error (restore m e k' (flatten (split_families e.rules).0))

  after_swap4-Inv :
      (k : m.K)
      → (assign m e.installed next (start k)).1 ≡ none
      → (entries6 : Map Prefix (List Rule)) (p : m.K × Option String)
      → Inv (after_swap4 m next entries6 now e (out k) p).0
  after_swap4-Inv k h entries6 (k', some error) = rolled_back-Inv k k' (swap_failed error)
  after_swap4-Inv k h entries6 (k', none) = after_swap6-Inv k h (m.swap_rule_trie true _ k')

  after_assign-Inv :
      (k : m.K) (entries4 entries6 : Map Prefix (List Rule)) (failed : Option RuleError)
      → (assign m e.installed next (start k)).1 ≡ failed
      → Inv (after_assign m next entries4 entries6 now e (out k, failed)).0
  unfolding after_assign
  after_assign-Inv k entries4 entries6 (some error) h = rolled_back-Inv k (out k).kernel error
  after_assign-Inv k entries4 entries6 none h =
      after_swap4-Inv k h entries6 (m.swap_rule_trie false _ (out k).kernel)

  install_planned-Inv :
      (k : m.K) (p : Result CapacityError (Map Prefix (List Rule) × Map Prefix (List Rule)))
      → Inv (install_planned m next now e k p).0
  install_planned-Inv k (err c) = v
  install_planned-Inv k (ok (entries4, entries6)) =
      after_assign-Inv k entries4 entries6 (assign m e.installed next (start k)).1 refl

-- Whatever the kernel answers, install keeps the invariant: after every outcome each kernel slot is
-- free, installed or retired exactly once, and the installed bodies are those of the active rules.
pub install-Inv :
    (m : RuleMaps) (e : Engine) (k : m.K) (next : Map String Rule) (now : ℕ)
    → Inv e
    → IsUnique next
    → Inv (install m next now e k).0
unfolding install
install-Inv m e k next now v u =
    install_planned-Inv m (release_retired now e) (release_retired-Inv now e v) next u now k
      (plan next)

-- ===== src/RuleEngine/Atomic.antt =====
-- install is all or nothing: it leaves the kernel tries and the engine in step, or as they were.
use packetyeeter.Common.{
  ℕ, ◌≡◌, refl, String, Bool, true, false, Option, none, some, List, [], string_key, ◌∙◌, sym, inl,
  inr, ◌⊎◌, bool_key,
}
use packetyeeter.Common.Assoc.{Map, get-Misses}
use packetyeeter.Common.Result.{Result, ok, err}
use packetyeeter.ScrubRules.Types.{Prefix, Rule}
use packetyeeter.ScrubRules.Flatten.{CapacityError, flatten, split_families}
use packetyeeter.RuleEngine.Kernel.{RuleMaps, swap-done, swap-failed, swap-other}
use packetyeeter.RuleEngine.State.{
  Engine, RuleError, restore_failed, release_retired, slot_of, slot_entries, installed_slots,
  install_map, commit,
}
use packetyeeter.RuleEngine.Install.{
  Assigning, assign, after_assign, after_swap4, after_swap6, after_restore, restore, plan, install,
  install_planned,
}
use packetyeeter.RuleEngine.Assigned.{assign-frame}
use packetyeeter.RuleEngine.Tries.{
  Synced, live-assign, slot_entries-ext, slot_of-installed, plan-ok,
}

-- What install promises about its outcome. On an error the rules and their slots are as before, and so
-- are the tries, unless the error says that the previous IPv4 rules could not be restored.
abbrev pub Outcome :
    (m : RuleMaps) → Engine → m.K → Map String Rule → Engine × m.K × Option RuleError → Type 0
Outcome m e k next (e', k', none) = (e'.rules ≡ next) × Synced m e' k'
Outcome m e k next (e', k', some error) =
    (e'.rules ≡ e.rules)
    × (e'.installed ≡ e.installed)
    × (((why : String) × (error ≡ restore_failed why))
        ⊎ ((m.live false k' ≡ m.live false k) × (m.live true k' ≡ m.live true k)))

module _ (m : RuleMaps) (e : Engine) (k : m.K) (sync : Synced m e k) (next : Map String Rule)
    (now : ℕ) where
  abbrev start : Assigning m
  start = record { kernel = k; free = e.free; fresh = []; slots = [] }

  abbrev out : Assigning m
  out = (assign m e.installed next start).0

  -- The kernel of the assignment shows the old tries.
  out-live : (fam : Bool) → m.live fam out.kernel ≡ m.live fam k
  out-live fam = live-assign m fam e.installed next start

  slots_agree :
      (assign m e.installed next start).1 ≡ none
      → (id : String)
      → slot_of id (installed_slots (install_map next out.slots)) ≡ slot_of id out.slots
  slots_agree h id =
      slot_of-installed id next out.slots
        (λ miss. assign-frame m e.installed id next start h (get-Misses id next miss))

  after_restore-Outcome :
      (error : String) (p : m.K × Option String)
      → m.live true p.0 ≡ m.live true k
      → ((p.1 ≡ none) → m.live false p.0 ≡ m.live false k)
      → Outcome m e k next (after_restore m now e out error p)
  after_restore-Outcome error (k', none) six four = (refl, refl, inr (four refl, six))
  after_restore-Outcome error (k', some x) six four = (refl, refl, inl (error, refl))

  restored :
      (k6 : m.K)
      → m.live true k6 ≡ m.live true k
      → (error : String)
      → Outcome m e k next
          (after_restore m now e out error (restore m e k6 (flatten (split_families e.rules).0)))
  restored k6 six error =
      let (prev, flat, old) = sync.v4 in
      rw flat (
        after_restore-Outcome error
          (m.swap_rule_trie false (slot_entries prev (installed_slots e.installed)) k6)
          (m.live-swap_ne true false _ k6 (λ h. cc) ∙ six)
          (λ done. m.live-swap false _ k6 done ∙ sym old))

  module _ (assigned : (assign m e.installed next start).1 ≡ none)
      (entries4 entries6 : Map Prefix (List Rule))
      (planned : plan next ≡ ok (entries4, entries6)) where
    after_swap6-Outcome :
        (k4 : m.K)
        → m.live false k4 ≡ slot_entries entries4 out.slots
        → m.live true k4 ≡ m.live true k
        → (p : m.K × Option String) → m.swap_rule_trie true (slot_entries entries6 out.slots) k4 ≡ p
        → Outcome m e k next (after_swap6 m next now e out p)
    unfolding commit
    after_swap6-Outcome k4 four six (k6, none) swapped = (
      refl,
      record {
        v4 = (
          entries4,
          (plan-ok next entries4 entries6 planned).0,
          swap-other m _ k4 k6 false true none (λ h. cc) swapped
              ∙ four
              ∙ sym (slot_entries-ext _ out.slots (slots_agree assigned) entries4),
        );
        v6 = (
          entries6,
          (plan-ok next entries4 entries6 planned).1,
          swap-done m _ k4 k6 true swapped
              ∙ sym (slot_entries-ext _ out.slots (slots_agree assigned) entries6),
        );
      },
    )
    after_swap6-Outcome k4 four six (k6, some error) swapped =
        restored k6 (swap-failed m _ k4 k6 true true error swapped ∙ six) error

    after_swap4-Outcome :
        (p : m.K × Option String)
        → m.swap_rule_trie false (slot_entries entries4 out.slots) out.kernel ≡ p
        → Outcome m e k next (after_swap4 m next entries6 now e out p)
    after_swap4-Outcome (k4, some error) swapped = (
      refl,
      refl,
      inr (
        swap-failed m _ out.kernel k4 false false error swapped ∙ out-live false,
        swap-failed m _ out.kernel k4 true false error swapped ∙ out-live true,
      ),
    )
    after_swap4-Outcome (k4, none) swapped =
        after_swap6-Outcome k4 (swap-done m _ out.kernel k4 false swapped)
          (swap-other m _ out.kernel k4 true false none (λ h. cc) swapped ∙ out-live true)
          (m.swap_rule_trie true (slot_entries entries6 out.slots) k4) refl

  after_assign-Outcome :
      (entries4 entries6 : Map Prefix (List Rule))
      → plan next ≡ ok (entries4, entries6)
      → (failed : Option RuleError) → (assign m e.installed next start).1 ≡ failed
      → Outcome m e k next (after_assign m next entries4 entries6 now e (out, failed))
  unfolding after_assign
  after_assign-Outcome entries4 entries6 planned none assigned =
      after_swap4-Outcome assigned entries4 entries6 planned
        (m.swap_rule_trie false (slot_entries entries4 out.slots) out.kernel) refl
  after_assign-Outcome entries4 entries6 planned (some error) assigned =
      (refl, refl, inr (out-live false, out-live true))

  install_planned-Outcome :
      (p : Result CapacityError (Map Prefix (List Rule) × Map Prefix (List Rule)))
      → plan next ≡ p
      → Outcome m e k next (install_planned m next now e k p)
  install_planned-Outcome (err c) h = (refl, refl, inr (refl, refl))
  install_planned-Outcome (ok (entries4, entries6)) h =
      after_assign-Outcome entries4 entries6 h (assign m e.installed next start).1 refl

Synced-release_retired :
    (m : RuleMaps) (e : Engine) (k : m.K) (now : ℕ)
    → Synced m e k
    → Synced m (release_retired now e) k
unfolding release_retired
Synced-release_retired m e k now s = record { v4 = s.v4; v6 = s.v6 }

-- install is all or nothing. If it succeeds, the given rules are active and both live tries are theirs.
-- If it fails, the rules and their slots are as before, and so are both live tries, unless the error
-- reports that the previous IPv4 rules could not be put back.
pub install-Outcome :
    (m : RuleMaps) (e : Engine) (k : m.K) (next : Map String Rule) (now : ℕ)
    → Synced m e k
    → Outcome m e k next (install m next now e k)
unfolding install release_retired
install-Outcome m e k next now s =
    install_planned-Outcome m (release_retired now e) k (Synced-release_retired m e k now s) next
      now (plan next) refl

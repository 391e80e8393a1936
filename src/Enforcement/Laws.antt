-- ===== src/Enforcement/Laws.antt =====
-- What the kill switch stops, and that untrusted evidence decides nothing on a trusted scrub stream.
use packetyeeter.Common.{
  ℕ, ◌≡◌, ◌↔◌, ◌⊎◌, refl, inl, inr, String, Bool, true, false, ◌&&◌, ◌==◌, string_key, ◌≢◌, eq_iff,
  arith, List, [], ◌∷◌, Option, All, All-map_imp, Bool-cases,
}
use packetyeeter.Common.Sort.{All-sort}
use packetyeeter.RuleStore.{Scopes, desired, command_rules, id_before, is_pass}
use packetyeeter.RuleStore.Laws.{desired-IsSendable}
use packetyeeter.RuleStore.Accepted.{All-values}
use packetyeeter.Enforcement.{
  EnforcementState, CommandType, unknown, block_ip, unblock_ip, block_cidr, unblock_cidr,
  allowlist_ip, remove_allowlist_ip, set_rules, stop, status, enforcing, is_enforcing_command,
  suppressed_by_kill_switch, reputation_verdict, score_of,
}

-- The kill switch pulled once and then any number of times more.
abbrev pub stop_each : List String → EnforcementState → EnforcementState
stop_each [] e = e
stop_each (reason ∷ rest) e = stop_each rest (stop reason e)

stop_each-stopped :
    (reasons : List String) (e : EnforcementState)
    → e.stopped ≡ true
    → (stop_each reasons e).stopped ≡ true
unfolding stop
stop_each-stopped [] e h = h
stop_each-stopped (reason ∷ rest) e h = stop_each-stopped rest (stop reason e) refl

stop_each-reason :
    (reasons : List String) (e : EnforcementState)
    → e.reason ≢ ""
    → (stop_each reasons e).reason ≢ ""
unfolding stop
stop_each-reason [] e h = h
stop_each-reason (reason ∷ rest) e h =
    stop_each-reason rest (stop reason e) (elim (Bool-cases (reason == "")) [
      | inl empty ↦ rw empty (λ q. ground (arith, (eq_iff "no reason given" "").1 q))
      | inr given ↦ rw given (λ q. ground (arith, (eq_iff reason "").1 q))
    ])

suppressed-blocks :
    (cmd : CommandType) (e : EnforcementState)
    → e.stopped ≡ true
    → (suppressed_by_kill_switch e cmd ≡ true ↔ (cmd ≡ block_ip) ⊎ (cmd ≡ block_cidr))
unfolding suppressed_by_kill_switch is_enforcing_command status
suppressed-blocks block_ip e h = rw h ((λ q. inl refl), (λ q. refl))
suppressed-blocks block_cidr e h = rw h ((λ q. inr refl), (λ q. refl))
suppressed-blocks unknown e h = ground arith
suppressed-blocks unblock_ip e h = ground arith
suppressed-blocks unblock_cidr e h = ground arith
suppressed-blocks allowlist_ip e h = ground arith
suppressed-blocks remove_allowlist_ip e h = ground arith
suppressed-blocks set_rules e h = ground arith

-- Once the kill switch has been pulled, every rule that the analyzer sends passes traffic, whatever the store
-- holds and however often it is pulled again, a command is suppressed exactly when it blocks an address or a range
-- of addresses, and the status says so with a reason.
pub stopped-Relieves :
    (first : String) (reasons : List String) (dry_run : Bool) (now : ℕ) (scopes : Scopes)
    (cmd : CommandType) (e : EnforcementState)
    → (let e' = stop_each reasons (stop first e) in
        All (λ r. is_pass r.action ≡ true) (command_rules now (enforcing dry_run e') scopes)
        × (suppressed_by_kill_switch e' cmd ≡ true ↔ (cmd ≡ block_ip) ⊎ (cmd ≡ block_cidr))
        × ((status e').0 ≡ true)
        × ((status e').1 ≢ ""))
unfolding enforcing suppressed_by_kill_switch stop status
stopped-Relieves first reasons dry_run now scopes cmd e =
    let e' = stop_each reasons (stop first e) in
    let pulled : e'.stopped ≡ true = stop_each-stopped reasons (stop first e) refl in
    let said : e'.reason ≢ "" =
      stop_each-reason (first ∷ reasons) (record e { reason = "x" })
        (λ q. ground (arith, (eq_iff "x" "").1 q)) in
    let off : enforcing dry_run e' ≡ false = ground (arith, pulled) in
    (
      rw off (
          All-sort id_before (λ r. is_pass r.action ≡ true) _
            (All-values _ (desired now false scopes).1
              (All-map_imp _ _ (λ p h. h.1) _ (desired-IsSendable now false scopes)))),
      suppressed-blocks cmd e' pulled,
      rw pulled refl,
      rw pulled said,
    )

-- A block fans out to the trusted scrub collectors only from a trusted stream, and then exactly when the trusted
-- score is over the threshold, whatever the shared score is.
pub reputation_verdict-fanout :
    {F : Type 0} (zero_score : F) (over : F → Bool) (trusted : Bool) (shared other scrub : Option F)
    → ((reputation_verdict zero_score over trusted shared scrub).2
        ≡ (trusted && over (score_of zero_score over scrub)))
      × ((trusted && (reputation_verdict zero_score over trusted shared scrub).1)
          ≡ (trusted && (reputation_verdict zero_score over trusted other scrub).1))
unfolding reputation_verdict
reputation_verdict-fanout zero_score over false shared other scrub = (refl, refl)
reputation_verdict-fanout zero_score over true shared other scrub = (refl, refl)

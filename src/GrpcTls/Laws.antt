-- ===== src/GrpcTls/Laws.antt =====
-- Which connections stay open when the client CA bundle is rotated.
use packetyeeter.Common.{
  ℕ, ◌≡◌, refl, sym, ap, ◌∙◌, subst, inl, inr, Bool, true, false, not, Option, none, some, List, [],
  ◌∷◌, any, if◌then◌else◌, Key, ◌==◌, nat_key, Bool-cases, nat_beq_iff,
}
use packetyeeter.Common.Assoc.{Map, get, keys, IsUnique, Misses, Misses-get, get-delete}
use packetyeeter.GrpcTls.Reload
use packetyeeter.GrpcTls.Reload.{Disk, FileSource}
use packetyeeter.GrpcTls.Revoke.{
  TrackedConn, ServerCreds, verifies, untrusted, close, close_each, close_untrusted,
}

module _ {Cert Pool : Type 0} ⦃pool_key : Key Pool⦄
    (verify : Cert → List Cert → Pool → ℕ → Bool) where
  -- A connection that a pool does not verify is gone.
  abbrev pub kept_by : Pool → ℕ → Option (TrackedConn Cert) → Option (TrackedConn Cert)
  kept_by pool now none = none
  kept_by pool now (some tc) = if verifies verify tc pool now then some tc else none

  abbrev is_untrusted : Pool → ℕ → Option (TrackedConn Cert) → Bool
  is_untrusted pool now none = false
  is_untrusted pool now (some tc) = not (verifies verify tc pool now)

  get-close_each :
      (ks : List ℕ) (c : ServerCreds Cert Pool) (id : ℕ)
      → get id (close_each verify ks c).conns
        ≡ (if any (λ k. k == id) ks then none else get id c.conns)
  get-close_each [] c id = refl
  get-close_each (k ∷ ks) c id = elim (Bool-cases (k == id)) [
    | inl same ↦ rw same (
        get-close_each ks (close verify k c) id
        ∙ ap (λ o. if any (λ j. j == id) ks then none else o)
            (get-delete k id c.conns ∙ rw same refl)
        ∙ either_none (any (λ j. j == id) ks))
    | inr other ↦ rw other (
        get-close_each ks (close verify k c) id
        ∙ ap (λ o. if any (λ j. j == id) ks then none else o)
            (get-delete k id c.conns ∙ rw other refl))
  ]
    where
      either_none : (b : Bool) → ◌≡◌ {A = Option (TrackedConn Cert)} (if b then none else none) none
      either_none true = refl
      either_none false = refl

  any-untrusted :
      (pool : Pool) (now id : ℕ) (m : Map ℕ (TrackedConn Cert))
      → IsUnique m
      → any (λ k. k == id) (keys (untrusted verify pool now m)) ≡ is_untrusted pool now (get id m)
  any-untrusted pool now id [] u = refl
  any-untrusted pool now id ((k, tc) ∷ m) u = elim (Bool-cases (k == id)) [
    | inl same ↦
        let missing : get id m ≡ none =
          Misses-get id m (subst (λ i. Misses i m) ((nat_beq_iff k id).0 same) u.0) in
        elim (Bool-cases (verifies verify tc pool now)) [
          | inl good ↦
              rw (good, same)
                (any-untrusted pool now id m u.1
                  ∙ ap (is_untrusted pool now) missing
                  ∙ rw good refl)
          | inr bad ↦ rw (bad, same) (ap not (sym bad))
        ]
    | inr other ↦ elim (Bool-cases (verifies verify tc pool now)) [
      | inl good ↦ rw (good, other) (any-untrusted pool now id m u.1)
      | inr bad ↦ rw (bad, other) (any-untrusted pool now id m u.1)
    ]
  ]

  close_kept :
      (pool : Pool) (now : ℕ) (o : Option (TrackedConn Cert))
      → (if is_untrusted pool now o then none else o) ≡ kept_by pool now o
  close_kept pool now none = refl
  close_kept pool now (some tc) = elim (Bool-cases (verifies verify tc pool now)) [
    | inl good ↦ rw good refl
    | inr bad ↦ rw bad refl
  ]

  pub checked_close :
      (ks : List ℕ) (c : ServerCreds Cert Pool) → (close_each verify ks c).checked ≡ c.checked
  checked_close [] c = refl
  checked_close (k ∷ ks) c = checked_close ks (close verify k c)

  source_close :
      (ks : List ℕ) (c : ServerCreds Cert Pool)
      → (close_each verify ks c).client_cas.current ≡ c.client_cas.current
  source_close [] c = refl
  source_close (k ∷ ks) c = source_close ks (close verify k c)

  pub close_untrusted_changed :
      (d : Disk Pool) (now id : ℕ) (c : ServerCreds Cert Pool)
      → IsUnique c.conns
      → ((Reload.get d c.client_cas).current == c.checked) ≡ false
      → get id
          (close_each verify
            (keys (untrusted verify (Reload.get d c.client_cas).current now c.conns))
            (record c {
              client_cas = Reload.get d c.client_cas;
              checked = (Reload.get d c.client_cas).current;
            })).conns
        ≡ kept_by (Reload.get d c.client_cas).current now (get id c.conns)
  close_untrusted_changed d now id c u changed =
      let pool = (Reload.get d c.client_cas).current in
      get-close_each (keys (untrusted verify pool now c.conns))
        (record c { client_cas = Reload.get d c.client_cas; checked = pool }) id
      ∙ ap (λ b. if b then none else get id c.conns) (any-untrusted pool now id c.conns u)
      ∙ close_kept pool now (get id c.conns)

  -- CloseUntrusted with an unchanged bundle closes nothing; with a changed one, exactly the connections that the
  -- new bundle does not verify are gone, and it is the bundle that was last checked.
  pub close_untrusted_lem :
      (d : Disk Pool) (now id : ℕ) (c : ServerCreds Cert Pool)
      → IsUnique c.conns
      → (let pool = (Reload.get d c.client_cas).current in
          let c' = (close_untrusted verify d now c).0 in
          (get id c'.conns
            ≡ (if pool == c.checked then get id c.conns else kept_by pool now (get id c.conns)))
          × (c'.checked ≡ (if pool == c.checked then c.checked else pool))
          × (c'.client_cas.current ≡ pool))
  unfolding close_untrusted
  close_untrusted_lem d now id c u =
      let pool = (Reload.get d c.client_cas).current in
      let ks = keys (untrusted verify pool now c.conns) in
      let c' : ServerCreds Cert Pool = record c {
        client_cas = Reload.get d c.client_cas;
        checked = pool;
      } in
      elim (Bool-cases (pool == c.checked)) [
        | inl same ↦ rw same (refl, refl, refl)
        | inr changed ↦
            rw changed (
              close_untrusted_changed d now id c u changed,
              checked_close ks c',
              source_close ks c',
            )
      ]

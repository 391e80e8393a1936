-- ===== src/Sampling/Laws.antt =====
-- What sampled eviction removes: one entry, the oldest of the sample.
use packetyeeter.Common.{
  ℕ, zero, suc, ◌≤◌, ◌≡◌, refl, ◌⊎◌, inl, inr, Option, some, [], ◌∷◌, arith, ltb, length, take, Key,
  Bool-cases, ap, subst,
}
use packetyeeter.Common.Assoc.{Map, get, delete, IsUnique}
use packetyeeter.MapCleaner.Laws.{NotBefore, get-cons, pick_first}
use packetyeeter.Sampling.{sample_oldest, delete_found, evict_oldest, eviction_sample_size}

module _ {K V : Type 0} (stamp : K → V → ℕ) where
  module _ ⦃key_eq : Key K⦄ where
    -- What the loop ends with, from a candidate.
    abbrev Sampled : ℕ → K → ℕ → Map K V → Option (K × ℕ) → Type 0
    Sampled n key time m out =
        (best : K) × (at : ℕ) × (out ≡ some (best, at))
        × (at ≤ time)
        × NotBefore stamp at (take n m)
        × (((best ≡ key) × (at ≡ time)) ⊎ ((v : V) × (get best m ≡ some v) × (at ≡ stamp best v)))

    sample_oldest-Sampled :
        (n : ℕ) (key : K) (time : ℕ) (m : Map K V)
        → IsUnique m
        → Sampled n key time m (sample_oldest stamp n (some (key, time)) m)
    unfolding sample_oldest
    sample_oldest-Sampled zero key time m u = (key, time, refl, omega arith, tt, inl (refl, refl))
    sample_oldest-Sampled (suc n) key time [] u =
        (key, time, refl, omega arith, tt, inl (refl, refl))
    sample_oldest-Sampled (suc n) key time ((k, v) ∷ m) u =
        elim (Bool-cases (ltb (stamp k v) time)) [
          | inl earlier ↦
              let (best, at, ran, le, rest, from) = sample_oldest-Sampled n k (stamp k v) m u.1 in
              (
                best,
                at,
                rw earlier ran,
                ground arith,
                (le, rest),
                inr (pick_first stamp k v m best at u.0 from),
              )
          | inr later ↦
              let (best, at, ran, le, rest, from) = sample_oldest-Sampled n key time m u.1 in
              (best, at, rw later ran, le, (ground arith, rest), keep best at from)
        ]
      where
        keep :
            (best : K) (at : ℕ)
            → ((best ≡ key) × (at ≡ time)) ⊎ ((w : V) × (get best m ≡ some w) × (at ≡ stamp best w))
            → ((best ≡ key) × (at ≡ time))
              ⊎ ((w : V) × (get best ((k, v) ∷ m) ≡ some w) × (at ≡ stamp best w))
        keep best at (inl e) = inl e
        keep best at (inr (w, e, f)) = inr (w, get-cons stamp k best v w m u.0 e, f)

    -- One entry of the map goes, and none of the first entries is older than it.
    abbrev pub Evicts : Map K V → Map K V → Type 0
    Evicts m out =
        (best : K) × (v : V) × (get best m ≡ some v)
        × NotBefore stamp (stamp best v) (take eviction_sample_size m)
        × (out ≡ delete best m)

    pub evict_oldest-Evicts :
        (m : Map K V) → IsUnique m → 1 ≤ length m → Evicts m (evict_oldest stamp m)
    unfolding evict_oldest sample_oldest
    evict_oldest-Evicts [] u h = absurd (omega arith)
    evict_oldest-Evicts ((k, v) ∷ m) u h =
        let (best, at, ran, le, rest, from) = sample_oldest-Sampled 7 k (stamp k v) m u.1 in
        let (w, here, same) = pick_first stamp k v m best at u.0 from in
        (
          best,
          w,
          here,
          (omega arith, subst (λ t. NotBefore stamp t (take 7 m)) same rest),
          ap (λ (o : Option (K × ℕ)). delete_found stamp o ((k, v) ∷ m)) ran,
        )

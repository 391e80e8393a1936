-- ===== src/Fingerprints/Types.antt =====
-- What pkg/collector/ebpf/fingerprint.go reads from the kernel. An address is the list of its bytes.
use native.Mathlib.Decide.{ℕ_discrete}
use packetyeeter.Common.{
  ℕ, ◌+◌, ◌%◌, ◌^◌, ◌≡◌, ◌↔◌, refl, true, false, List, [], ◌∷◌, arith, if◌then◌else◌, ltb, Key,
  discrete_beq,
}
use packetyeeter.Common.Assoc.{Map}

pub record FingerprintKey : Type 0 where
  pub dst : List ℕ
  pub src_net : List ℕ
  pub dst_port : ℕ
  pub proto : ℕ
  pub size_bucket : ℕ
  pub ttl_bucket : ℕ
  pub dropped : ℕ
  pub family : ℕ

pub fingerprint_key_discrete : Discrete FingerprintKey
fingerprint_key_discrete = hlevel ℕ_discrete

pub discrete_beq_iff {ℓ} :
    {A : Type ℓ} (d : Discrete A) (a b : A) → (discrete_beq d a b ≡ true) ↔ (a ≡ b)
discrete_beq_iff d a b = decided (d a b)
  where
    decided : (c : Dec (a ≡ b)) → ((elim c [ yes p ↦ true | no p ↦ false ]) ≡ true) ↔ (a ≡ b)
    decided (yes p) = (λ h. p, λ h. refl)
    decided (no n) = (λ h. absurd (ground (arith, h)), λ h. absurd (n h))

instance abbrev pub fingerprint_key : Key FingerprintKey
fingerprint_key = record {
  same = discrete_beq fingerprint_key_discrete;
  same_iff = discrete_beq_iff fingerprint_key_discrete;
}

pub record ScrubCounter : Type 0 where
  pub packets : ℕ
  pub bytes : ℕ

-- One bucket, summed over the CPUs.
pub record Fingerprint : Type 0 where
  pub key : FingerprintKey
  pub packets : ℕ
  pub bytes : ℕ

-- A fingerprint map: the counters of each CPU under a key.
abbrev pub FingerprintMap : Type 0
FingerprintMap = Map FingerprintKey (List ScrubCounter)

unfoldable pub sum_counters : List ScrubCounter → ℕ × ℕ → ℕ × ℕ
sum_counters [] sum = sum
sum_counters (v ∷ rest) sum =
    sum_counters rest ((sum.0 + v.packets) % 2 ^ 64, (sum.1 + v.bytes) % 2 ^ 64)

unfoldable pub sum_fingerprints : FingerprintMap → List Fingerprint
unfolding sum_counters
sum_fingerprints [] = []
sum_fingerprints ((k, per_cpu) ∷ rest) =
    let sum = sum_counters per_cpu (0, 0) in
    let more = sum_fingerprints rest in
    if ltb 0 sum.0 then record { key = k; packets = sum.0; bytes = sum.1 } ∷ more else more

abbrev pub fingerprint_size_bucket : ℕ → ℕ
fingerprint_size_bucket len =
    if ltb len 128
    then 0
    else if ltb len 256
    then 1
    else if ltb len 512
    then 2
    else if ltb len 1024
    then 3
    else 4

pub bytes_discrete : Discrete (List ℕ)
bytes_discrete = hlevel ℕ_discrete

instance abbrev pub bytes_key : Key (List ℕ)
bytes_key = record {
  same = discrete_beq bytes_discrete;
  same_iff = discrete_beq_iff bytes_discrete;
}

-- ===== src/ScrubRules/Sources.antt =====
-- encodeSources, rulePrefix and RateWindow of pkg/scrubrules/scrubrules.go.
use Prim.Native.Nat.{bit_or}
use packetyeeter.Common.{
  ℕ, zero, suc, ◌-◌, ◌/◌, ◌%◌, ◌^◌, min, max, Bool, List, [], ◌∷◌, if◌then◌else◌, ltb, length, map,
  replicate, get_or, set, ◌==◌, nat_key, not,
}
use packetyeeter.Common.Sort.{sort}
use packetyeeter.ScrubRules.Types.{
  Prefix, RulePrefix, ScrubRule, bit_len, rule_max_sources, prefix_key,
}

-- Addr.AsSlice: the address in `n` bytes, the highest first.
pub addr_bytes : ℕ → ℕ → List ℕ
addr_bytes zero a = []
addr_bytes (suc n) a = a / 256 ^ n % 256 ∷ addr_bytes n a

-- copy(dst, xs) for xs no longer than dst.
unfoldable pub overwrite {ℓ} : {A : Type ℓ} → List A → List A → List A
overwrite [] xs = []
overwrite (d ∷ ds) [] = d ∷ ds
overwrite (d ∷ ds) (x ∷ xs) = x ∷ overwrite ds xs

-- words[i] |= v
abbrev pub or_at : List ℕ → ℕ → ℕ → List ℕ
or_at words i v = set words i (bit_or (get_or words i 0) v)

-- The mask after the rounds below `i`.
pub mask_bytes : ℕ → List ℕ
mask_bytes zero = replicate 16 0
mask_bytes (suc i) = or_at (mask_bytes i) (i / 8) (0x80 / 2 ^ (i % 8))

pub rule_prefix : Prefix → RulePrefix
unfolding addr_bytes overwrite mask_bytes
rule_prefix p = record {
  addr = overwrite (replicate 16 0) (addr_bytes (bit_len p.is4 / 8) p.addr);
  mask = mask_bytes p.bits;
}

abbrev pub addr_before : Prefix → Prefix → Bool
addr_before x y = ltb x.addr y.addr

-- slices.Compact: of equal neighbours only the first stays.
pub compact : List Prefix → List Prefix
compact [] = []
compact (p ∷ []) = p ∷ []
compact (p ∷ q ∷ rest) = let tail = compact (q ∷ rest) in if p == q then tail else p ∷ tail

abbrev pub max_uint32 : ℕ
max_uint32 = 2 ^ 32 - 1

-- The last address of an IPv4 source.
pub source_end : Prefix → ℕ
source_end p = if p.bits == 0 then max_uint32 else bit_or p.addr (max_uint32 / 2 ^ p.bits)

-- The loop over the sources: SrcLo, SrcHi and SrcBsearch.
pub span : ℕ → List Prefix → ScrubRule → ScrubRule
unfolding source_end
span first_bits [] b = b
span first_bits (p ∷ rest) b = span first_bits rest (record b {
  src_bsearch = if not (p.bits == first_bits) then 0 else b.src_bsearch;
  src_lo = min b.src_lo p.addr;
  src_hi = max b.src_hi (source_end p);
})

abbrev no_prefix : RulePrefix
no_prefix = record { addr = replicate 16 0; mask = replicate 16 0 }

abbrev pub span_sources : List Prefix → ScrubRule → ScrubRule
span_sources [] b = b
span_sources (p ∷ rest) b =
    span p.bits (p ∷ rest) (record b { src_bsearch = 1; src_lo = max_uint32 })

unfoldable pub encode_sources : ScrubRule → List Prefix → Bool → ScrubRule
unfolding compact overwrite span rule_prefix
encode_sources b srcs v4 =
    let sorted : List Prefix = if v4 then compact (sort addr_before srcs) else srcs in
    let written : ScrubRule = record b {
      sources = overwrite (replicate rule_max_sources no_prefix) (map rule_prefix sorted);
      n_sources = length sorted % 2 ^ 8;
    } in
    if v4 then span_sources sorted written else written

-- RateWindow: the window in nanoseconds and its budget of packets.
unfoldable pub rate_window : ℕ → ℕ × ℕ
rate_window pps = if ltb pps 100 then (1_000_000_000, pps) else (100_000_000, pps / 10)

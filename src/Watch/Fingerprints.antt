-- ===== src/Watch/Fingerprints.antt =====
-- Which scrub fingerprints the analyzer passes on.
use packetyeeter.Common.{
  ◌≤◌, ◌<◌, ◌≡◌, refl, ◌⊎◌, ◌↔◌, inl, inr, String, Bool, true, false, not, ◌&&◌, ◌||◌, some, arith,
  eq_iff, length, if◌then◌else◌, ltb, ◌==◌, nat_key, string_key, nat_beq_iff,
}
use packetyeeter.Watch.{Fingerprint, invalid_fingerprint, max_fingerprint_interval_seconds}

-- What a fingerprint must satisfy to be passed on.
pub record IsFingerprint (fp : Fingerprint) : Type 0 where
  pub family : (length fp.dst_ip ≡ 4) ⊎ (length fp.dst_ip ≡ 16)
  pub same_family : length fp.src_net ≡ length fp.dst_ip
  pub protocol_byte : fp.protocol < 256
  pub port_word : fp.dst_port < 65536
  pub size_in : fp.size_bucket < 5
  pub ttl_in : fp.ttl_bucket < 8
  pub interval_in : (1 ≤ fp.interval_seconds) × (fp.interval_seconds ≤ 3600)

no_reason :
    (b : Bool) (r rest : String)
    → (r == "") ≡ false
    → (if b then r else rest) ≡ ""
    → (b ≡ false) × (rest ≡ "")
no_reason false r rest n h = (refl, h)
no_reason true r rest n h = ground (arith, eq_iff r "")

neither : (a b : Bool) → (not a && not b) ≡ false → (a ≡ true) ⊎ (b ≡ true)
neither true b h = inl refl
neither false true h = inr refl
neither false false h = cc

-- invalidFingerprint gives no reason exactly for a fingerprint whose fields are all in range.
pub invalid_fingerprint-IsFingerprint :
    (fp : Fingerprint) → (invalid_fingerprint (some fp) ≡ "") ↔ IsFingerprint fp
unfolding invalid_fingerprint
invalid_fingerprint-IsFingerprint fp = (from, λ v. ground arith)
  where
    from : invalid_fingerprint (some fp) ≡ "" → IsFingerprint fp
    from h =
        let a =
          no_reason (not (length fp.dst_ip == 4) && not (length fp.dst_ip == 16)) "dst_ip length" _
            refl h in
        let b =
          no_reason (not (length fp.src_net == length fp.dst_ip)) "src_net length" _ refl a.1 in
        let c = no_reason (ltb 255 fp.protocol) "protocol out of range" _ refl b.1 in
        let d = no_reason (ltb 65535 fp.dst_port) "dst_port out of range" _ refl c.1 in
        let e = no_reason (ltb 4 fp.size_bucket) "size_bucket out of range" _ refl d.1 in
        let f = no_reason (ltb 7 fp.ttl_bucket) "ttl_bucket out of range" _ refl e.1 in
        let g =
          no_reason
            (fp.interval_seconds == 0 || ltb max_fingerprint_interval_seconds fp.interval_seconds)
            "interval_seconds out of range" _ refl f.1 in
        record {
          family = elim (neither _ _ a.0) [
            | inl four ↦ inl ((nat_beq_iff _ _).0 four)
            | inr six ↦ inr ((nat_beq_iff _ _).0 six)
          ];
          same_family = ground (arith, b.0);
          protocol_byte = ground (arith, c.0);
          port_word = ground (arith, d.0);
          size_in = ground (arith, e.0);
          ttl_in = ground (arith, f.0);
          interval_in = ground (arith, g.0);
        }

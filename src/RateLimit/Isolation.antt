-- ===== src/RateLimit/Isolation.antt =====
-- One key of the rate limiter does not touch the bucket of another.
use packetyeeter.Common.{
  ℕ, ◌≡◌, subst, ◌≢◌, ◌⊎◌, inl, inr, String, Option, none, some, arith, length, take, leb,
  Bool-cases, ◌==◌, nat_key, string_key, eq_iff,
}
use packetyeeter.Common.Assoc.{Map, get, delete, get-put, get-delete}
use packetyeeter.MapCleaner.Laws.{NotBefore}
use packetyeeter.Sampling.{eviction_sample_size}
use packetyeeter.Sampling.Laws.{evict_oldest-Evicts}
use packetyeeter.RateLimit.Bucket.{Floats, TokenBucket, take_token}
use packetyeeter.RateLimit.Limiter.{Limiter, ask, seen_at, allow_ip}
use packetyeeter.RateLimit.Bounds.{FloatLaws, IsTable, IsLimiter}

module _ (fl : Floats) (laws : FloatLaws fl) where
  -- What a request does to the bucket of another key: nothing, unless the table was full and the bucket had to
  -- go, and then none of the sampled buckets was idle for longer.
  abbrev pub Untouched :
      ℕ
      → String
      → TokenBucket fl
      → Map String (TokenBucket fl)
      → Map String (TokenBucket fl)
      → Type 0
  Untouched cap other tb m out =
      (get other out ≡ some tb)
      ⊎ ((length m ≡ cap) × NotBefore (seen_at fl) tb.last_seen (take eviction_sample_size m))

  ask-Untouched :
      (key other : String) (o : Option (TokenBucket fl)) (fresh tb : TokenBucket fl) (cap now : ℕ)
      (m : Map String (TokenBucket fl))
      → IsTable fl laws cap m
      → key ≢ other
      → get other m ≡ some tb
      → Untouched cap other tb m (ask fl key o fresh cap now m).0
  ask-Untouched key other (some held) fresh tb cap now m v ne e =
      inl (ground (arith, get-put key other (take_token fl now held).0 m, eq_iff key other))
  ask-Untouched key other none fresh tb cap now m v ne e = elim (Bool-cases (leb cap (length m))) [
    | inr space ↦
        rw space
          (inl (ground (arith, get-put key other (take_token fl now fresh).0 m, eq_iff key other)))
    | inl full ↦
        let (best, gone, here, oldest, out) =
          evict_oldest-Evicts (seen_at fl) m v.distinct (ground (arith, v.room)) in
        elim (Bool-cases (best == other)) [
          | inl evicted ↦
              let same : best ≡ other = (eq_iff best other).0 evicted in
              let old : gone ≡ tb = ground arith in
              inr (
                ground (arith, v.bounded),
                subst (λ t. NotBefore (seen_at fl) t.last_seen (take eviction_sample_size m)) old
                    oldest,
              )
          | inr spared ↦
              rw (full, out)
                (inl (
                  ground (
                    arith,
                    get-put key other (take_token fl now fresh).0 (delete best m),
                    get-delete best other m,
                    eq_iff key other,
                  )))
        ]
  ]

  -- A request of one address leaves the bucket of every other address as it is, or the table was full and a
  -- bucket went that no sampled one was idle longer than.
  pub allow_ip-Untouched :
      (ip other : String) (tb : TokenBucket fl) (made now : ℕ) (l : Limiter fl)
      → IsLimiter fl laws l
      → ip ≢ other
      → get other l.ip_limiters ≡ some tb
      → Untouched l.max_ip_limiters other tb l.ip_limiters
          (allow_ip fl (some ip) made now l).0.ip_limiters
  unfolding allow_ip
  allow_ip-Untouched ip other tb made now l v ne e =
      ask-Untouched ip other (get ip l.ip_limiters) _ tb l.max_ip_limiters now l.ip_limiters v.ips
        ne e

-- ===== src/RateLimit/Bounds.antt =====
-- The rate limiter stays bounded, and its buckets stay within their bursts.
use packetyeeter.Common.{
  ℕ, suc, ◌≤◌, ◌<◌, ◌≡◌, refl, sym, ap, subst, inl, inr, String, Bool, false, not, ◌||◌, Option,
  none, some, [], ◌∷◌, arith, All, length, leb, Bool-cases, ◌==◌, nat_key, string_key,
  length-keep-le, keep, All-keep,
}
use packetyeeter.Common.Assoc.{
  Map, get, has-get, IsUnique, length-put, length-put-has, length-delete, IsUnique-put,
  IsUnique-delete, IsUnique-keep, All-put, All-delete, Misses,
}
use packetyeeter.Sampling.Laws.{evict_oldest-Evicts}
use packetyeeter.RateLimit.Bucket.{Floats, TokenBucket, take_token, set_rate, capped}
use packetyeeter.RateLimit.Limiter.{
  Limiter, ask, make_room, seen_at, allow_ip, allow_asn, allow_both, set_ip_rate, set_asn_rate,
  each_rate, cleanup, is_recent, unknown_asn,
}

-- What the limiter relies on: no float is less than itself, and taking one away from a float that does not
-- exceed another gives one that does not either. Both hold of float64, NaN and the infinities included.
pub record FloatLaws (fl : Floats) : Type 0 where
  pub less-self : (x : fl.F) → fl.less x x ≡ false
  pub less-minus : (c x : fl.F) → fl.less c x ≡ false → fl.less c (fl.minus x fl.one_f) ≡ false

module _ (fl : Floats) (laws : FloatLaws fl) where
  -- A bucket holds no more than its capacity.
  abbrev pub IsCapped : TokenBucket fl → Type 0
  IsCapped tb = fl.less tb.capacity tb.tokens ≡ false

  less-capped : (c x : fl.F) → fl.less c (capped fl c x) ≡ false
  less-capped c x = elim (Bool-cases (fl.less c x)) [
    | inl over ↦ rw over (laws.less-self c)
    | inr under ↦ rw under under
  ]

  pub take_token-IsCapped : (now : ℕ) (tb : TokenBucket fl) → IsCapped (take_token fl now tb).0
  unfolding take_token
  take_token-IsCapped now tb =
      let tokens =
        capped fl tb.capacity
          (fl.plus tb.tokens (fl.times (fl.seconds now tb.last_seen) tb.rate)) in
      let within : fl.less tb.capacity tokens ≡ false = less-capped tb.capacity _ in
      elim (Bool-cases (fl.at_most fl.one_f tokens)) [
        | inl enough ↦ rw enough (laws.less-minus tb.capacity tokens within)
        | inr short ↦ rw short within
      ]

  pub set_rate-IsCapped :
      (rate capacity : fl.F) (now : ℕ) (tb : TokenBucket fl)
      → IsCapped (set_rate fl rate capacity now tb)
  unfolding set_rate
  set_rate-IsCapped rate capacity now tb = less-capped capacity _

  -- A table of buckets: at most `cap`, each key once, each bucket within its burst.
  pub record IsTable (cap : ℕ) (m : Map String (TokenBucket fl)) : Type 0 where
    pub room : 1 ≤ cap
    pub bounded : length m ≤ cap
    pub distinct : IsUnique m
    pub within : All (λ p. IsCapped p.1) m

  pub record IsLimiter (l : Limiter fl) : Type 0 where
    pub ips : IsTable l.max_ip_limiters l.ip_limiters
    pub asns : IsTable l.max_asn_limiters l.asn_limiters

  make_room_lem :
      (cap : ℕ) (m : Map String (TokenBucket fl))
      → IsTable cap m
      → (length (make_room fl cap m) < cap) × IsTable cap (make_room fl cap m)
  make_room_lem cap m v = elim (Bool-cases (leb cap (length m))) [
    | inr space ↦ rw space (ground arith, v)
    | inl full ↦
        let (best, tb, here, oldest, out) =
          evict_oldest-Evicts (seen_at fl) m v.distinct (ground (arith, v.room)) in
        let less = length-delete best tb m v.distinct here in
        rw (full, out)
          (
            omega (arith, v.bounded),
            record {
              room = v.room;
              bounded = omega (arith, v.bounded);
              distinct = IsUnique-delete best m v.distinct;
              within = All-delete (λ p. IsCapped p.1) best m v.within;
            },
          )
  ]

  ask-IsTable :
      (key : String) (o : Option (TokenBucket fl)) (fresh : TokenBucket fl) (cap now : ℕ)
      (m : Map String (TokenBucket fl))
      → get key m ≡ o
      → IsTable cap m
      → IsTable cap (ask fl key o fresh cap now m).0
  ask-IsTable key (some tb) fresh cap now m e v =
      let there = has-get key m tb e in
      record {
        room = v.room;
        bounded = omega (arith, v.bounded, length-put-has key (take_token fl now tb).0 m there);
        distinct = IsUnique-put key _ m v.distinct;
        within =
            All-put (λ p. IsCapped p.1) key _ m (λ j same. take_token-IsCapped now tb) v.within;
      }
  ask-IsTable key none fresh cap now m e v =
      let (space, v') = make_room_lem cap m v in
      record {
        room = v.room;
        bounded =
            omega (arith, space, length-put key (take_token fl now fresh).0 (make_room fl cap m));
        distinct = IsUnique-put key _ _ v'.distinct;
        within =
            All-put (λ p. IsCapped p.1) key _ _ (λ j same. take_token-IsCapped now fresh) v'.within;
      }

  pub allow_ip-IsLimiter :
      (ip : Option String) (made now : ℕ) (l : Limiter fl)
      → IsLimiter l
      → IsLimiter (allow_ip fl ip made now l).0
  unfolding allow_ip
  allow_ip-IsLimiter none made now l v = v
  allow_ip-IsLimiter (some ip) made now l v = record {
    ips = ask-IsTable ip (get ip l.ip_limiters) _ _ now _ refl v.ips;
    asns = v.asns;
  }

  pub allow_asn-IsLimiter :
      (asn : String) (made now : ℕ) (l : Limiter fl)
      → IsLimiter l
      → IsLimiter (allow_asn fl asn made now l).0
  unfolding allow_asn
  allow_asn-IsLimiter asn made now l v = elim (Bool-cases (asn == "" || asn == unknown_asn)) [
    | inl unresolved ↦ rw unresolved v
    | inr resolved ↦ rw resolved (record {
      ips = v.ips;
      asns = ask-IsTable asn (get asn l.asn_limiters) _ _ now _ refl v.asns;
    })
  ]

  -- Allow keeps both tables within their caps, each key once, and each bucket within its burst.
  pub allow_both-IsLimiter :
      (ip : Option String) (asn : String) (made now : ℕ) (l : Limiter fl)
      → IsLimiter l
      → IsLimiter (allow_both fl ip asn made now l).0
  unfolding allow_both
  allow_both-IsLimiter ip asn made now l v =
      let v' = allow_ip-IsLimiter ip made now l v in
      elim (Bool-cases (not (allow_ip fl ip made now l).1)) [
        | inl denied ↦ rw denied v'
        | inr passed ↦ rw passed (allow_asn-IsLimiter asn made now _ v')
      ]

  Misses-each_rate :
      (rate burst : fl.F) (clock : String → ℕ) (key : String) (m : Map String (TokenBucket fl))
      → Misses key m
      → Misses key (each_rate fl rate burst clock m)
  Misses-each_rate rate burst clock key [] h = tt
  Misses-each_rate rate burst clock key (p ∷ m) h =
      (h.0, Misses-each_rate rate burst clock key m h.1)

  each_rate-IsTable :
      (cap : ℕ) (rate burst : fl.F) (clock : String → ℕ) (m : Map String (TokenBucket fl))
      → IsTable cap m
      → IsTable cap (each_rate fl rate burst clock m)
  each_rate-IsTable cap rate burst clock m v = record {
    room = v.room;
    bounded = subst (λ n. n ≤ cap) (sym (size m)) v.bounded;
    distinct = unique m v.distinct;
    within = all m;
  }
    where
      size : (m : Map String (TokenBucket fl)) → length (each_rate fl rate burst clock m) ≡ length m
      size [] = refl
      size (p ∷ m) = ap suc (size m)

      unique :
          (m : Map String (TokenBucket fl))
          → IsUnique m
          → IsUnique (each_rate fl rate burst clock m)
      unique [] u = tt
      unique ((key, tb) ∷ m) u = (Misses-each_rate rate burst clock key m u.0, unique m u.1)

      all :
          (m : Map String (TokenBucket fl))
          → All (λ p. IsCapped p.1) (each_rate fl rate burst clock m)
      all [] = tt
      all ((key, tb) ∷ m) = (set_rate-IsCapped rate burst (clock key) tb, all m)

  keep-IsTable :
      (cap : ℕ) (p : String × TokenBucket fl → Bool) (m : Map String (TokenBucket fl))
      → IsTable cap m
      → IsTable cap (keep p m)
  keep-IsTable cap p m v = record {
    room = v.room;
    bounded = omega (arith, v.bounded, length-keep-le p m);
    distinct = IsUnique-keep p m v.distinct;
    within = All-keep (λ q. IsCapped q.1) p m v.within;
  }

  -- An operation of the limiter, with the clock readings that it makes.
  pub data Operation : Type 0 where
    allow : Option String → String → ℕ → ℕ → Operation
    ip_rate_set asn_rate_set : fl.F → (String → ℕ) → Operation
    cleaned : ℕ → Operation

  abbrev pub operate : Operation → Limiter fl → Limiter fl
  operate (allow ip asn made now) l = (allow_both fl ip asn made now l).0
  operate (ip_rate_set rate clock) l = set_ip_rate fl rate clock l
  operate (asn_rate_set rate clock) l = set_asn_rate fl rate clock l
  operate (cleaned now) l = cleanup fl now l

  -- Every operation keeps both tables within their caps, each key once, and each bucket within its burst.
  pub operate-IsLimiter : (o : Operation) (l : Limiter fl) → IsLimiter l → IsLimiter (operate o l)
  unfolding set_ip_rate set_asn_rate cleanup
  operate-IsLimiter (allow ip asn made now) l v = allow_both-IsLimiter ip asn made now l v
  operate-IsLimiter (ip_rate_set rate clock) l v = record {
    ips = each_rate-IsTable _ rate l.ip_burst clock _ v.ips;
    asns = v.asns;
  }
  operate-IsLimiter (asn_rate_set rate clock) l v = record {
    ips = v.ips;
    asns = each_rate-IsTable _ rate l.asn_burst clock _ v.asns;
  }
  operate-IsLimiter (cleaned now) l v = record {
    ips = keep-IsTable _ (is_recent fl l.max_age now) _ v.ips;
    asns = keep-IsTable _ (is_recent fl l.max_age now) _ v.asns;
  }

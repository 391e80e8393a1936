-- ===== src/RateLimit/Limiter.antt =====
-- Limiter of pkg/ratelimit/limiter.go: a bucket for each address and each autonomous system. A caller passes
-- the two readings of the clock, when a bucket is made and when it is asked. The caps are natural numbers.
use packetyeeter.Common.{
  ℕ, ◌+◌, String, Bool, true, false, ◌||◌, Option, none, some, [], ◌∷◌, if◌then◌else◌, ltb, leb,
  length, ◌==◌, nat_key, string_key, keep, not,
}
use packetyeeter.Common.Assoc.{Map, get, put}
use packetyeeter.Sampling.{evict_oldest}
use packetyeeter.RateLimit.Bucket.{Floats, TokenBucket, new_token_bucket, take_token, set_rate}

abbrev pub unknown_asn : String
unknown_asn = "Unknown"

abbrev default_max_ip_limiters : ℕ
default_max_ip_limiters = 200_000

abbrev default_max_asn_limiters : ℕ
default_max_asn_limiters = 50_000

module _ (fl : Floats) where
  open fl use {F, zero_f, at_most, of_nat}

  pub record Config : Type 0 where
    pub ip_rate : F
    pub asn_rate : F
    pub ip_burst : F
    pub asn_burst : F
    pub cleanup_interval : ℕ
    pub max_age : ℕ
    pub max_ip_entries : ℕ
    pub max_asn_entries : ℕ
    pub ip_rate_exact : Option F
    pub asn_rate_exact : Option F

  pub record Limiter : Type 0 where
    pub ip_limiters : Map String (TokenBucket fl)
    pub asn_limiters : Map String (TokenBucket fl)
    pub ip_rate : F
    pub asn_rate : F
    pub ip_burst : F
    pub asn_burst : F
    pub max_ip_limiters : ℕ
    pub max_asn_limiters : ℕ
    pub cleanup_interval : ℕ
    pub max_age : ℕ
    pub last_cleanup : ℕ

  abbrev default_config : Config
  default_config = record {
    ip_rate = of_nat 100;
    asn_rate = of_nat 1000;
    ip_burst = of_nat 200;
    asn_burst = of_nat 2000;
    cleanup_interval = 300_000_000_000;
    max_age = 600_000_000_000;
    max_ip_entries = default_max_ip_limiters;
    max_asn_entries = default_max_asn_limiters;
    ip_rate_exact = none;
    asn_rate_exact = none;
  }

  -- An exact rate wins; else a rate that is not positive counts as unset.
  abbrev chosen_rate : Option F → F → F → F
  chosen_rate (some exact) given default = exact
  chosen_rate none given default = if at_most given zero_f then default else given

  abbrev pub new_limiter : Config → ℕ → Limiter
  new_limiter cfg now = record {
    ip_limiters = [];
    asn_limiters = [];
    ip_rate = chosen_rate cfg.ip_rate_exact cfg.ip_rate default_config.ip_rate;
    asn_rate = chosen_rate cfg.asn_rate_exact cfg.asn_rate default_config.asn_rate;
    ip_burst = if at_most cfg.ip_burst zero_f then default_config.ip_burst else cfg.ip_burst;
    asn_burst = if at_most cfg.asn_burst zero_f then default_config.asn_burst else cfg.asn_burst;
    max_ip_limiters =
        if cfg.max_ip_entries == 0 then default_max_ip_limiters else cfg.max_ip_entries;
    max_asn_limiters =
        if cfg.max_asn_entries == 0 then default_max_asn_limiters else cfg.max_asn_entries;
    cleanup_interval =
        if cfg.cleanup_interval == 0 then default_config.cleanup_interval else cfg.cleanup_interval;
    max_age = if cfg.max_age == 0 then default_config.max_age else cfg.max_age;
    last_cleanup = now;
  }

  abbrev pub seen_at : String → TokenBucket fl → ℕ
  seen_at key tb = tb.last_seen

  -- Room for one more bucket.
  abbrev pub make_room : ℕ → Map String (TokenBucket fl) → Map String (TokenBucket fl)
  make_room cap m = if leb cap (length m) then evict_oldest seen_at m else m

  -- The bucket of the key is asked, and made first if there is none.
  abbrev pub ask :
      String
      → Option (TokenBucket fl)
      → TokenBucket fl
      → ℕ
      → ℕ
      → Map String (TokenBucket fl)
      → Map String (TokenBucket fl) × Bool
  ask key (some tb) fresh cap now m =
      let asked = take_token fl now tb in (put key asked.0 m, asked.1)
  ask key none fresh cap now m =
      let asked = take_token fl now fresh in (put key asked.0 (make_room cap m), asked.1)

  unfoldable pub allow_ip : Option String → ℕ → ℕ → Limiter → Limiter × Bool
  unfolding evict_oldest take_token
  allow_ip none made now l = (l, true)
  allow_ip (some ip) made now l =
      let asked =
        ask ip (get ip l.ip_limiters) (new_token_bucket fl l.ip_burst l.ip_rate made)
          l.max_ip_limiters now l.ip_limiters in
      (record l { ip_limiters = asked.0 }, asked.1)

  unfoldable pub allow_asn : String → ℕ → ℕ → Limiter → Limiter × Bool
  unfolding evict_oldest take_token
  allow_asn asn made now l =
      let asked =
        ask asn (get asn l.asn_limiters) (new_token_bucket fl l.asn_burst l.asn_rate made)
          l.max_asn_limiters now l.asn_limiters in
      if asn == "" || asn == unknown_asn
      then (l, true)
      else (record l { asn_limiters = asked.0 }, asked.1)

  unfoldable pub allow_both : Option String → String → ℕ → ℕ → Limiter → Limiter × Bool
  unfolding allow_ip allow_asn
  allow_both ip asn made now l =
      let first = allow_ip ip made now l in
      if not first.1 then (first.0, false) else allow_asn asn made now first.0

  abbrev pub each_rate :
      F → F → (String → ℕ) → Map String (TokenBucket fl) → Map String (TokenBucket fl)
  each_rate rate burst clock [] = []
  each_rate rate burst clock ((key, tb) ∷ m) =
      (key, set_rate fl rate burst (clock key) tb) ∷ each_rate rate burst clock m

  -- `clock` is the reading of the clock when the bucket of a key is reached.
  unfoldable pub set_ip_rate : F → (String → ℕ) → Limiter → Limiter
  unfolding set_rate
  set_ip_rate rate clock l = record l {
    ip_rate = rate;
    ip_limiters = each_rate rate l.ip_burst clock l.ip_limiters;
  }

  unfoldable pub set_asn_rate : F → (String → ℕ) → Limiter → Limiter
  unfolding set_rate
  set_asn_rate rate clock l = record l {
    asn_rate = rate;
    asn_limiters = each_rate rate l.asn_burst clock l.asn_limiters;
  }

  -- Not last seen before the cutoff, which is `max_age` before `now`.
  abbrev pub is_recent : ℕ → ℕ → String × TokenBucket fl → Bool
  is_recent max_age now p = not (ltb (p.1.last_seen + max_age) now)

  unfoldable pub cleanup : ℕ → Limiter → Limiter
  cleanup now l = record l {
    ip_limiters = keep (is_recent l.max_age now) l.ip_limiters;
    asn_limiters = keep (is_recent l.max_age now) l.asn_limiters;
    last_cleanup = now;
  }

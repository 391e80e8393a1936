-- ===== src/Watch.antt =====
-- The decision stream of pkg/analyzer/watch.go: a hub that hands each decision to every subscriber, whose
-- ring drops the oldest decision when it is full. A subscriber's pointer is its key in the hub. An index out
-- of range, which panics in Go, is `none`.
pub mod Queue
pub mod Contract
pub mod Drain
pub mod Trace
pub mod Hub
pub mod Fingerprints
mod Tests
use packetyeeter.Common.{
  ℕ, zero, suc, ◌+◌, ◌-◌, ◌*◌, ◌%◌, ◌^◌, String, Bool, true, false, not, ◌&&◌, ◌||◌, Option, none,
  some, List, [], ◌∷◌, if◌then◌else◌, ltb, leb, length, get_elem?, replicate, ◌==◌, nat_key,
  string_key,
}
use packetyeeter.Common.Assoc.{Map, put, delete, has}
use packetyeeter.Common.Panic.{◌>>=◌, store}
use packetyeeter.Common.Text.{codes}

abbrev default_watch_buffer_size : ℕ
default_watch_buffer_size = 10_000

abbrev default_watch_max_subscribers : ℕ
default_watch_max_subscribers = 16

abbrev pub max_fingerprint_interval_seconds : ℕ
max_fingerprint_interval_seconds = 3600

pub record Fingerprint : Type 0 where
  pub collector_id : String
  pub dst_ip : List ℕ
  pub protocol : ℕ
  pub dst_port : ℕ
  pub size_bucket : ℕ
  pub ttl_bucket : ℕ
  pub src_net : List ℕ
  pub dropped : Bool
  pub packets : ℕ
  pub interval_seconds : ℕ
  pub bytes : ℕ

-- `notified` is whether the channel of capacity one holds its token.
pub record WatchSubscriber {ℓ} (D : Type ℓ) : Type ℓ where
  pub name : String
  pub notified : Bool
  pub ring : List (Option D)
  pub head : ℕ
  pub n : ℕ
  pub dropped : ℕ

pub record WatchHub {ℓ} (D : Type ℓ) : Type ℓ where
  pub max_subscribers : ℕ
  pub buffer_size : ℕ
  pub subs : Map ℕ (WatchSubscriber D)
  pub active : ℕ

-- What becomes of a decision that is sent: `shut_down` is a success after which the analyzer's context is over.
pub data Sending : Type 0 where
  sent failed shut_down : Sending

-- i % len(ring), which panics on an empty ring.
abbrev pub wrap : ℕ → ℕ → Option ℕ
wrap i n = if n == 0 then none else some (i % n)

module _ {ℓ} {D : Type ℓ} where
  pub new_watch_hub : ℕ → ℕ → WatchHub D
  new_watch_hub max_subscribers buffer_size = record {
    max_subscribers =
        if max_subscribers == 0 then default_watch_max_subscribers else max_subscribers;
    buffer_size = if buffer_size == 0 then default_watch_buffer_size else buffer_size;
    subs = [];
    active = 0;
  }

  abbrev pub new_subscriber : String → ℕ → WatchSubscriber D
  new_subscriber name buffer_size = record {
    name = name;
    notified = false;
    ring = replicate buffer_size none;
    head = 0;
    n = 0;
    dropped = 0;
  }

  -- `s` is the address of the new subscriber.
  pub subscribe : ℕ → String → WatchHub D → WatchHub D × Bool
  subscribe s name h =
      let subs = put s (new_subscriber name h.buffer_size) h.subs in
      if leb h.max_subscribers (length h.subs)
      then (h, false)
      else (record h { subs = subs; active = length subs % 2 ^ 32 }, true)

  pub unsubscribe : ℕ → WatchHub D → WatchHub D
  unsubscribe s h =
      let subs = delete s h.subs in
      if has s h.subs then record h { subs = subs; active = length subs % 2 ^ 32 } else h

  -- The full ring drops its oldest decision.
  abbrev pub evict : WatchSubscriber D → Option (WatchSubscriber D)
  evict s = do
    ring ← store s.ring s.head none
    head ← wrap (s.head + 1) (length ring)
    some (record s { ring = ring; head = head; n = s.n - 1; dropped = (s.dropped + 1) % 2 ^ 64 })

  abbrev pub enqueue : WatchSubscriber D → D → Option (WatchSubscriber D)
  enqueue s d = do
    i ← wrap (s.head + s.n) (length s.ring)
    ring ← store s.ring i (some d)
    some (record s { ring = ring; n = s.n + 1; notified = true })

  pub push : WatchSubscriber D → D → Option (WatchSubscriber D)
  push s d = do s' ← if s.n == length s.ring then evict s else some s; enqueue s' d

  pub pop : WatchSubscriber D → Option (WatchSubscriber D × Option D)
  pop s = if s.n == 0 then some (s, none) else do
    d ← get_elem? s.ring s.head
    ring ← store s.ring s.head none
    head ← wrap (s.head + 1) (length ring)
    some (record s { ring = ring; head = head; n = s.n - 1 }, d)

  pub push_each : Map ℕ (WatchSubscriber D) → D → Option (Map ℕ (WatchSubscriber D))
  unfolding push
  push_each [] d = some []
  push_each ((p, s) ∷ subs) d = do s' ← push s d; subs' ← push_each subs d; some ((p, s') ∷ subs')

  pub publish : WatchHub D → D → Option (WatchHub D)
  unfolding push_each
  publish h d =
      if h.active == 0
      then some h
      else do subs ← push_each h.subs d; some (record h { subs = subs })

  -- The pushes of publishers, one after the other.
  abbrev pub push_all : List D → WatchSubscriber D → Option (WatchSubscriber D)
  push_all [] s = some s
  push_all (d ∷ ds) s = do s' ← push s d; push_all ds s'

  -- What becomes of a round, with the subscriber as the publishers left it while the decision was sent.
  abbrev pub after_send :
      Option (WatchSubscriber D)
      → D
      → Option (WatchSubscriber D × List D × Bool)
      → Sending
      → Option (WatchSubscriber D × List D × Bool)
  after_send pushed d more failed = do s ← pushed; some (s, [], false)
  after_send pushed d more shut_down = do s ← pushed; some (s, d ∷ [], false)
  after_send pushed d more sent = do rest ← more; some (rest.0, d ∷ rest.1, rest.2)

  abbrev pub first_arrivals : List (List D) → List D
  first_arrivals [] = []
  first_arrivals (ds ∷ rest) = ds

  abbrev pub later_arrivals : List (List D) → List (List D)
  later_arrivals [] = []
  later_arrivals (ds ∷ rest) = rest

  -- The inner loop of WatchDecisions after a notification: it pops until there is nothing left, and returns
  -- early when a decision could not be sent or the analyzer shuts down. No lock is held while a decision is sent:
  -- `arrivals` says what the publishers push in each round. A round pops one decision, so one round more than there
  -- are decisions and arrivals is enough.
  pub drain :
      ℕ
      → (D → Sending)
      → List (List D)
      → WatchSubscriber D
      → Option (WatchSubscriber D × List D × Bool)
  unfolding pop push
  drain zero send arrivals s = none
  drain (suc fuel) send arrivals s = do
    popped ← pop s
    let pushed = push_all (first_arrivals arrivals) popped.0
    let more = (do s' ← pushed; drain fuel send (later_arrivals arrivals) s')
    elim popped.1 [ none ↦ some (popped.0, [], true) | some d ↦ after_send pushed d more (send d) ]

pub data Decision (C O : Type 0) : Type 0 where
  command : C → Decision C O
  campaign : O → Decision C O
  fingerprint : Fingerprint → Decision C O

-- The reason to refuse a fingerprint, or "".
pub invalid_fingerprint : Option Fingerprint → String
invalid_fingerprint none = "missing fingerprint"
invalid_fingerprint (some fp) =
    if not (length fp.dst_ip == 4) && not (length fp.dst_ip == 16)
    then "dst_ip length"
    else if not (length fp.src_net == length fp.dst_ip)
    then "src_net length"
    else if ltb 255 fp.protocol
    then "protocol out of range"
    else if ltb 65535 fp.dst_port
    then "dst_port out of range"
    else if ltb 4 fp.size_bucket
    then "size_bucket out of range"
    else if ltb 7 fp.ttl_bucket
    then "ttl_bucket out of range"
    else if fp.interval_seconds == 0 || ltb max_fingerprint_interval_seconds fp.interval_seconds
    then "interval_seconds out of range"
    else ""

module _ {C O : Type 0} where
  abbrev pub publish_to :
      Option (WatchHub (Decision C O)) → Decision C O → Option (Option (WatchHub (Decision C O)))
  unfolding publish
  publish_to none d = some none
  publish_to (some h) d = do h' ← publish h d; some (some h')

  -- `watch` is absent when the API is disabled.
  pub publish_command :
      Option (WatchHub (Decision C O)) → Option C → Option (Option (WatchHub (Decision C O)))
  publish_command watch none = some watch
  publish_command watch (some cmd) = publish_to watch (command cmd)

  pub handle_fingerprint_signal :
      Option (WatchHub (Decision C O))
      → String
      → Option Fingerprint
      → Option (Option (WatchHub (Decision C O)))
  unfolding invalid_fingerprint
  handle_fingerprint_signal watch collector_id none = some watch
  handle_fingerprint_signal watch collector_id (some fp) =
      let sent = publish_to watch (fingerprint (record fp { collector_id = collector_id })) in
      if not (invalid_fingerprint (some fp) == "") then some watch else sent

-- strconv.ParseUint(name, 10, 8), from the digits read so far.
abbrev pub digits : List ℕ → ℕ → Option ℕ
digits [] v = some v
digits (c ∷ cs) v =
    let more = digits cs (v * 10 + (c - 48)) in
    if ltb c 48 || ltb 57 c || ltb 255 (v * 10 + (c - 48)) then none else more

abbrev pub parse_u8 : List ℕ → Option ℕ
parse_u8 [] = none
parse_u8 (c ∷ cs) = digits (c ∷ cs) 0

pub ip_protocol_number : String → ℕ
ip_protocol_number name =
    if name == "icmp"
    then 1
    else if name == "tcp"
    then 6
    else if name == "udp"
    then 17
    else elim (parse_u8 (codes name)) [ none ↦ 0 | some v ↦ v ]

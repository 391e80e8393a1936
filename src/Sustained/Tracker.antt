-- ===== src/Sustained/Tracker.antt =====
-- Tracker of pkg/analyzer/sustained/tracker.go. The order of the clients is a list from its back, which is the
-- client seen longest ago. `good` is the reputation callback, and the clock is read by the caller.
use packetyeeter.Common.{
  ℕ, ◌+◌, ◌*◌, ◌%◌, ◌^◌, String, Bool, false, not, ◌&&◌, ◌||◌, Option, none, some, List, [], ◌∷◌,
  ◌++◌, if◌then◌else◌, leb, length, keep, ◌==◌, nat_key, string_key,
}
use packetyeeter.Common.Assoc.{Map, get, put, delete}
use packetyeeter.Sustained.Client.{
  ClientWindow, new_client, prune_client, count_request, count_bytes, observe_resource, totals,
  section_count, second,
}
use packetyeeter.Sustained.Config.{Settings}
use packetyeeter.Sustained.Thresholds.{Measured}

pub record Tracker : Type 0 where
  pub settings : Settings
  pub clients : Map String ClientWindow
  pub client_order : List String
  pub last_evaluation : Option ℕ
  pub client_evictions : ℕ
  pub resource_evictions : ℕ
  pub reputation_deferrals : ℕ
  pub long_deferred_clients : ℕ
  pub held_clients : ℕ
  pub decisions : ℕ

abbrev pub new_tracker : Settings → Tracker
new_tracker settings = record {
  settings = settings;
  clients = [];
  client_order = [];
  last_evaluation = none;
  client_evictions = 0;
  resource_evictions = 0;
  reputation_deferrals = 0;
  long_deferred_clients = 0;
  held_clients = 0;
  decisions = 0;
}

abbrev pub window_of : Tracker → ℕ
window_of t = t.settings.config.window_seconds * second

-- Remove of a list element.
abbrev pub without : String → List String → List String
without ip order = keep (λ other. not (other == ip)) order

abbrev pub to_front : String → List String → List String
to_front ip order = without ip order ++ ip ∷ []

abbrev pub remove_client : String → Tracker → Tracker
remove_client ip t = record t {
  client_order = without ip t.client_order;
  clients = delete ip t.clients;
}

-- The client seen longest ago makes room.
abbrev pub evict_client : List String → Tracker → Tracker
evict_client [] t = t
evict_client (oldest ∷ order) t =
    let removed = remove_client oldest t in
    record removed { client_evictions = (t.client_evictions + 1) % 2 ^ 64 }

abbrev pub with_room : Tracker → Tracker
with_room t =
    if leb t.settings.config.maximum_clients (length t.clients)
    then evict_client t.client_order t
    else t

-- `client`: the window of an address, made if there is none.
abbrev pub client_of : Option ClientWindow → String → ℕ → Tracker → Tracker × ClientWindow
client_of (some c) ip now t = (record t { client_order = to_front ip t.client_order }, c)
client_of none ip now t =
    let roomy = with_room t in
    let c = new_client t.settings.config.maximum_resources_per_client now in
    (
      record roomy {
        client_order = roomy.client_order ++ ip ∷ [];
        clients = put ip c roomy.clients;
      },
      c,
    )

abbrev pub store_client : String → ℕ → ClientWindow × Bool → Tracker → Tracker
store_client ip now (c, evicted) t = record t {
  clients = put ip (record c { last_seen = now }) t.clients;
  resource_evictions =
      if evicted then (t.resource_evictions + 1) % 2 ^ 64 else t.resource_evictions;
}

abbrev pub observe_in : ℕ → ℕ → String → ℕ → Tracker × ClientWindow → Tracker
observe_in resource section ip now (t, c) =
    store_client ip now
      (observe_resource resource section now (count_request now (prune_client (window_of t) now c)))
      t

-- ObserveRequest, from the hashes of its resource and section on.
unfoldable pub observe_request : String → ℕ → ℕ → ℕ → Tracker → Tracker
unfolding prune_client observe_resource
observe_request ip resource section now t =
    if ip == "" || not t.settings.config.enabled
    then t
    else observe_in resource section ip now (client_of (get ip t.clients) ip now t)

abbrev pub bytes_in : String → ℕ → ℕ → Option ClientWindow → Tracker → Tracker
bytes_in ip bytes now none t = t
bytes_in ip bytes now (some c) t =
    store_client ip now (count_bytes bytes now (prune_client (window_of t) now c), false)
      (record t { client_order = to_front ip t.client_order })

unfoldable pub observe_bytes : String → ℕ → ℕ → Tracker → Tracker
unfolding prune_client
observe_bytes ip bytes now t =
    if ip == "" || bytes == 0 || not t.settings.config.enabled
    then t
    else bytes_in ip bytes now (get ip t.clients) t

abbrev pub measure : ClientWindow → Measured
measure c =
    let sum = totals c.buckets in
    record {
      requests = sum.0;
      bytes = sum.1;
      resources = length c.resources.order;
      sections = section_count c;
    }

abbrev pub is_enforcing : Tracker → Bool
is_enforcing t = t.settings.config.enabled && t.settings.config.enforce

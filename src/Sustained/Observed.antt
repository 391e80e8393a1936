-- ===== src/Sustained/Observed.antt =====
-- Requests and response sizes keep the tracker well-formed.
use packetyeeter.Common.{
  ℕ, ◌≤◌, ◌≡◌, sym, ap, subst, inl, inr, String, Bool, true, false, not, ◌||◌, arith, Bool-cases,
  Option-cases, ◌==◌, string_key, eq_iff, nat_key,
}
use packetyeeter.Common.Assoc.{
  get, has, has-get, has-put, IsUnique-put, length-put-has, All-put, All-get,
}
use packetyeeter.Sustained.Client.{
  ClientWindow, prune_client, count_request, count_bytes, observe_resource,
}
use packetyeeter.Sustained.Window.{IsWindow}
use packetyeeter.Sustained.Observing.{
  seen_now, observe_resource-IsWindow, count_request-IsWindow, count_bytes-IsWindow,
}
use packetyeeter.Sustained.Pruning.{prune_client-IsWindow}
use packetyeeter.Sustained.Tracker.{
  Tracker, observe_in, bytes_in, to_front, client_of, store_client, observe_request, observe_bytes,
  window_of,
}
use packetyeeter.Sustained.Invariant.{limit_of, IsClient, IsTracker, later_tracker, client_of-Held}

-- What an operation stores in the window it was given.
pub store_client-IsTracker :
    (ip : String) (now : ℕ) (c : ClientWindow) (evicted : Bool) (t : Tracker)
    → IsTracker now t
    → has ip t.clients ≡ true
    → IsWindow (limit_of t) (seen_now now c)
    → IsTracker now (store_client ip now (c, evicted) t)
store_client-IsTracker ip now c evicted t v there w = record {
  roomy = v.roomy;
  bounded = omega (arith, length-put-has ip (seen_now now c) t.clients there, v.bounded);
  unique = IsUnique-put ip (seen_now now c) t.clients v.unique;
  windows =
      All-put (λ p. IsClient (limit_of t) now p.1) ip (seen_now now c) t.clients
        (λ j e. (w, omega arith)) v.windows;
  same = λ other.
      ground
        (arith, has-put ip other (seen_now now c) t.clients, v.same other, eq_iff ip other, there);
}

pub observe_in-IsTracker :
    (ip : String) (resource section now : ℕ) (p : Tracker × ClientWindow)
    → IsTracker now p.0
    → IsClient (limit_of p.0) now p.1
    → has ip p.0.clients ≡ true
    → IsTracker now (observe_in resource section ip now p)
unfolding prune_client observe_resource
observe_in-IsTracker ip resource section now (t, c) v w there =
    let pruned = prune_client (window_of t) now c in
    let out = observe_resource resource section now (count_request now pruned) in
    store_client-IsTracker ip now out.0 out.1 t v there (
      observe_resource-IsWindow (limit_of t) resource section now (count_request now pruned)
        (count_request-IsWindow (limit_of t) now pruned
          (prune_client-IsWindow (window_of t) now (limit_of t) c w.0))
        w.1 v.roomy.resources)

pub observe_request-IsTracker :
    (ip : String) (resource section clock now : ℕ) (t : Tracker)
    → IsTracker clock t
    → clock ≤ now
    → IsTracker now (observe_request ip resource section now t)
unfolding observe_request
observe_request-IsTracker ip resource section clock now t v le =
    elim (Bool-cases (ip == "" || not t.settings.config.enabled)) [
      | inl off ↦ rw off (later_tracker clock now t v le)
      | inr on ↦
          let (v', w, there, kept) = client_of-Held ip clock now t v le in
          let p = client_of (get ip t.clients) ip now t in
          rw on (
            observe_in-IsTracker ip resource section now p v'
              (subst (λ n. IsClient n now p.1)
                (ap (λ s. s.config.maximum_resources_per_client) (sym kept)) w)
              there)
    ]

pub bytes_in-IsTracker :
    (ip : String) (bytes clock now : ℕ) (t : Tracker)
    → IsTracker clock t
    → clock ≤ now
    → IsTracker now (bytes_in ip bytes now (get ip t.clients) t)
unfolding prune_client
bytes_in-IsTracker ip bytes clock now t v le = elim (Option-cases (get ip t.clients)) [
  | inl missing ↦ rw missing (later_tracker clock now t v le)
  | inr (c, found) ↦
      let (v', w, there, kept) = client_of-Held ip clock now t v le in
      let held = All-get (IsClient (limit_of t) clock) ip t.clients c v.windows found in
      let moved = record t { client_order = to_front ip t.client_order } in
      let v'' : IsTracker now moved = rw found at v' in
      rw found (
        store_client-IsTracker ip now (count_bytes bytes now (prune_client (window_of t) now c))
          false moved v'' (has-get ip t.clients c found)
          (count_bytes-IsWindow (limit_of t) bytes now (prune_client (window_of t) now c)
            (prune_client-IsWindow (window_of t) now (limit_of t) c held.0)
            (omega (arith, held.1))))
]

pub observe_bytes-IsTracker :
    (ip : String) (bytes clock now : ℕ) (t : Tracker)
    → IsTracker clock t
    → clock ≤ now
    → IsTracker now (observe_bytes ip bytes now t)
unfolding observe_bytes
observe_bytes-IsTracker ip bytes clock now t v le =
    elim (Bool-cases (ip == "" || bytes == 0 || not t.settings.config.enabled)) [
      | inl off ↦ rw off (later_tracker clock now t v le)
      | inr on ↦ rw on (bytes_in-IsTracker ip bytes clock now t v le)
    ]

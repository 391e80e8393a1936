-- ===== src/Sustained/Invariant.antt =====
-- The invariant of the tracker: the clients are at most the maximum, each with a well-formed window.
use packetyeeter.Common.{
  ℕ, ◌≤◌, ◌<◌, ◌≡◌, refl, sym, ap, subst, inl, inr, String, true, List, [], ◌∷◌, arith, leb, length,
  All, All-map_imp, Bool-cases, Option-cases, string_key, eq_iff, nat_key,
}
use packetyeeter.Common.Assoc.{
  Map, get, has, has-get, has-put, IsUnique, IsUnique-put, IsUnique-delete, length-put,
  length-delete-lt, All-put, All-delete, All-get,
}
use packetyeeter.Sustained.Client.{ClientWindow, new_client}
use packetyeeter.Sustained.Window.{IsWindow, new_client-IsWindow}
use packetyeeter.Sustained.Tracker.{Tracker, with_room, client_of, new_tracker, evict_client}
use packetyeeter.Sustained.Config.{Settings}
use packetyeeter.Sustained.Order.{
  AreSame, in_order, in_order-snoc, in_order-without, in_order-to_front, has-delete, no_entries,
}

abbrev pub limit_of : Tracker → ℕ
limit_of t = t.settings.config.maximum_resources_per_client

abbrev pub IsClient : ℕ → ℕ → ClientWindow → Type 0
IsClient limit clock c = IsWindow limit c × (c.last_seen ≤ clock)

-- The settings leave room for a client and for a resource.
pub record IsRoomy (s : Settings) : Type 0 where
  pub clients : 1 ≤ s.config.maximum_clients
  pub resources : 1 ≤ s.config.maximum_resources_per_client

pub record IsTracker (clock : ℕ) (t : Tracker) : Type 0 where
  pub roomy : IsRoomy t.settings
  pub bounded : length t.clients ≤ t.settings.config.maximum_clients
  pub unique : IsUnique t.clients
  pub windows : All (λ p. IsClient (limit_of t) clock p.1) t.clients
  pub same : AreSame t.client_order t.clients

pub new_tracker-IsTracker : (s : Settings) → IsRoomy s → IsTracker 0 (new_tracker s)
new_tracker-IsTracker s r = record {
  roomy = r;
  bounded = omega arith;
  unique = tt;
  windows = tt;
  same = λ ip. refl;
}

pub clients_later :
    (limit clock now : ℕ) (m : Map String ClientWindow)
    → clock ≤ now
    → All (λ p. IsClient limit clock p.1) m
    → All (λ p. IsClient limit now p.1) m
clients_later limit clock now m le h = All-map_imp _ _ (λ p q. (q.0, omega (arith, q.1))) m h

pub later_tracker :
    (clock now : ℕ) (t : Tracker) → IsTracker clock t → clock ≤ now → IsTracker now t
later_tracker clock now t v le = record {
  roomy = v.roomy;
  bounded = v.bounded;
  unique = v.unique;
  windows = clients_later (limit_of t) clock now t.clients le v.windows;
  same = v.same;
}

-- Room for one more client.
abbrev pub Spaced : ℕ → Tracker → Tracker → Type 0
Spaced clock t t' =
    IsTracker clock t'
    × (length t'.clients < t.settings.config.maximum_clients)
    × (t'.settings ≡ t.settings)

pub with_room-Spaced : (clock : ℕ) (t : Tracker) → IsTracker clock t → Spaced clock t (with_room t)
with_room-Spaced clock t v =
    elim (Bool-cases (leb t.settings.config.maximum_clients (length t.clients))) [
      | inr space ↦ rw space (v, ground arith, refl)
      | inl full ↦ rw full (evicting t.client_order refl)
    ]
  where
    evicting :
        (order : List String) → t.client_order ≡ order → Spaced clock t (evict_client order t)
    evicting [] e =
        let gone = no_entries t.clients (subst (λ o. AreSame o t.clients) e v.same) in
        (v, omega (arith, gone, v.roomy.clients), refl)
    evicting (oldest ∷ order) e =
        let there : has oldest t.clients ≡ true = ground (
          arith,
          subst (λ o. in_order oldest o ≡ has oldest t.clients) e (v.same oldest),
          eq_iff oldest oldest,
        ) in
        let less = length-delete-lt oldest t.clients there in
        (
          record {
            roomy = v.roomy;
            bounded = omega (arith, less, v.bounded);
            unique = IsUnique-delete oldest t.clients v.unique;
            windows = All-delete (λ p. IsClient (limit_of t) clock p.1) oldest t.clients v.windows;
            same = λ ip. ground (
              arith,
              in_order-without ip oldest t.client_order,
              has-delete oldest ip t.clients,
              v.same ip,
            );
          },
          omega (arith, less, v.bounded),
          refl,
        )

-- `client` returns a well-formed window that the map holds under the address.
abbrev pub Held : ℕ → Tracker → String → Tracker × ClientWindow → Type 0
Held now t ip (t', c) =
    IsTracker now t'
    × IsClient (limit_of t) now c
    × (has ip t'.clients ≡ true)
    × (t'.settings ≡ t.settings)

pub client_of-Held :
    (ip : String) (clock now : ℕ) (t : Tracker)
    → IsTracker clock t
    → clock ≤ now
    → Held now t ip (client_of (get ip t.clients) ip now t)
client_of-Held ip clock now t v le = elim (Option-cases (get ip t.clients)) [
  | inr (c, found) ↦
      let there = has-get ip t.clients c found in
      let held = All-get (IsClient (limit_of t) clock) ip t.clients c v.windows found in
      rw found (
        record {
          roomy = v.roomy;
          bounded = v.bounded;
          unique = v.unique;
          windows = clients_later (limit_of t) clock now t.clients le v.windows;
          same = λ other. ground (
            arith,
            in_order-to_front other ip t.client_order,
            v.same other,
            eq_iff ip other,
            there,
            v.same ip,
          );
        },
        (held.0, omega (arith, held.1)),
        there,
        refl,
      )
  | inl missing ↦
      let (v', space, kept) = with_room-Spaced clock t v in
      let roomy = with_room t in
      let c = new_client (limit_of t) now in
      rw missing (
        record {
          roomy = v'.roomy;
          bounded = omega (
            arith,
            length-put ip c roomy.clients,
            space,
            ap (λ s. s.config.maximum_clients) kept,
          );
          unique = IsUnique-put ip c roomy.clients v'.unique;
          windows =
              All-put (λ p. IsClient (limit_of roomy) now p.1) ip c roomy.clients
                (λ j e. (
                  subst (λ n. IsWindow n c)
                      (ap (λ s. s.config.maximum_resources_per_client) (sym kept))
                      (new_client-IsWindow (limit_of t) now),
                  omega arith,
                ))
                (clients_later (limit_of roomy) clock now roomy.clients le v'.windows);
          same = λ other. ground (
            arith,
            in_order-snoc other ip roomy.client_order,
            has-put ip other c roomy.clients,
            v'.same other,
          );
        },
        (new_client-IsWindow (limit_of t) now, omega arith),
        ground (arith, has-put ip ip c roomy.clients, eq_iff ip ip),
        kept,
      )
]

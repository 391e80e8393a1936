-- ===== src/GrpcTls/Revoke.antt =====
-- trackingServerCreds of pkg/grpctls/revoke.go: the client connections, and those that a rotation of the client
-- CA bundle closes. A pool is compared by its address, which is what Key compares; a connection's pointer is
-- its key. The parameter `verifies` is the verification of crypto/x509 at a time.
use packetyeeter.Common.{
  ℕ, Bool, true, false, not, ◌&&◌, List, [], ◌∷◌, if◌then◌else◌, Key, ◌==◌, nat_key, keep, length,
}
use packetyeeter.Common.Assoc.{Map, put, delete, keys}
use packetyeeter.GrpcTls.Reload.{Disk, FileSource, get}

-- The chain of a client certificate, the leaf first.
pub record TrackedConn (Cert : Type 0) : Type 0 where
  pub leaf : Cert
  pub inter : List Cert

pub record ServerCreds (Cert Pool : Type 0) : Type 0 where
  pub client_cas : FileSource Pool
  pub conns : Map ℕ (TrackedConn Cert)
  pub checked : Pool

module _ {Cert Pool : Type 0} ⦃pool_key : Key Pool⦄
    (verify : Cert → List Cert → Pool → ℕ → Bool) where
  abbrev pub verifies : TrackedConn Cert → Pool → ℕ → Bool
  verifies tc roots now = verify tc.leaf tc.inter roots now

  abbrev pub new_tracking_server_creds : FileSource Pool → ServerCreds Cert Pool
  new_tracking_server_creds client_cas = record {
    client_cas = client_cas;
    conns = [];
    checked = client_cas.current;
  }

  -- The handshake of the library has succeeded with this chain; the result is whether the connection is kept.
  -- A connection without a verified client certificate is passed on and not tracked.
  unfoldable pub server_handshake :
      ℕ → List Cert → ℕ → ServerCreds Cert Pool → ServerCreds Cert Pool × Bool
  server_handshake id [] now c = (c, true)
  server_handshake id (leaf ∷ rest) now c =
      let tc : TrackedConn Cert = record { leaf = leaf; inter = rest } in
      let pool = c.client_cas.current in
      if not (pool == c.checked) && not (verifies tc pool now)
      then (c, false)
      else (record c { conns = put id tc c.conns }, true)

  -- The loop over the connections.
  abbrev pub untrusted : Pool → ℕ → Map ℕ (TrackedConn Cert) → Map ℕ (TrackedConn Cert)
  untrusted pool now m = keep (λ p. not (verifies p.1 pool now)) m

  -- trackedConn.Close
  abbrev pub close : ℕ → ServerCreds Cert Pool → ServerCreds Cert Pool
  close id c = record c { conns = delete id c.conns }

  abbrev pub close_each : List ℕ → ServerCreds Cert Pool → ServerCreds Cert Pool
  close_each [] c = c
  close_each (id ∷ rest) c = close_each rest (close id c)

  -- The result is how many connections it closed.
  unfoldable pub close_untrusted : Disk Pool → ℕ → ServerCreds Cert Pool → ServerCreds Cert Pool × ℕ
  unfolding get
  close_untrusted d now c =
      let client_cas = get d c.client_cas in
      let pool = client_cas.current in
      let c' = record c { client_cas = client_cas } in
      let gone = untrusted pool now c.conns in
      if pool == c.checked
      then (c', 0)
      else (close_each (keys gone) (record c' { checked = pool }), length gone)

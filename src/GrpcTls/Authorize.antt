-- ===== src/GrpcTls/Authorize.antt =====
-- MethodAuthorizer of pkg/grpctls/authz.go. strings.EqualFold is the parameter `equal_fold`; what the handshake
-- verified and what the client sent are fields of the connection's TLS state.
use packetyeeter.Common.{
  String, Bool, true, false, not, Option, none, some, List, [], ◌∷◌, if◌then◌else◌, any, ◌==◌,
  string_key,
}
use packetyeeter.Common.Result.{Result, ok, err}

pub record Certificate : Type 0 where
  pub common_name : String
  pub dns_names : List String

-- credentials.TLSInfo of a connection.
pub record TlsInfo : Type 0 where
  pub verified_chains : List (List Certificate)
  pub peer_certificates : List Certificate

pub data AuthInfo : Type 0 where
  tls : TlsInfo → AuthInfo
  insecure : AuthInfo

-- The peer of a context, if it has one.
abbrev pub Context : Type 0
Context = Option AuthInfo

pub record MethodAuthorizer : Type 0 where
  pub methods : List String
  pub names : List String

pub data Denied : Type 0 where
  permission_denied : Denied

abbrev pub leaf_of : List (List Certificate) → Option Certificate
leaf_of [] = none
leaf_of ([] ∷ chains) = none
leaf_of ((leaf ∷ chain) ∷ chains) = some leaf

abbrev pub verified_leaf : Context → Option Certificate
verified_leaf none = none
verified_leaf (some insecure) = none
verified_leaf (some (tls info)) = leaf_of info.verified_chains

module _ (equal_fold : String → String → Bool) where
  unfoldable pub cert_matches_names : Certificate → List String → Bool
  cert_matches_names cert [] = false
  cert_matches_names cert (want ∷ names) =
      let rest = cert_matches_names cert names in
      if cert.common_name == want
      then true
      else if any (λ dns. equal_fold dns want) cert.dns_names
      then true
      else rest

  abbrev pub leaf_matches : Option Certificate → List String → Bool
  leaf_matches none names = false
  leaf_matches (some leaf) names = cert_matches_names leaf names

  abbrev pub peer_name_allowed : Context → List String → Bool
  peer_name_allowed ctx names = leaf_matches (verified_leaf ctx) names

  unfoldable pub authorize : MethodAuthorizer → Context → String → Result Denied (Unit {0})
  unfolding cert_matches_names
  authorize a ctx method =
      if not (any (λ m. m == method) a.methods)
      then ok tt
      else if leaf_matches (verified_leaf ctx) a.names
      then ok tt
      else err permission_denied

  abbrev pub handled :
      {S R : Type 0}
      → Result Denied (Unit {0})
      → (S → S × Result Denied R)
      → S
      → S × Result Denied R
  handled (err e) handler state = (state, err e)
  handled (ok passed) handler state = handler state

  -- UnaryInterceptor and StreamInterceptor: the handler runs on what it is given, and changes the server's state.
  unfoldable pub intercept :
      {S R : Type 0}
      → MethodAuthorizer
      → Context
      → String
      → (S → S × Result Denied R)
      → S
      → S × Result Denied R
  unfolding authorize
  intercept a ctx method handler state = handled (authorize a ctx method) handler state

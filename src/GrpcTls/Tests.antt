-- ===== src/GrpcTls/Tests.antt =====
-- Runs of the client CA rotation and its theorems at concrete inputs. A certificate and a pool are numbers; a
-- pool verifies the certificates of its own number.
use packetyeeter.Common.{
  ℕ, ◌+◌, ◌≡◌, refl, String, string_key, Bool, true, some, List, [], ◌∷◌, ◌==◌, nat_key,
  if◌then◌else◌,
}
use packetyeeter.Common.Assoc.{get, IsUnique}
use packetyeeter.Common.Result.{Result, ok, err}
use packetyeeter.GrpcTls.Authorize.{
  Certificate, tls, Context, MethodAuthorizer, Denied, permission_denied, cert_matches_names,
  authorize, intercept,
}
use packetyeeter.GrpcTls.Authorized.{IsAllowed, intercept-IsAllowed}
use packetyeeter.GrpcTls.Reload
use packetyeeter.GrpcTls.Reload.{Disk, FileSource, FileStamp, get-get}
use packetyeeter.GrpcTls.Revoke.{
  ServerCreds, new_tracking_server_creds, server_handshake, close_untrusted,
}
use packetyeeter.GrpcTls.Laws.{kept_by, close_untrusted_lem}

abbrev verify : ℕ → List ℕ → ℕ → ℕ → Bool
verify leaf rest pool now = leaf == pool

abbrev stamp_at : ℕ → FileStamp
stamp_at t = record { mod_time = t; size = 100 }

abbrev source : FileSource ℕ
source = record { stamps = stamp_at 1 ∷ []; current = 7 }

-- The bundle on disk is replaced by pool 8.
abbrev replaced : Disk ℕ
replaced = record { stamps = some (stamp_at 2 ∷ []); parsed = some 8 }

abbrev served : ServerCreds ℕ ℕ
served = (server_handshake verify 1 (7 ∷ []) 10 (new_tracking_server_creds verify source)).0

abbrev after_rotation : ServerCreds ℕ ℕ
after_rotation = (close_untrusted verify replaced 20 served).0

served-IsUnique : IsUnique served.conns
unfolding server_handshake
served-IsUnique = (tt, tt)

close_untrusted_lem_example :
    (get 1 after_rotation.conns ≡ (
      if (Reload.get replaced served.client_cas).current == served.checked
      then get 1 served.conns
      else kept_by verify (Reload.get replaced served.client_cas).current 20 (get 1 served.conns)))
    × (after_rotation.checked ≡ (
        if (Reload.get replaced served.client_cas).current == served.checked
        then served.checked
        else (Reload.get replaced served.client_cas).current))
    × (after_rotation.client_cas.current ≡ (Reload.get replaced served.client_cas).current)
close_untrusted_lem_example = close_untrusted_lem verify replaced 20 1 served served-IsUnique

-- A rotation closes the connection that only the old bundle verifies.
rotation_run : after_rotation.conns ≡ []
unfolding server_handshake close_untrusted Reload.get
rotation_run = refl

-- A handshake that used pool 7 and ends after the rotation to pool 8 is kept without being checked again.
late_handshake_run : (server_handshake verify 2 (7 ∷ []) 30 after_rotation).1 ≡ true
unfolding server_handshake close_untrusted Reload.get
late_handshake_run = refl

-- A client that sends the controller's certificate, which the handshake did not verify.
abbrev controller : Certificate
controller = record { common_name = "controller"; dns_names = [] }

abbrev rules_api : MethodAuthorizer
rules_api = record { methods = "/Control/PushRules" ∷ []; names = "controller" ∷ [] }

abbrev forged : Context
forged = some (tls (record { verified_chains = []; peer_certificates = controller ∷ [] }))

abbrev answer : ℕ → ℕ × Result Denied ℕ
answer pushes = (pushes + 1, ok pushes)

abbrev same_case : String → String → Bool
same_case s t = s == t

intercept-IsAllowed_example :
    (IsAllowed same_case rules_api forged "/Control/PushRules"
      → intercept same_case rules_api forged "/Control/PushRules" answer 4 ≡ (5, ok 4))
    × (¬ IsAllowed same_case rules_api forged "/Control/PushRules"
        → intercept same_case rules_api forged "/Control/PushRules" answer 4
          ≡ (4, err permission_denied))
intercept-IsAllowed_example =
    intercept-IsAllowed same_case rules_api forged "/Control/PushRules" answer 4

forged_run :
    intercept same_case rules_api forged "/Control/PushRules" answer 4 ≡ (4, err permission_denied)
unfolding intercept authorize cert_matches_names
forged_run = refl

verified_run :
    intercept same_case rules_api
      (some (tls (record { verified_chains = (controller ∷ []) ∷ []; peer_certificates = [] })))
      "/Control/PushRules"
      answer
      4
    ≡ (5, ok 4)
unfolding intercept authorize cert_matches_names
verified_run = refl

-- ===== src/GrpcTls.antt =====
-- The TLS part of pkg/grpctls: reloaded files (reload.go) and the connections that a client CA rotation closes
-- (revoke.go).
pub mod Reload
pub mod Revoke
pub mod Laws
pub mod Authorize
pub mod Authorized
mod Tests

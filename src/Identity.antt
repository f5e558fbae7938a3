-- ===== src/Identity.antt =====
-- internal/identity/identity.go: the device's key pair, and the check of a peer's certificate.
mod Tests
pub mod Error
pub mod Certificate
pub mod Tls
pub mod Directory
pub mod Pair
pub mod Load
pub mod Create

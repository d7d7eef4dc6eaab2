-- ===== src/Client.antt =====
-- vault-rust/src/client.rs: the client of the ATM. The network, TLS and JSON are parameters.
pub mod Fingerprint
pub mod Tls
pub mod Pinned
pub mod Agent
pub mod Calls
pub mod Operator
pub mod Signed
pub mod Connected
pub mod Verdicts
pub mod Tests

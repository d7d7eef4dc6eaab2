-- ===== src/Vault.antt =====
-- vault-rust/src/vault.rs: the vault engine. `Errors`, `Environment` and `Session` are its frame;
-- each other child models a group of its methods, with the proofs in the modules below that child.
pub mod Tests
pub mod Errors
pub mod Environment
pub mod Session
pub mod Keysets
pub mod Tokens
pub mod Coins
pub mod Payment
pub mod Issue
pub mod Swap
pub mod Topup
pub mod Receive
pub mod Merchant
pub mod Settle
pub mod State
pub mod Money
pub mod Flash

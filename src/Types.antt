-- ===== src/Types.antt =====
-- The data of vault-rust/src/types.rs. Texts are UTF-8 `String`s as in the source; `u64`, `u32` and
-- `usize` are natural numbers, with the wrap-around written where a counter is incremented.
pub mod Wire
use fupi.Common.{ℕ, String, Option, none, List, []}

pub record Keyset : Type 0 where
  pub keyset_id : String
  pub n : String
  pub e : ℕ

-- Named `Proof` in the source: a bearer proof, that is a coin.
pub record Proof : Type 0 where
  pub secret : String
  pub sig : String
  pub n : String
  pub e : ℕ
  pub keyset_id : Option String
  pub p2pk : Option String
  pub claimer : Option String

abbrev pub default_exponent : ℕ
default_exponent = 65537

pub record Receipt : Type 0 where
  pub id : ℕ
  pub invoice : Option String
  pub amount : ℕ
  pub secrets : List String
  pub ts : ℕ
  pub settled : ℕ
  pub rejected : ℕ

pub record PendingOut : Type 0 where
  pub secret : String
  pub r : String
  pub blinded : String
  pub amount : ℕ
  pub keyset_id : String

pub record PendingSwap : Type 0 where
  pub inputs : List Proof
  pub outputs : List PendingOut

pub record FlashState : Type 0 where
  pub proofs : List Proof
  pub journal : List String
  pub trusted_keyset : Option Keyset
  pub outbox : List String
  pub keysets : List Keyset
  pub device_key : Option String
  pub device_seq : ℕ
  pub pending_swap : Option PendingSwap
  pub receipts : List Receipt

-- `FlashState::default()`
abbrev pub default_state : FlashState
default_state = record {
  proofs = [];
  journal = [];
  trusted_keyset = none;
  outbox = [];
  keysets = [];
  device_key = none;
  device_seq = 0;
  pending_swap = none;
  receipts = [];
}

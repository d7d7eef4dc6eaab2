-- ===== src/Types/Wire.antt =====
-- The requests and responses of the ATM's interface, in vault-rust/src/types.rs. A floating-point
-- amount is of a type `F` that the model knows nothing of; an `i64` is an integer of the crates.
use fupi.Common.{ℕ, String, Bool, Option, List}
use fupi.Types.{Keyset, Proof}
use fupi.Crypto.{ℤ}

pub record AtmInfo (F : Type 0) : Type 0 where
  pub name : String
  pub version : String
  pub keyset_id : String
  pub reserve : F
  pub issued : ℤ
  pub spent_count : ℕ
  pub tls_enabled : Bool
  pub tls_fingerprint_sha256 : Option String

pub record CreditRequest (F : Type 0) : Type 0 where
  pub amount : F
  pub reference : String

pub record CreditResponse (F : Type 0) : Type 0 where
  pub reserve : F

pub record BlindSignRequest : Type 0 where
  pub blinded_message : String
  pub amount : ℕ
  pub device : Option String
  pub seq : Option ℕ
  pub device_sig : Option String

pub record BlindSignResponse : Type 0 where
  pub blind_signature : String

pub record SettleResponse : Type 0 where
  pub result : String

pub record AllocateRequest (F : Type 0) : Type 0 where
  pub device : String
  pub amount : F
  pub reference : String

pub record AllocateResponse (F : Type 0) : Type 0 where
  pub allocated : F

pub record SwapOut : Type 0 where
  pub blinded_message : String
  pub amount : ℕ

pub record SwapRequest : Type 0 where
  pub inputs : List Proof
  pub outputs : List SwapOut

pub record SwapResponse : Type 0 where
  pub signatures : List String

pub record KeysetsResponse : Type 0 where
  pub keysets : List Keyset

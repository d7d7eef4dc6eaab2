-- ===== src/Vault/Environment.antt =====
-- What the vault is connected to: the flash storage, the ATM's answers, randomness and the clock, over
-- an unknown world; and the printer and parser of tokens.
use fupi.Common.{ℕ, String, Bool, Option, List}
use fupi.Common.Result.{Result}
use fupi.Types.{Keyset, Proof, FlashState}
use fupi.Storage.{StorageError}
use fupi.Vault.Errors.{ClientError}

pub record Environment : Type 1 where
  pub World : Type 0
  -- `FlashStorage::save` and `wipe`
  pub save : FlashState → World → Result StorageError (Unit {0}) × World
  pub wipe : World → Result StorageError (Unit {0}) × World
  -- `AtmClient`: each call may be answered in any way.
  pub get_keysets : World → Result ClientError (List Keyset) × World
  pub get_keyset : World → Result ClientError Keyset × World
  pub blind_sign_device :
      String → ℕ → String → ℕ → String → World → Result ClientError String × World
  pub swap : List Proof → List (String × ℕ) → World → Result ClientError (List String) × World
  pub settle_as : Proof → Option String → World → Result ClientError (Bool × String) × World
  -- The sixteen bytes of a secret, a blinding factor for a modulus, the 32 bytes of a new key.
  pub secret_bytes : World → List ℕ × World
  pub random_blinder : ℕ → World → ℕ × World
  pub key_bytes : World → List ℕ × World
  -- Unix seconds, 0 without a clock
  pub now : World → ℕ × World

-- `serde_json::to_vec` and `from_slice` of a list of proofs, with the texts of their errors.
pub record TokenCodec : Type 0 where
  pub to_vec : List Proof → Result String (List ℕ)
  pub from_slice : List ℕ → Result String (List Proof)

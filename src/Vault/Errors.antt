-- ===== src/Vault/Errors.antt =====
-- `VaultError`, with the `ClientError` of vault-rust/src/client.rs and its display.
use fupi.Common.{ℕ, String, ◌<>◌}
use fupi.Common.Text.{show}
use fupi.Crypto.{CryptoError, crypto_error_text}
use fupi.Storage.{StorageError, io_error, json_error}

pub data ClientError : Type 0 where
  transport : String → ClientError
  http_status : ℕ → String → ClientError
  serialization : String → ClientError

-- `ClientError::to_string`
unfoldable pub client_error_text : ClientError → String
client_error_text (transport e) = "Network transport error: " <> e
client_error_text (http_status code message) = "HTTP error " <> (show code <> (": " <> message))
client_error_text (serialization e) = "JSON serialization error: " <> e

-- The fields are those of the source's variants, in their order.
pub data VaultError : Type 0 where
  insufficient_funds : ℕ → ℕ → VaultError
  crypto : CryptoError → VaultError
  storage : StorageError → VaultError
  client : ClientError → VaultError
  no_client_configured : VaultError
  invalid_token : String → VaultError
  verification_failed : String → VaultError
  keyset_mismatch : String → String → VaultError
  need_change : ℕ → ℕ → VaultError
  unsupported_amount : String → VaultError
  swap_pending : String → VaultError
  wrong_amount : ℕ → ℕ → VaultError
  duplicate_token : VaultError

-- `StorageError::to_string`
unfoldable pub storage_error_text : StorageError → String
storage_error_text (io_error e) = "Storage IO error: " <> e
storage_error_text (json_error e) = "Storage JSON parse error: " <> e

-- `VaultError::to_string`
unfoldable pub vault_error_text : VaultError → String
unfolding storage_error_text
vault_error_text (insufficient_funds have requested) =
    "Insufficient funds: have " <> (show have <> (" proofs, requested " <> show requested))
vault_error_text (crypto e) = "Cryptographic error: " <> crypto_error_text e
vault_error_text (storage e) = "Storage error: " <> storage_error_text e
vault_error_text (client e) = "ATM Client error: " <> client_error_text e
vault_error_text no_client_configured = "No ATM client configured for network action"
vault_error_text (invalid_token e) = "Invalid bearer token string: " <> e
vault_error_text (verification_failed e) = "Proof verification failed: " <> e
vault_error_text (keyset_mismatch expected actual) =
    "Keyset mismatch: expected " <> (expected <> (", got " <> actual))
vault_error_text (need_change requested have) =
    "Cannot pay exactly "
    <> (show requested
        <> (": holding " <> (show have <> " but not in coins that add up (change needed)")))
vault_error_text (wrong_amount expected got) =
    "Wrong amount: invoice expects " <> (show expected <> (", token is worth " <> show got))
vault_error_text duplicate_token = "Token already accepted (replay at the counter)"
vault_error_text (unsupported_amount m) = "Unsupported amount: " <> m
vault_error_text (swap_pending m) =
    "A change-making swap is unfinished ("
    <> (m <> "). Run `recover` (or `recover --abandon` if the ATM refused it)")

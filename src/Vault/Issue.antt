-- ===== src/Vault/Issue.antt =====
-- The blinding of a new secret, and the check of the signature that the ATM returns for it.
pub mod Signed
use fupi.Common.{ℕ, String, none, some, List, [], ◌∷◌, if◌then◌else◌}
use fupi.Common.Result.{Result, ok, err, map_err, ok_or, ◌>>=◌}
use fupi.Common.Text.{as_bytes}
use fupi.Types.{Keyset, Proof, PendingOut}
use fupi.Crypto.{Crates, b64_to_biguint, biguint_to_b64, hash_to_scalar, blind, unblind, verify}
use fupi.Vault.Errors.{VaultError, crypto, keyset_mismatch, verification_failed}
use fupi.Vault.Keysets.{find_keyset}

-- The keyset of a denomination, where `missing` is the note in the error.
unfoldable pub keyset_for : String → String → List Keyset → Result VaultError Keyset
unfolding find_keyset
keyset_for missing kid keysets = ok_or (find_keyset kid keysets) (keyset_mismatch kid missing)

module _ (c : Crates) where
  unfoldable pub modulus_of : Keyset → Result VaultError ℕ
  modulus_of ks = map_err crypto (b64_to_biguint c ks.n)

  -- The stored proof of a signed secret.
  unfoldable pub issued_proof : Keyset → String → ℕ → Proof
  issued_proof ks secret sig = record {
    secret = secret;
    sig = biguint_to_b64 c sig;
    n = ks.n;
    e = ks.e;
    keyset_id = some ks.keyset_id;
    p2pk = none;
    claimer = none;
  }

  -- The blinded message of a secret.
  unfoldable pub blinded_message : Keyset → ℕ → String → ℕ → String
  blinded_message ks n secret r =
      biguint_to_b64 c (blind c (hash_to_scalar c (as_bytes secret) n) r ks.e n)

  -- Unblinds an answer, and takes it only if it verifies under the keyset.
  unfoldable pub finish_proof : Keyset → ℕ → String → ℕ → String → String → Result VaultError Proof
  unfolding issued_proof
  finish_proof ks n secret r answer message = do
    s_blind ← map_err crypto (b64_to_biguint c answer)
    sig ← map_err crypto (unblind c s_blind r n)
    if verify c (hash_to_scalar c (as_bytes secret) n) sig ks.e n
        then ok (issued_proof ks secret sig)
        else err (verification_failed message)

  -- One round of the loop in `complete_pending_swap`.
  unfoldable pub finish_output : List Keyset → PendingOut → String → Result VaultError Proof
  unfolding keyset_for modulus_of finish_proof
  finish_output pinned o answer = do
    ks ← keyset_for "(not pinned)" o.keyset_id pinned
    n ← modulus_of ks
    r ← map_err crypto (b64_to_biguint c o.r)
    finish_proof ks n o.secret r answer "swap signature failed local RSA check"

  -- `pending.outputs.iter().zip(sigs.iter())`
  unfoldable pub finish_outputs :
      List Keyset → List PendingOut → List String → Result VaultError (List Proof)
  unfolding finish_output
  finish_outputs pinned [] answers = ok []
  finish_outputs pinned (o ∷ outs) [] = ok []
  finish_outputs pinned (o ∷ outs) (a ∷ answers) =
      let rest = finish_outputs pinned outs answers in
      finish_output pinned o a >>= λ p. rest >>= λ ps. ok (p ∷ ps)

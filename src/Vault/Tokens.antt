-- ===== src/Vault/Tokens.antt =====
-- Bearer tokens: decoding, and the offline check against the pinned keysets.
pub mod Genuine
use fupi.Common.{
  ℕ, ◌<◌, String, ◌<>◌, Bool, true, false, ◌&&◌, ◌||◌, not, Option, none, some, List, [], ◌∷◌,
  length, any, ltb, leb, ◌==◌, str_eq, if◌then◌else◌,
}
use fupi.Common.Result.{Result, ok, err, map_err, ok_or, ◌>>=◌}
use fupi.Common.Text.{codes, trim, as_bytes}
use fupi.Types.{Keyset, Proof, FlashState}
use fupi.Crypto.{
  Crates, crypto_error_text, b64_decode_codes, b64_to_biguint, hash_to_scalar, verify, lock_of,
}
use fupi.Vault.Errors.{VaultError, crypto, invalid_token, verification_failed, keyset_mismatch}
use fupi.Vault.Environment.{TokenCodec}
use fupi.Vault.Keysets.{find_keyset, bad_exponent, pinned_keysets, is_empty}

abbrev pub guard : Bool → VaultError → Result VaultError (Unit {0})
guard true e = ok tt
guard false e = err e

-- The keyset that a proof is checked with.
unfoldable pub keyset_of : List Keyset → Proof → Result VaultError Keyset
unfolding find_keyset
keyset_of [] p = err (verification_failed "proof names no keyset")
keyset_of (k ∷ ks) p = elim p.keyset_id [
  | some kid ↦ ok_or (find_keyset kid (k ∷ ks)) (keyset_mismatch k.keyset_id kid)
  | none ↦ if is_empty ks then ok k else err (verification_failed "proof names no keyset")
]

module _ (c : Crates) where
  -- One round of the loop in `verify_offline_set`.
  unfoldable pub verify_proof : List Keyset → Proof → Result VaultError (Unit {0})
  unfolding keyset_of
  verify_proof keysets p = do
    ks ← keyset_of keysets p
    n ← map_err crypto (b64_to_biguint c ks.n)
    _ ←
        guard (str_eq p.n "" || str_eq p.n ks.n)
          (verification_failed "Proof modulus does not match trusted ATM keyset (forgery detected)")
    _ ←
        guard (p.e == ks.e) (
          verification_failed "Proof exponent does not match trusted ATM keyset (forgery detected)")
    _ ← map_err crypto (lock_of p.secret)
    _ ←
        guard (not (str_eq p.secret "") && leb (length (as_bytes p.secret)) 256)
          (invalid_token "secret length out of range")
    let m = hash_to_scalar c (as_bytes p.secret) n
    sig ← map_err crypto (b64_to_biguint c p.sig)
    guard (ltb sig n && verify c m sig ks.e n)
        (verification_failed ("Proof for secret '" <> (p.secret <> "' signature is invalid")))

  unfoldable pub verify_proofs : List Keyset → List Proof → Result VaultError (Unit {0})
  unfolding verify_proof
  verify_proofs keysets [] = ok tt
  verify_proofs keysets (p ∷ ps) =
      let rest = verify_proofs keysets ps in
      elim (verify_proof keysets p) [ err e ↦ err e | ok _ ↦ rest ]

  module _ (t : TokenCodec) where
    unfoldable pub decode_token : String → Result VaultError (List Proof)
    decode_token token_str = do
      json_bytes ←
          map_err (λ e. invalid_token (crypto_error_text e))
            (b64_decode_codes c (trim (codes token_str)))
      map_err (λ e. invalid_token ("JSON parse error: " <> e)) (t.from_slice json_bytes)

    unfoldable pub verify_offline_set : String → List Keyset → Result VaultError (List Proof)
    unfolding decode_token verify_proofs bad_exponent
    verify_offline_set token_str keysets = do
      _ ← guard (not (is_empty keysets)) (
          verification_failed
            "no pinned ATM keyset: refusing to trust key material from the token (run `pin` first)")
      _ ←
          guard (not (any (λ k. bad_exponent k.e) keysets))
            (verification_failed "pinned keyset has an invalid exponent")
      proofs ← decode_token token_str
      _ ← guard (not (is_empty proofs)) (invalid_token "Token contains 0 proofs")
      _ ← verify_proofs keysets proofs
      ok proofs

    unfoldable pub verify_offline : String → Option Keyset → Result VaultError (List Proof)
    unfolding verify_offline_set
    verify_offline token_str none = verify_offline_set token_str []
    verify_offline token_str (some k) = verify_offline_set token_str (k ∷ [])

    unfoldable pub verify_token : FlashState → String → Result VaultError (List Proof)
    unfolding verify_offline_set
    verify_token state token_str = verify_offline_set token_str (pinned_keysets state)

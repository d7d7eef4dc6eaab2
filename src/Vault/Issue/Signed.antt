-- ===== src/Vault/Issue/Signed.antt =====
-- What an issued proof is: signed under its keyset, and worth its denomination.
use fupi.Common.{
  ℕ, ◌≡◌, refl, String, true, inl, inr, some, List, Bool-cases, str_eq, eq_iff, find-holds,
}
use fupi.Common.Result.{ok}
use fupi.Common.Text.{as_bytes}
use fupi.Types.{Keyset, Proof}
use fupi.Denom.{keyset_id_for, proof_value}
use fupi.Denom.Ids.{IsDenomination, denomination_of-keyset_id_for}
use fupi.Crypto.{Crates, b64_to_biguint, hash_to_scalar, unblind, verify}
use fupi.Vault.Session.Steps.{Result-cases}
use fupi.Vault.Keysets.{find_keyset}
use fupi.Vault.Issue.{issued_proof, finish_proof}

-- A keyset that is found has the name that was looked for.
pub find_keyset-name :
    (kid : String) (keysets : List Keyset) (ks : Keyset)
    → find_keyset kid keysets ≡ some ks
    → ks.keyset_id ≡ kid
unfolding find_keyset
find_keyset-name kid keysets ks h =
    (eq_iff ks.keyset_id kid).0 (find-holds (λ (k : Keyset). str_eq k.keyset_id kid) keysets ks h)

module _ (c : Crates) (ks : Keyset) where
  pub issued_proof-value :
      (d : ℕ) (secret : String) (sig : ℕ)
      → ks.keyset_id ≡ keyset_id_for d
      → IsDenomination d
      → proof_value (issued_proof c ks secret sig) ≡ d
  unfolding proof_value issued_proof
  issued_proof-value d secret sig named denomination =
      rw (named, denomination_of-keyset_id_for d denomination) refl

  -- The proof carries a signature of its secret.
  pub record IsSigned (n : ℕ) (secret : String) (p : Proof) : Type 0 where
    pub sig : ℕ
    pub signed : verify c (hash_to_scalar c (as_bytes secret) n) sig ks.e n ≡ true
    pub made : p ≡ issued_proof c ks secret sig

  pub finish_proof-IsSigned :
      (n : ℕ) (secret : String) (r : ℕ) (answer message : String) (p : Proof)
      → finish_proof c ks n secret r answer message ≡ ok p
      → IsSigned n secret p
  unfolding finish_proof
  finish_proof-IsSigned n secret r answer message p h =
      elim (Result-cases (b64_to_biguint c answer)) [
        | inr (_, e1) ↦ cc (rw e1 at h)
        | inl (s_blind, e1) ↦ elim (Result-cases (unblind c s_blind r n)) [
          | inr (_, e2) ↦ cc (rw (e1, e2) at h)
          | inl (sig, e2) ↦
              elim (Bool-cases (verify c (hash_to_scalar c (as_bytes secret) n) sig ks.e n)) [
                | inr e3 ↦ cc (rw (e1, e2, e3) at h)
                | inl e3 ↦ record { sig = sig; signed = e3; made = cc (rw (e1, e2, e3) at h) }
              ]
        ]
      ]

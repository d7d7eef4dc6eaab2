-- ===== src/Vault/Swap/Holdings.antt =====
-- What the completion of a swap adds to the vault.
use fupi.Common.{
  ℕ, ◌≡◌, refl, String, true, inl, inr, some, List, [], ◌∷◌, map, arith, All, length, Option-cases,
}
use fupi.Common.Result.{ok}
use fupi.Common.Sums.{sum}
use fupi.Common.Text.{as_bytes}
use fupi.Types.{Keyset, Proof, PendingOut}
use fupi.Denom.{keyset_id_for, proof_value}
use fupi.Denom.Ids.{IsDenomination}
use fupi.Crypto.{Crates, b64_to_biguint, hash_to_scalar, verify}
use fupi.Vault.Session.Steps.{Result-cases}
use fupi.Vault.Keysets.{find_keyset}
use fupi.Vault.Coins.{token_value}
use fupi.Vault.Issue.Signed.{find_keyset-name, issued_proof-value, finish_proof-IsSigned}
use fupi.Vault.Issue.{keyset_for, modulus_of, issued_proof, finish_output, finish_outputs}

-- An output as `make_change` writes it down.
abbrev pub IsPrepared : PendingOut → Type 0
IsPrepared o = (o.keyset_id ≡ keyset_id_for o.amount) × IsDenomination o.amount

module _ (c : Crates) (pinned : List Keyset) where
  -- The proof of an output: under the pinned keyset of its name, signed.
  pub record IsIssued (o : PendingOut) (p : Proof) : Type 0 where
    pub keyset : Keyset
    pub found : find_keyset o.keyset_id pinned ≡ some keyset
    pub n : ℕ
    pub modulus : modulus_of c keyset ≡ ok n
    pub sig : ℕ
    pub signed : verify c (hash_to_scalar c (as_bytes o.secret) n) sig keyset.e n ≡ true
    pub made : p ≡ issued_proof c keyset o.secret sig

  finish_output-IsIssued :
      (o : PendingOut) (answer : String) (p : Proof)
      → finish_output c pinned o answer ≡ ok p
      → IsIssued o p
  unfolding finish_output keyset_for
  finish_output-IsIssued o answer p h = elim (Option-cases (find_keyset o.keyset_id pinned)) [
    | inl e1 ↦ cc (rw e1 at h)
    | inr (ks, e1) ↦ elim (Result-cases (modulus_of c ks)) [
      | inr (_, e2) ↦ cc (rw (e1, e2) at h)
      | inl (n, e2) ↦ elim (Result-cases (b64_to_biguint c o.r)) [
        | inr (_, e3) ↦ cc (rw (e1, e2, e3) at h)
        | inl (r, e3) ↦
            let i =
              finish_proof-IsSigned c ks n o.secret r answer "swap signature failed local RSA check"
                p (rw (e1, e2, e3) at h) in
            record {
              keyset = ks;
              found = e1;
              n = n;
              modulus = e2;
              sig = i.sig;
              signed = i.signed;
              made = i.made;
            }
      ]
    ]
  ]

  IsIssued-value :
      (o : PendingOut) (p : Proof) → IsPrepared o → IsIssued o p → proof_value p ≡ o.amount
  IsIssued-value o p (named, denomination) i =
      let same = find_keyset-name o.keyset_id pinned i.keyset i.found in
      rw i.made
        (issued_proof-value c i.keyset o.amount o.secret i.sig (rw (same, named) refl) denomination)

  -- Every output has its proof.
  abbrev pub AllIssued : List PendingOut → List Proof → Type 0
  AllIssued [] [] = Unit
  AllIssued [] (p ∷ ps) = ⊥
  AllIssued (o ∷ os) [] = ⊥
  AllIssued (o ∷ os) (p ∷ ps) = IsIssued o p × AllIssued os ps

  -- With as many answers as outputs, an accepted answer to a swap issues a signed proof for each
  -- output.
  pub finish_outputs-AllIssued :
      (outs : List PendingOut) (answers : List String) (fresh : List Proof)
      → length answers ≡ length outs
      → finish_outputs c pinned outs answers ≡ ok fresh
      → AllIssued outs fresh
  unfolding finish_outputs
  finish_outputs-AllIssued [] answers [] len h = tt
  finish_outputs-AllIssued [] answers (p ∷ ps) len h = cc
  finish_outputs-AllIssued (o ∷ os) [] fresh len h = absurd (omega arith)
  finish_outputs-AllIssued (o ∷ os) (a ∷ answers) fresh len h =
      elim (Result-cases (finish_output c pinned o a)) [
        | inr (_, e1) ↦ cc (rw (e1, finish_outputs) at h)
        | inl (p, e1) ↦ elim (Result-cases (finish_outputs c pinned os answers)) [
          | inr (_, e2) ↦ cc (rw (e1, e2, finish_outputs) at h)
          | inl (ps, e2) ↦
              let same : p ∷ ps ≡ fresh = cc (rw (e1, e2, finish_outputs) at h) in
              rw (← same) (
                finish_output-IsIssued o a p e1,
                finish_outputs-AllIssued os answers ps (omega arith) e2,
              )
        ]
      ]

  -- The new proofs are worth the outputs.
  pub AllIssued-value :
      (outs : List PendingOut) (fresh : List Proof)
      → All IsPrepared outs
      → AllIssued outs fresh
      → token_value fresh ≡ sum (map (λ (o : PendingOut). o.amount) outs)
  unfolding token_value
  AllIssued-value [] [] w i = refl
  AllIssued-value [] (p ∷ ps) w i = absurd i
  AllIssued-value (o ∷ os) [] w i = absurd i
  AllIssued-value (o ∷ os) (p ∷ ps) w i =
      omega (arith, IsIssued-value o p w.0 i.0, AllIssued-value os ps w.1 i.1)

-- ===== src/Vault/Swap/Outputs.antt =====
-- The outputs that a swap writes down before it is sent.
use fupi.Common.{ℕ, ◌≡◌, refl, inl, inr, List, [], ◌∷◌, map, All}
use fupi.Types.{Keyset, PendingOut, FlashState}
use fupi.Denom.{keyset_id_for}
use fupi.Denom.Ids.{IsDenomination}
use fupi.Crypto.{Crates}
use fupi.Vault.Errors.{VaultError}
use fupi.Vault.Environment.{Environment}
use fupi.Vault.Session.{Session}
use fupi.Vault.Session.Steps.{Result-cases, Outcome, bind-Outcome}
use fupi.Vault.Issue.{keyset_for, modulus_of}
use fupi.Vault.Swap.{prepare_output, prepare_outputs}
use fupi.Vault.Swap.Holdings.{IsPrepared}

module _ (c : Crates) (env : Environment) (pinned : List Keyset) (before : FlashState) where
  abbrev pub Unchanged : VaultError → Session env.World → Type 0
  Unchanged e s = s.state ≡ before

  prepare_output-IsPrepared :
      (d : ℕ) (s : Session env.World)
      → IsDenomination d
      → s.state ≡ before
      → Outcome
          (λ o s'. IsPrepared o × (o.amount ≡ d) × (s'.state ≡ before))
          Unchanged
          (prepare_output c env pinned d s)
  unfolding prepare_output
  prepare_output-IsPrepared d s den same =
      elim (Result-cases (keyset_for "(not pinned)" (keyset_id_for d) pinned)) [
        | inr (_, e1) ↦ rw e1 same
        | inl (ks, e1) ↦ elim (Result-cases (modulus_of c ks)) [
          | inr (_, e2) ↦ rw (e1, e2) same
          | inl (n, e2) ↦ rw (e1, e2) ((refl, den), refl, same)
        ]
      ]

  abbrev pub AllPrepared : List ℕ → List PendingOut → Session env.World → Type 0
  AllPrepared amounts outs s =
      All IsPrepared outs × (map (λ (o : PendingOut). o.amount) outs ≡ amounts) × (s.state ≡ before)

  -- An output for each amount, under the keyset of its denomination; the state does not change.
  pub prepare_outputs-AllPrepared :
      (amounts : List ℕ) (s : Session env.World)
      → All IsDenomination amounts
      → s.state ≡ before
      → Outcome (AllPrepared amounts) Unchanged (prepare_outputs c env pinned amounts s)
  unfolding prepare_outputs
  prepare_outputs-AllPrepared [] s dens same = (tt, refl, same)
  prepare_outputs-AllPrepared (d ∷ amounts) s dens same =
      bind-Outcome (λ o s'. IsPrepared o × (o.amount ≡ d) × (s'.state ≡ before))
        (AllPrepared (d ∷ amounts)) Unchanged (prepare_output c env pinned d) _ s
        (prepare_output-IsPrepared d s dens.0 same)
        (λ o s1 (prepared, amount, same1).
          bind-Outcome (AllPrepared amounts) (AllPrepared (d ∷ amounts)) Unchanged
            (prepare_outputs c env pinned amounts) _ s1
            (prepare_outputs-AllPrepared amounts s1 dens.1 same1)
            (λ outs s2 (all, values, same2). ((prepared, all), cc (amount, values), same2)))

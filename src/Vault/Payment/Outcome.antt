-- ===== src/Vault/Payment/Outcome.antt =====
-- The outcome of `make_payment` on every branch.
use fupi.Common.{
  arith, ℕ, ◌+◌, ◌≡◌, refl, String, true, ◌==◌, inl, inr, Option, List, map, All, ltb, push,
  Bool-cases,
}
use fupi.Common.Result.{ok, err}
use fupi.Common.Sums.{sum}
use fupi.Types.{Proof}
use fupi.Denom.{max_exact_target, proof_value}
use fupi.Crypto.{Crates}
use fupi.Vault.Errors.{VaultError}
use fupi.Vault.Environment.{Environment, TokenCodec}
use fupi.Vault.Session.{Session}
use fupi.Vault.Session.Steps.{Result-cases, Outcome, Outcome-imp, commit-Outcome}
use fupi.Vault.Coins.{balance, lock_eq, lock_or_none, chosen_at, token_value}
use fupi.Vault.Coins.Removal.{sum-remove_all}
use fupi.Vault.Payment.{wanted_lock, select_coins, spent_state, token_of, make_payment}
use fupi.Vault.Payment.Conserves.{IsSelection, select_coins-IsSelection}

module _ (c : Crates) (t : TokenCodec) (env : Environment) (amount : ℕ) (lock : Option String)
    (s : Session env.World) where
  -- A token that went out: the coins in it carry the wanted lock and are worth the amount, it is in
  -- the outbox, and the vault's state is the one without these coins.
  pub record IsPayment (token : String) (s' : Session env.World) : Type 0 where
    pub want : Option (List ℕ)
    pub idx : List ℕ
    pub wanted : wanted_lock lock ≡ ok want
    pub selection : IsSelection s.state.proofs want amount idx
    pub printed : token_of c t env (chosen_at idx s.state.proofs) ≡ ok token
    pub after : s'.state ≡ spent_state s.state idx token amount

  -- On every branch of a payment.
  make_payment_outcome :
      Outcome IsPayment (λ e s'. s'.state ≡ s.state) (make_payment c t env amount lock s)
  unfolding make_payment
  make_payment_outcome = elim (Bool-cases (amount == 0)) [
    | inl nothing ↦ rw nothing refl
    | inr positive ↦ elim (Result-cases (wanted_lock lock)) [
      | inr (e, no_key) ↦ rw (positive, no_key) refl
      | inl (want, wanted) ↦ elim (Bool-cases (ltb max_exact_target amount)) [
        | inl over ↦ rw (positive, wanted, over) refl
        | inr within ↦ elim (Result-cases (select_coins s.state.proofs want amount)) [
          | inr (e, no_coins) ↦ rw (positive, wanted, within, no_coins) refl
          | inl (idx, selected) ↦
              elim (Result-cases (token_of c t env (chosen_at idx s.state.proofs))) [
                | inr (e, no_token) ↦ rw (positive, wanted, within, selected, no_token) refl
                | inl (token, printed) ↦
                    rw (positive, wanted, within, selected, printed)
                      (commit-Outcome env IsPayment (λ e s'. s'.state ≡ s.state) _ _ s
                        (λ e s' same. same)
                        (λ s' after. record {
                          want = want;
                          idx = idx;
                          wanted = wanted;
                          selection =
                              select_coins-IsSelection s.state.proofs want amount idx selected;
                          printed = printed;
                          after = after;
                        }))
              ]
        ]
      ]
    ]
  ]

  -- The coins of a token: they leave the vault, and nothing else does.
  pub record IsExact (chosen : List Proof) (token : String) (s' : Session env.World) : Type 0 where
    pub printed : token_of c t env chosen ≡ ok token
    pub value : token_value chosen ≡ amount
    pub locked :
        (want : Option (List ℕ)) × (wanted_lock lock ≡ ok want)
        × All (λ p. lock_eq (lock_or_none p) want ≡ true) chosen
    pub conserved :
        (f : Proof → ℕ)
        → sum (map f s.state.proofs) ≡ sum (map f chosen) + sum (map f s'.state.proofs)
    pub kept : s'.state.outbox ≡ push s.state.outbox token

  -- A payment that returns has put coins into its token that carry exactly the wanted lock and are
  -- worth exactly the amount; by every weight on proofs, what the vault held is what the token and the
  -- vault hold now, and the token is the last of the outbox.
  pub make_payment-IsExact :
      (token : String) (s' : Session env.World)
      → make_payment c t env amount lock s ≡ (ok token, s')
      → (chosen : List Proof) × IsExact chosen token s'
  unfolding spent_state
  make_payment-IsExact token s' h =
      let p : IsPayment token s' = rw h at make_payment_outcome in
      (
        chosen_at p.idx s.state.proofs,
        record {
          printed = p.printed;
          value = p.selection.exact;
          locked = (p.want, p.wanted, p.selection.locked);
          conserved = λ f.
              rw p.after
                (sum-remove_all f p.idx s.state.proofs p.selection.rising p.selection.valid);
          kept = rw p.after refl;
        },
      )

  -- A payment that fails leaves the vault in memory as it was.
  make_payment_keeps :
      (e : VaultError) (s' : Session env.World)
      → make_payment c t env amount lock s ≡ (err e, s')
      → s'.state ≡ s.state
  make_payment_keeps e s' h = rw h at make_payment_outcome

  -- A payment takes its amount off the balance, or changes nothing in memory; it leaves an unfinished
  -- swap alone.
  pub make_payment-balance :
      Outcome
        (λ (token : String) s'.
          (s'.state.pending_swap ≡ s.state.pending_swap)
          × (balance s.state ≡ amount + balance s'.state))
        (λ e s'. s'.state ≡ s.state)
        (make_payment c t env amount lock s)
  unfolding balance token_value spent_state
  make_payment-balance =
      Outcome-imp (make_payment c t env amount lock s)
        (λ token s' (p : IsPayment token s'). rw p.after (
          refl,
          omega (
            arith,
            p.selection.exact,
            sum-remove_all proof_value p.idx s.state.proofs p.selection.rising p.selection.valid,
          ),
        ))
        (λ e s' same. same) make_payment_outcome

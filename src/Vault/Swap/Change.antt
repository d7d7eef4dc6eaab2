-- ===== src/Vault/Swap/Change.antt =====
-- Making change and paying: nothing is lost, whatever the ATM answers.
use fupi.Common.{
  ℕ, ◌+◌, ◌≡◌, refl, ◌∙◌, inl, inr, String, Bool, true, Option, none, some, List, map, arith, All,
  Bool-cases, if◌then◌else◌,
}
use fupi.Common.Result.{Result, ok, err}
use fupi.Types.{FlashState, PendingOut}
use fupi.Denom.{proof_value}
use fupi.Crypto.{Crates}
use fupi.Vault.Errors.{VaultError}
use fupi.Vault.Environment.{Environment, TokenCodec}
use fupi.Vault.Session.{Session, ◌>>◌}
use fupi.Vault.Session.Steps.{
  Result-cases, Outcome, Outcome-imp, bind-Outcome, commit-Outcome, require_client-Outcome,
}
use fupi.Vault.Keysets.{pinned_keysets}
use fupi.Vault.Coins.{token_value, balance}
use fupi.Vault.Coins.Removal.{sum-remove_all}
use fupi.Vault.Payment.{make_payment}
use fupi.Vault.Payment.Outcome.{make_payment-balance}
use fupi.Vault.Swap.{
  plan_swap, prepare_outputs, pending_state, output_value, complete_pending_swap, recover,
  make_change, needs_change, pay,
}
use fupi.Vault.Swap.Holdings.{IsPrepared}
use fupi.Vault.Swap.Plan.{IsPlan, plan_swap-IsPlan}
use fupi.Vault.Swap.Outputs.{AllPrepared, prepare_outputs-AllPrepared}
use fupi.Vault.Swap.Balance.{
  holdings-slot, holdings, held_back, IsBalanced, Conserves, Finished,
  complete_pending_swap-Conserves, recover-Conserves,
}

pub Conserves-trans : (a b d : FlashState) → Conserves a b → Conserves b d → Conserves a d
Conserves-trans a b d h k = (k.0, omega (arith, h.1, k.1))

-- With no swap unfinished, the write-ahead state of a planned swap is balanced.
pub pending_state-Conserves :
    (state : FlashState) (target : ℕ) (idx amounts : List ℕ) (outs : List PendingOut)
    → state.pending_swap ≡ none
    → IsPlan state target idx amounts
    → All IsPrepared outs
    → map (λ (o : PendingOut). o.amount) outs ≡ amounts
    → Conserves state (pending_state state idx outs)
unfolding pending_state balance token_value output_value
pending_state-Conserves state target idx amounts outs idle plan prepared values =
    let moved = sum-remove_all proof_value idx state.proofs plan.inputs.rising plan.inputs.valid in
    (
      (prepared, rw values (omega (arith, plan.outputs.total, plan.inputs.exact))),
      rw (idle, held_back) (omega (arith, moved)),
    )

module _ (c : Crates) (env : Environment) where
  -- With no swap unfinished, making change keeps what the vault holds, on every branch: where it
  -- returns, the swap is done; where it fails, the inputs are held or are kept with the swap.
  pub make_change-Conserves :
      (amount : ℕ) (s : Session env.World)
      → s.state.pending_swap ≡ none
      → Outcome
          (Finished c env true s.state)
          (λ e s'. Conserves s.state s'.state)
          (make_change c env amount s)
  unfolding make_change
  make_change-Conserves amount s idle =
      let same : Conserves s.state s.state = (rw (idle, IsBalanced) tt, refl) in
      let P = Finished c env true s.state in
      let Q : VaultError → Session env.World → Type 0 = λ e s'. Conserves s.state s'.state in
      require_client-Outcome P Q _ s same (elim (Result-cases (plan_swap s.state amount)) [
        | inr (_, e1) ↦ rw e1 same
        | inl ((idx, amounts), e1) ↦
            let plan = plan_swap-IsPlan s.state amount idx amounts e1 in
            let prepared =
              prepare_outputs-AllPrepared c env (pinned_keysets s.state) s.state amounts s
                plan.outputs.denominations refl in
            rw e1 (
              bind-Outcome (AllPrepared c env (pinned_keysets s.state) s.state amounts) P Q
                (prepare_outputs c env (pinned_keysets s.state) amounts) _ s
                (Outcome-imp (prepare_outputs c env (pinned_keysets s.state) amounts s)
                  (λ outs s1 h. h) (λ e s1 (h : s1.state ≡ s.state). rw h same) prepared)
                (λ outs s1 (all, values, same1).
                  commit-Outcome env P Q (pending_state s.state idx outs) _ s1
                    (λ e s2 same2. rw (same2, same1) same)
                    (λ s2 after.
                      let kept =
                        pending_state-Conserves s.state amount idx amounts outs idle plan all
                          values in
                      let kept2 : Conserves s.state s2.state = rw after kept in
                      Outcome-imp (complete_pending_swap c env true s2)
                        (λ done s3 (h : Finished c env true s2.state done s3).
                          (h.0, Conserves-trans s.state s2.state s3.state kept2 h.1))
                        (λ e s3 (h : Conserves s2.state s3.state).
                          Conserves-trans s.state s2.state s3.state kept2 h)
                        (complete_pending_swap-Conserves c env true s2 kept2.0))))
      ])

module _ (c : Crates) (env : Environment) (t : TokenCodec) (amount : ℕ) where
  -- The amount has left the vault, and nothing else; no swap is unfinished.
  abbrev pub Paid : FlashState → String → Session env.World → Type 0
  Paid before token s =
      (s.state.pending_swap ≡ none) × (holdings before ≡ amount + holdings s.state)

  abbrev pub Unpaid : FlashState → VaultError → Session env.World → Type 0
  Unpaid before e s = Conserves before s.state

  -- A payment from a state in which no swap is unfinished.
  payment-Paid :
      (before : FlashState) (lock : Option String) (s : Session env.World)
      → s.state.pending_swap ≡ none
      → Conserves before s.state
      → Outcome
          (Paid before)
          (λ e s'. (s'.state.pending_swap ≡ none) × Conserves before s'.state)
          (make_payment c t env amount lock s)
  payment-Paid before lock s idle kept =
      Outcome-imp (make_payment c t env amount lock s)
        (λ token s' (same, value).
          let none_left : s'.state.pending_swap ≡ none = same ∙ idle in
          (
            none_left,
            omega (
              arith,
              kept.1,
              value,
              holdings-slot s.state none idle,
              holdings-slot s'.state none none_left,
            ),
          ))
        (λ e s' same. rw same (idle, kept)) (make_payment-balance c t env amount lock s)

  pay_retried :
      (before : FlashState) (lock : Option String) (r : Result VaultError String)
      (s : Session env.World)
      → Outcome
          (Paid before)
          (λ e s'. (s'.state.pending_swap ≡ none) × Conserves before s'.state)
          (r, s)
      → Outcome (Paid before) (Unpaid before) (
          if needs_change c env t lock r
          then (make_change c env amount >> make_payment c t env amount none) s
          else (r, s))
  pay_retried before (some key) (ok token) s h = h
  pay_retried before none (ok token) s h = h
  pay_retried before lock (err e) s h = elim (Bool-cases (needs_change c env t lock (err e))) [
    | inr done ↦ rw done (h.1)
    | inl more ↦ rw more (
        bind-Outcome (Finished c env true s.state) (Paid before) (Unpaid before)
          (make_change c env amount) _ s
          (Outcome-imp (make_change c env amount s) (λ done s1 f. f)
            (λ e1 s1 (k : Conserves s.state s1.state).
              Conserves-trans before s.state s1.state h.1 k)
            (make_change-Conserves c env amount s h.0))
          (λ done s1 f.
            Outcome-imp (make_payment c t env amount none s1) (λ token s2 paid. paid)
              (λ e2 s2 k. k.1)
              (payment-Paid before none s1 f.0 (Conserves-trans before s.state s1.state h.1 f.1))))
  ]

  -- From a balanced state: where `pay` returns, exactly the amount has left the vault, and no swap is
  -- unfinished; where it fails, nothing has left it, and an unfinished swap is still worth its inputs.
  pub pay-Conserves :
      (lock : Option String) (s : Session env.World)
      → IsBalanced s.state.pending_swap
      → Outcome (Paid s.state) (Unpaid s.state) (pay c env t amount lock s)
  unfolding pay
  pay-Conserves lock s b =
      bind-Outcome (λ (_ : Bool) s1. (s1.state.pending_swap ≡ none) × Conserves s.state s1.state)
        (Paid s.state) (Unpaid s.state) (recover c env) _ s (recover-Conserves c env s b)
        (λ _ s1 (idle, kept).
          pay_retried s.state lock (make_payment c t env amount lock s1).0
            (make_payment c t env amount lock s1).1 (payment-Paid s.state lock s1 idle kept))

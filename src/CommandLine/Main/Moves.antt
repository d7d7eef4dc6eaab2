-- ===== src/CommandLine/Main/Moves.antt =====
-- The subcommands that change what the vault holds.
use fupi.Common.{◌++◌, ◌≤◌, ◌≡◌, refl, inl, inr, String, not, none, List, arith}
use fupi.Common.Sums.{sum-map_append}
use fupi.Denom.{proof_value}
use fupi.Types.{Proof, Receipt}
use fupi.Crypto.{Crates}
use fupi.Vault.Environment.{Environment, TokenCodec}
use fupi.Vault.Session.{Session}
use fupi.Vault.Session.Steps.{Result-cases}
use fupi.Vault.Keysets.{pinned_keysets, is_empty}
use fupi.Vault.Coins.{token_value, balance}
use fupi.Vault.Receive.{receive_token}
use fupi.Vault.Receive.Money.{IsReceived, MaySome, receive_token-IsReceived}
use fupi.Vault.Merchant.{accept_payment, accepted_state, new_receipt}
use fupi.Vault.Merchant.Accept.{IsSale, accept_payment_whole}
use fupi.Vault.Settle.{settle_all}
use fupi.Vault.Settle.Totals.{SettledAll, LoweredError, settle_all-SettledAll}
use fupi.Vault.State.{wipe}
use fupi.Vault.Swap.{pay}
use fupi.Vault.Swap.Balance.{IsBalanced, holdings, holdings-slot}
use fupi.Vault.Swap.Change.{Paid, Unpaid, pay-Conserves}
use fupi.Vault.Topup.{topup_locked}
use fupi.Vault.Topup.Whole.{topup_locked-holdings}
use fupi.Vault.Money.{SameMoney, SameMoney-Conserves, appended-balance}
use fupi.CommandLine.{Config}
use fupi.CommandLine.Outcomes.{
  Ends, attempt-Ends, attempt-cases, given-Ends, given-cases, provided-Ends,
}
use fupi.CommandLine.Amount.{amount_of}
use fupi.CommandLine.Subcommands.{
  first_of, settle_all_report, run_topup, run_pay, pin_first_use, run_receive, run_accept,
  run_settle_all, run_wipe,
}
use fupi.CommandLine.Main.Kept.{pin_first_use-SameMoney}
use fupi.CommandLine.Main.Effects.{Leaves, Received, Wiped, ToppedUp, PaidOut, Sold, Cleared}

module _ (c : Crates) (t : TokenCodec) (env : Environment) (cfg : Config) (s : Session env.World)
    (b : IsBalanced s.state.pending_swap) where
  pub run_topup-Leaves : Ends (Leaves (ToppedUp cfg s.state)) (run_topup c t env cfg s)
  unfolding run_topup
  run_topup-Leaves =
      let T = Leaves (ToppedUp cfg s.state {W = env.World}) in
      let stays : IsBalanced s.state.pending_swap × ToppedUp cfg s.state 1 s =
        (b, inr (refl, omega arith)) in
      given-Ends T (first_of cfg.args) _ _ s stays λ arg _.
        given-Ends T (amount_of cfg.args) _ _ s stays λ n asked.
          attempt-Ends T _ _ (topup_locked c env n cfg.lock) _ _ s
            (topup_locked-holdings c env n cfg.lock s b) (λ e s' h. (h.0, inr (refl, h.1)))
            (λ loaded s' h. (h.0, inl (n, asked, refl, h.2)))

  pub run_pay-Leaves : Ends (Leaves (PaidOut cfg s.state)) (run_pay c t env cfg s)
  unfolding run_pay
  run_pay-Leaves =
      let T = Leaves (PaidOut cfg s.state) in
      let stays : IsBalanced s.state.pending_swap × PaidOut cfg s.state 1 s =
        (b, inr (refl, refl)) in
      given-Ends T (first_of cfg.args) _ _ s stays λ arg _.
        given-Ends T (amount_of cfg.args) _ _ s stays λ n asked.
          attempt-Ends T (Paid c env t n s.state) (Unpaid c env t n s.state)
            (pay c env t n cfg.p2pk) _ _ s (pay-Conserves c env t n cfg.p2pk s b)
            (λ e s' h. (h.0, inr (refl, h.1)))
            (λ token s' h. (rw (h.0, IsBalanced) tt, inl (n, asked, refl, h.1)))

  pub run_wipe-Leaves : Ends (Leaves (Wiped c t env cfg s)) (run_wipe c t env s)
  unfolding run_wipe wipe
  run_wipe-Leaves = elim (Result-cases (env.wipe s.world).0) [
    | inl (done, e) ↦ rw e (tt, inl (refl, refl, refl))
    | inr (d, e) ↦ rw e (tt, inr (refl, (d, refl)))
  ]

  -- Behind a first use, proofs were added at most.
  grown :
      (s1 s' : Session env.World) (fresh : List Proof)
      → SameMoney s.state s1.state
      → s'.state.proofs ≡ s1.state.proofs ++ fresh
      → s'.state.pending_swap ≡ s1.state.pending_swap
      → IsBalanced s'.state.pending_swap × (holdings s.state ≤ holdings s'.state)
  grown s1 s' fresh same added pending =
      let (balanced, held) = SameMoney-Conserves s.state s1.state b same in
      (
        rw pending balanced,
        omega (
          arith,
          held,
          appended-balance s1.state s'.state fresh added,
          holdings-slot s'.state s1.state.pending_swap pending,
        ),
      )

  pub run_receive-Leaves : Ends (Leaves (Received c t env cfg s)) (run_receive c t env cfg s)
  unfolding run_receive
  run_receive-Leaves =
      let T = Leaves (Received c t env cfg s) in
      let s1 = pin_first_use c t env s in
      given-cases T (first_of cfg.args) _ _ s (λ missing. (b, inl (missing, refl, refl)))
        λ token there.
          attempt-cases T (receive_token c t env token none) _ _ s1
            (λ e s' ran.
              let h : MaySome c t env token s1 s' =
                rw ran at (receive_token-IsReceived c t env token s1 none) in
              let (balanced, more) =
                grown s1 s' h.fresh (pin_first_use-SameMoney c t env cfg s b) h.appended
                  h.pending in
              (balanced, inr (token, there, inr (e, ran, refl), more)))
            (λ n s' ran.
              let h : IsReceived c t env token s1 none n s' =
                rw ran at (receive_token-IsReceived c t env token s1 none) in
              let (balanced, more) =
                grown s1 s' h.fresh (pin_first_use-SameMoney c t env cfg s b) h.appended
                  h.pending in
              (balanced, inr (token, there, inl (n, ran, refl), more)))

  sold :
      (token : String) (receipt : Receipt) (s' : Session env.World)
      → IsSale c t env token cfg.invoice cfg.expect s receipt s'
      → IsBalanced s'.state.pending_swap × Sold cfg s.state 0 s'
  unfolding accepted_state new_receipt balance token_value
  sold token receipt s' sale =
      let amount : receipt.amount ≡ token_value sale.proofs = rw (sale.issued) refl in
      rw (sale.after) (
        b,
        inl (
          receipt,
          refl,
          refl,
          rw (sale.issued) refl,
          rw amount sale.value,
          omega (arith, amount, sum-map_append proof_value s.state.proofs sale.proofs),
        ),
      )

  pub run_accept-Leaves : Ends (Leaves (Sold cfg s.state)) (run_accept c t env cfg s)
  unfolding run_accept
  run_accept-Leaves =
      let T = Leaves (Sold cfg s.state) in
      let stays : IsBalanced s.state.pending_swap × Sold cfg s.state 1 s =
        (b, inr (inl refl, refl)) in
      given-Ends T (first_of cfg.args) _ _ s stays λ token _.
        provided-Ends T (not (is_empty (pinned_keysets s.state))) _ _ s stays (
          attempt-Ends T (IsSale c t env token cfg.invoice cfg.expect s)
            (λ e s'. s'.state ≡ s.state) (accept_payment c t env token cfg.invoice cfg.expect) _ _ s
            (accept_payment_whole c t env token cfg.invoice cfg.expect s)
            (λ e s' same. (rw same b, inr (inr refl, same)))
            (λ receipt s' sale. sold token receipt s' sale))

  pub run_settle_all-Leaves : Ends (Leaves (Cleared cfg s.state)) (run_settle_all c t env cfg s)
  unfolding run_settle_all settle_all_report
  run_settle_all-Leaves =
      attempt-Ends (Leaves (Cleared cfg s.state)) (SettledAll c env s.state)
        (LoweredError c env s.state) (settle_all c env cfg.claim_key) _ _ s
        (settle_all-SettledAll c env cfg.claim_key s)
        (λ e s' h. (
          rw (h.0) b,
          inr (refl, omega (arith, h.1, holdings-slot s'.state s.state.pending_swap h.0)),
        ))
        (λ totals s' h. (
          rw (h.0) b,
          inl (
            totals.0,
            totals.1,
            refl,
            h.3,
            omega (arith, h.1, h.3, holdings-slot s'.state s.state.pending_swap h.0),
          ),
        ))

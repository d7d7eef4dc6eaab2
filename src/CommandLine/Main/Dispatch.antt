-- ===== src/CommandLine/Main/Dispatch.antt =====
-- The effect of every subcommand, and of the program from its arguments on.
use fupi.Common.{◌≡◌, refl, inl, inr, String, List}
use fupi.Common.Text.{codes, parse_u64}
use fupi.Crypto.{Crates}
use fupi.Vault.Environment.{Environment, TokenCodec}
use fupi.Vault.Session.{Session}
use fupi.Vault.Swap.Balance.{IsBalanced}
use fupi.Client.Agent.{Agent, Json, Hmac}
use fupi.Client.Calls.{get_info}
use fupi.Client.Operator.{allocate as allocate_at, settlements, payout as payout_at}
use fupi.Client.Connected.{Device}
use fupi.CommandLine.{Config}
use fupi.CommandLine.Output.{Report}
use fupi.CommandLine.Outcomes.{Ends, ask-Ends, given-Ends, provided-Ends}
use fupi.CommandLine.Shell.{Shell}
use fupi.CommandLine.Subcommands.{first_of, run_keygen}
use fupi.CommandLine.Operator.{
  two_of, reference_or, do_credit, run_bank, run_allocate, run_report, run_payout, run_info,
}
use fupi.CommandLine.Main.{
  Subcommand, balance_sub, status, topup, pay, receive, verify, settle, bank, keygen, pin, device,
  allocate, accept, receipts, settle_all, report, payout, recover, outbox, ack, info, wipe, repl,
  unknown, online, run_subcommand,
}
use fupi.CommandLine.Main.Effects.{IsPlain, Effects}
use fupi.CommandLine.Main.Kept.{
  run_verify-Leaves, run_settle-Leaves, run_pin-Leaves, run_device-Leaves, run_recover-Leaves,
  run_ack-Leaves,
}
use fupi.CommandLine.Main.Moves.{
  run_topup-Leaves, run_pay-Leaves, run_receive-Leaves, run_accept-Leaves, run_settle_all-Leaves,
  run_wipe-Leaves,
}
use fupi.CommandLine.Repl.Money.{run_repl-ReplRun}

module _ (agent : Agent) (json : Json) (hmac : Hmac) (base_url : String)
    (shell : Shell json agent.World) (cfg : Config) (s : Session agent.World) where
  -- The vault is as it was, and the exit code is 0 or 1.
  abbrev Untouched : Report → Session agent.World → Type 0
  Untouched r s' = IsPlain r.code × (s'.state ≡ s.state)

  run_bank-Untouched : Ends Untouched (run_bank agent json hmac base_url shell cfg s)
  unfolding run_bank
  run_bank-Untouched =
      given-Ends Untouched (first_of cfg.args) _ _ s (inr refl, refl)
        λ arg _.
          given-Ends Untouched (shell.parse_f64 arg) _ _ s (inr refl, refl)
            λ amount _.
              provided-Ends Untouched s.has_client _ _ s (inr refl, refl)
                (ask-Ends Untouched (do_credit agent json hmac base_url shell amount cfg.reference)
                  _ _ s (λ e w. (inr refl, refl)) (λ reserve w. (inl refl, refl)))

  run_allocate-Untouched : Ends Untouched (run_allocate agent json hmac base_url shell cfg s)
  unfolding run_allocate
  run_allocate-Untouched =
      given-Ends Untouched (two_of cfg.args) _ _ s (inr refl, refl)
        λ args _.
          given-Ends Untouched (shell.parse_f64 args.1) _ _ s (inr refl, refl)
            λ amount _.
              given-Ends Untouched shell.credit_secret _ _ s (inr refl, refl)
                λ secret _.
                  let (ref, w) = reference_or json shell "alloc-" cfg.reference s.world in
                  let s1 : Session agent.World = record s { world = w } in
                  provided-Ends Untouched s.has_client _ _ s1 (inr refl, refl)
                    (ask-Ends Untouched
                      (allocate_at agent json hmac base_url args.0 amount ref secret) _ _ s1
                      (λ e w. (inr refl, refl)) (λ total w. (inl refl, refl)))

  run_report-Untouched : Ends Untouched (run_report agent json hmac base_url shell cfg s)
  unfolding run_report
  run_report-Untouched =
      given-Ends Untouched shell.credit_secret _ _ s (inr refl, refl)
        λ secret _.
          provided-Ends Untouched s.has_client _ _ s (inr refl, refl)
            (ask-Ends Untouched (settlements agent json hmac base_url cfg.since cfg.merchant secret)
              _ _ s (λ e w. (inr refl, refl)) (λ v w. (inl refl, refl)))

  run_payout-Untouched : Ends Untouched (run_payout agent json hmac base_url shell cfg s)
  unfolding run_payout
  run_payout-Untouched =
      given-Ends Untouched (two_of cfg.args) _ _ s (inr refl, refl)
        λ args _.
          given-Ends Untouched (parse_u64 (codes args.1)) _ _ s (inr refl, refl)
            λ amount _.
              given-Ends Untouched cfg.reference _ _ s (inr refl, refl)
                λ reference _.
                  given-Ends Untouched shell.credit_secret _ _ s (inr refl, refl)
                    λ secret _.
                      provided-Ends Untouched s.has_client _ _ s (inr refl, refl)
                        (ask-Ends Untouched
                          (payout_at agent json hmac base_url args.0 amount reference secret) _ _ s
                          (λ e w. (inr refl, refl)) (λ v w. (inl refl, refl)))

  run_info-Untouched : Ends Untouched (run_info agent json hmac base_url shell s)
  unfolding run_info
  run_info-Untouched =
      provided-Ends Untouched s.has_client _ _ s (inr refl, refl)
        (ask-Ends Untouched (get_info agent json base_url) _ _ s (λ e w. (inr refl, refl))
          (λ v w. (inl refl, refl)))

module _ (c : Crates) (t : TokenCodec) (agent : Agent) (json : Json) (hmac : Hmac)
    (shell : Shell json agent.World) (dev : Device agent.World) (base_url : String)
    (stdin : List String) (cfg : Config) where
  abbrev vault_env : Environment
  vault_env = online c t agent json hmac shell dev base_url stdin

  -- From a balanced state, every subcommand has its effect on the vault, with its exit code, whatever the
  -- ATM answers and however the storage fails; and it leaves a balanced state.
  pub run_subcommand-Effects :
      (sub : Subcommand) (s : Session agent.World)
      → IsBalanced s.state.pending_swap
      → let (r, s') = run_subcommand c t agent json hmac shell dev base_url stdin cfg sub s in
        Effects c t vault_env cfg s sub r s'
  unfolding run_subcommand run_keygen
  run_subcommand-Effects balance_sub s b = (b, (refl, refl))
  run_subcommand-Effects status s b = (b, (refl, refl))
  run_subcommand-Effects topup s b = run_topup-Leaves c t vault_env cfg s b
  run_subcommand-Effects pay s b = run_pay-Leaves c t vault_env cfg s b
  run_subcommand-Effects receive s b = run_receive-Leaves c t vault_env cfg s b
  run_subcommand-Effects verify s b = run_verify-Leaves c t vault_env cfg s b
  run_subcommand-Effects settle s b = run_settle-Leaves c t vault_env cfg s b
  run_subcommand-Effects bank s b =
      let h = run_bank-Untouched agent json hmac base_url shell cfg s in (rw (h.1) b, h)
  run_subcommand-Effects keygen s b = (b, (refl, refl))
  run_subcommand-Effects pin s b = run_pin-Leaves c t vault_env cfg s b
  run_subcommand-Effects device s b = run_device-Leaves c t vault_env cfg s b
  run_subcommand-Effects allocate s b =
      let h = run_allocate-Untouched agent json hmac base_url shell cfg s in (rw (h.1) b, h)
  run_subcommand-Effects accept s b = run_accept-Leaves c t vault_env cfg s b
  run_subcommand-Effects receipts s b = (b, (refl, refl))
  run_subcommand-Effects settle_all s b = run_settle_all-Leaves c t vault_env cfg s b
  run_subcommand-Effects report s b =
      let h = run_report-Untouched agent json hmac base_url shell cfg s in (rw (h.1) b, h)
  run_subcommand-Effects payout s b =
      let h = run_payout-Untouched agent json hmac base_url shell cfg s in (rw (h.1) b, h)
  run_subcommand-Effects recover s b = run_recover-Leaves c t vault_env cfg s b
  run_subcommand-Effects outbox s b = (b, (refl, refl))
  run_subcommand-Effects ack s b = run_ack-Leaves c t vault_env cfg s b
  run_subcommand-Effects info s b =
      let h = run_info-Untouched agent json hmac base_url shell cfg s in (rw (h.1) b, h)
  run_subcommand-Effects wipe s b = run_wipe-Leaves c t vault_env cfg s b
  run_subcommand-Effects repl s b = (
    (run_repl-ReplRun agent json hmac base_url shell c t dev cfg.flash_path cfg.atm_url cfg.insecure
        stdin s b).0,
    refl,
  )
  run_subcommand-Effects unknown s b = (b, (refl, refl))

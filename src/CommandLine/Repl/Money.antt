-- ===== src/CommandLine/Repl/Money.antt =====
-- Every command of the interactive session has its effect, and so has the session.
use fupi.Common.{◌+◌, ◌++◌, ◌≤◌, ◌≡◌, refl, inl, inr, String, Bool, none, List, [], ◌∷◌, map, arith}
use fupi.Types.{Proof}
use fupi.Vault.Session.Steps.{Result-cases}
use fupi.Crypto.{Crates}
use fupi.Vault.Environment.{Environment, TokenCodec}
use fupi.Vault.Session.{Session}
use fupi.Vault.Receive.{receive_token, settle_token}
use fupi.Vault.Receive.Money.{IsReceived, MaySome, receive_token-IsReceived}
use fupi.Vault.State.{wipe as wipe_vault}
use fupi.Vault.Swap.{pay as pay_amount}
use fupi.Vault.Swap.Balance.{IsBalanced, holdings, holdings-slot}
use fupi.Vault.Swap.Change.{Paid, Unpaid, pay-Conserves}
use fupi.Vault.Topup.{topup as topup_vault}
use fupi.Vault.Topup.Whole.{topup_locked-holdings}
use fupi.Vault.Money.{appended-balance, settle_token-same}
use fupi.Client.Agent.{Agent, Json, Hmac}
use fupi.Client.Connected.{Device}
use fupi.CommandLine.Output.{Line}
use fupi.CommandLine.Outcomes.{Ends, attempt-cases, ask-cases, given-cases, provided-cases}
use fupi.CommandLine.Shell.{Shell}
use fupi.CommandLine.Amount.{amount_of}
use fupi.CommandLine.Subcommands.{first_of}
use fupi.CommandLine.Repl.{
  ReplCommand, topup, pay, bank, settle, receive, verify, status, wipe, help, Heard, nothing, leave,
  asked, unheard, hear, second_of, repl_topup, repl_pay, repl_bank, repl_settle, repl_receive,
  repl_verify, repl_wipe, repl_command, respond, repl_loop, run_repl, greeting,
}
use fupi.CommandLine.Repl.Effects.{
  vault_env, credit, Does, ReplRun, over, left, skipped, unknown, step,
}

module _ (agent : Agent) (json : Json) (hmac : Hmac) (base_url : String)
    (shell : Shell json agent.World) (c : Crates) (t : TokenCodec) (device : Device agent.World)
    (flash_path : String) where
  abbrev venv : Environment
  venv = vault_env agent json hmac base_url shell c t device flash_path

  abbrev DoesHere :
      List String → Session agent.World → ReplCommand → List Line → Session agent.World → Type 0
  DoesHere args s = Does agent json hmac base_url shell c t device flash_path args s

  module _ (args : List String) (s : Session agent.World)
      (b : IsBalanced s.state.pending_swap) where
    grown :
        (s' : Session agent.World) (fresh : List Proof)
        → s'.state.proofs ≡ s.state.proofs ++ fresh
        → s'.state.pending_swap ≡ s.state.pending_swap
        → holdings s.state ≤ holdings s'.state
    grown s' fresh added pending = omega (
      arith,
      appended-balance s.state s'.state fresh added,
      holdings-slot s'.state s.state.pending_swap pending,
    )

    repl_topup-Does : Ends (DoesHere args s topup) (repl_topup c t venv args s)
    unfolding repl_topup topup_vault
    repl_topup-Does =
        let T = DoesHere args s topup in
        given-cases T (first_of args) _ _ s (λ missing. (b, inl (missing, (refl, refl))))
          λ arg there.
            given-cases T (amount_of args) _ _ s
              (λ bad. (b, inr (arg, there, inl (bad, (refl, refl)))))
              λ n asked_for.
                attempt-cases T (topup_vault c venv n) _ _ s
                  (λ e s' ran.
                    let h : IsBalanced s'.state.pending_swap
                        × (holdings s.state ≤ holdings s'.state) =
                      rw ran at (topup_locked-holdings c venv n none s b) in
                    (h.0, inr (arg, there, inr (n, asked_for, inr (e, ran, h.1, refl)))))
                  (λ loaded s' ran.
                    let h : IsBalanced s'.state.pending_swap
                        × (loaded.0 ≡ n)
                        × (holdings s'.state ≡ holdings s.state + n) =
                      rw ran at (topup_locked-holdings c venv n none s b) in
                    (
                      h.0,
                      inr (arg, there, inr (n, asked_for, inl (loaded, ran, (h.1, h.2), refl))),
                    ))

    repl_pay-Does : Ends (DoesHere args s pay) (repl_pay c t venv args s)
    unfolding repl_pay
    repl_pay-Does =
        let T = DoesHere args s pay in
        given-cases T (first_of args) _ _ s (λ missing. (b, inl (missing, (refl, refl))))
          λ arg there.
            given-cases T (amount_of args) _ _ s
              (λ bad. (b, inr (arg, there, inl (bad, (refl, refl)))))
              λ n asked_for.
                attempt-cases T (pay_amount c venv t n (second_of args)) _ _ s
                  (λ e s' ran.
                    let h : Unpaid c venv t n s.state e s' =
                      rw ran at (pay-Conserves c venv t n (second_of args) s b) in
                    (h.0, inr (arg, there, inr (n, asked_for, inr (e, ran, h.1, refl)))))
                  (λ token s' ran.
                    let h : Paid c venv t n s.state token s' =
                      rw ran at (pay-Conserves c venv t n (second_of args) s b) in
                    (
                      rw (h.0, IsBalanced) tt,
                      inr (arg, there, inr (n, asked_for, inl (token, ran, h.1, refl))),
                    ))

    repl_receive-Does : Ends (DoesHere args s receive) (repl_receive c t venv args s)
    unfolding repl_receive
    repl_receive-Does =
        let T = DoesHere args s receive in
        given-cases T (first_of args) _ _ s (λ missing. (b, inl (missing, (refl, refl))))
          λ token there.
            attempt-cases T (receive_token c t venv token none) _ _ s
              (λ e s' ran.
                let h : MaySome c t venv token s s' =
                  rw ran at (receive_token-IsReceived c t venv token s none) in
                let more = grown s' h.fresh h.appended h.pending in
                (rw (h.pending) b, inr (token, there, inr (e, ran, more, refl))))
              (λ n s' ran.
                let h : IsReceived c t venv token s none n s' =
                  rw ran at (receive_token-IsReceived c t venv token s none) in
                let more = grown s' h.fresh h.appended h.pending in
                (rw (h.pending) b, inr (token, there, inl (n, ran, more, refl))))

    repl_settle-Does : Ends (DoesHere args s settle) (repl_settle c t venv args s)
    unfolding repl_settle
    repl_settle-Does =
        let T = DoesHere args s settle in
        given-cases T (first_of args) _ _ s (λ missing. (b, inl (missing, (refl, refl))))
          λ token there.
            attempt-cases T (settle_token c t venv token (second_of args)) _ _ s
              (λ e s' ran.
                let same : s'.state ≡ s.state =
                  rw ran at (settle_token-same c venv t token (second_of args) s) in
                (rw same b, inr (token, there, inr (e, ran, same, refl))))
              (λ results s' ran.
                let same : s'.state ≡ s.state =
                  rw ran at (settle_token-same c venv t token (second_of args) s) in
                (rw same b, inr (token, there, inl (results, ran, same, refl))))

    repl_verify-Does : Ends (DoesHere args s verify) (repl_verify c t venv args s)
    unfolding repl_verify
    repl_verify-Does =
        given-cases (DoesHere args s verify) (first_of args) _ _ s
          (λ missing. (b, inl (missing, (refl, refl))))
          λ token there. (b, inr (token, there, (refl, refl)))

    repl_wipe-Does : Ends (DoesHere args s wipe) (repl_wipe c t venv s)
    unfolding repl_wipe wipe_vault
    repl_wipe-Does = elim (Result-cases (venv.wipe s.world).0) [
      | inl (done, e) ↦ rw e (tt, inl (refl, refl, refl))
      | inr (d, e) ↦ rw e (tt, inr (d, refl, refl))
    ]

    repl_bank-Does : Ends (DoesHere args s bank) (repl_bank agent json hmac base_url shell args s)
    unfolding repl_bank
    repl_bank-Does =
        let T = DoesHere args s bank in
        given-cases T (first_of args) _ _ s (λ missing. (b, inl (missing, (refl, refl))))
          λ arg there.
            given-cases T (shell.parse_f64 arg) _ _ s
              (λ bad. (b, inr (arg, there, inl (bad, (refl, refl)))))
              λ amount asked_for.
                provided-cases T s.has_client _ _ s
                  (λ none_there. (b, inr (arg, there, inr (inl (none_there, (refl, refl))))))
                  (λ _.
                    ask-cases T (credit agent json hmac base_url shell c t device flash_path amount)
                      _ _ s
                      (λ e w ran. (
                        b,
                        inr (
                          arg,
                          there,
                          inr (inr (amount, asked_for, refl, inr (e, rw ran refl, refl))),
                        ),
                      ))
                      (λ reserve w ran. (
                        b,
                        inr (
                          arg,
                          there,
                          inr (inr (amount, asked_for, refl, inl (reserve, rw ran refl, refl))),
                        ),
                      )))

  repl_command-Does :
      (command : ReplCommand) (args : List String) (s : Session agent.World)
      → IsBalanced s.state.pending_swap
      → Ends
          (DoesHere args s command)
          (repl_command agent json hmac base_url shell c t device flash_path command args s)
  unfolding repl_command
  repl_command-Does topup args s b = repl_topup-Does args s b
  repl_command-Does pay args s b = repl_pay-Does args s b
  repl_command-Does bank args s b = repl_bank-Does args s b
  repl_command-Does settle args s b = repl_settle-Does args s b
  repl_command-Does receive args s b = repl_receive-Does args s b
  repl_command-Does verify args s b = repl_verify-Does args s b
  repl_command-Does status args s b = (b, (refl, refl))
  repl_command-Does wipe args s b = repl_wipe-Does args s b
  repl_command-Does help args s b = (b, (refl, refl))

  -- The rest of a session, from a state on.
  abbrev Runs : List Heard → Session agent.World → List Line → Session agent.World → Type 0
  Runs heard s lines s' =
      IsBalanced s'.state.pending_swap
      × ReplRun agent json hmac base_url shell c t device flash_path heard s lines s'

  respond-Runs :
      (rest : Session agent.World → List Line × Session agent.World) (more : List Heard)
      → ((s : Session agent.World) → IsBalanced s.state.pending_swap → Ends (Runs more s) (rest s))
      → (heard : Heard) (s : Session agent.World) → IsBalanced s.state.pending_swap
      → Ends
          (Runs (heard ∷ more) s)
          (respond agent json hmac base_url shell c t device flash_path rest heard s)
  unfolding respond
  respond-Runs rest more ih nothing s b =
      let (balanced, run) = ih s b in (balanced, skipped more s (rest s).0 (rest s).1 run)
  respond-Runs rest more ih leave s b = (b, left more s)
  respond-Runs rest more ih (unheard word) s b =
      let (balanced, run) = ih s b in (balanced, unknown word more s (rest s).0 (rest s).1 run)
  respond-Runs rest more ih (asked command args) s b =
      let first =
        repl_command agent json hmac base_url shell c t device flash_path command args s in
      let (between, effect) = repl_command-Does command args s b in
      let (balanced, run) = ih first.1 between in
      (
        balanced,
        step command args more s first.0 first.1 (rest first.1).0 (rest first.1).1 effect run,
      )

  repl_loop-Runs :
      (stdin : List String) (s : Session agent.World)
      → IsBalanced s.state.pending_swap
      → Ends
          (Runs (map (hear shell.to_uppercase) stdin) s)
          (repl_loop agent json hmac base_url shell c t device flash_path stdin s)
  unfolding repl_loop
  repl_loop-Runs [] s b = (b, over s)
  repl_loop-Runs (line ∷ lines) s b =
      respond-Runs (repl_loop agent json hmac base_url shell c t device flash_path lines)
        (map (hear shell.to_uppercase) lines) (λ s1 b1. repl_loop-Runs lines s1 b1)
        (hear shell.to_uppercase line) s b

  pub run_repl-ReplRun :
      (atm_url : String) (relaxed : Bool) (stdin : List String) (s : Session agent.World)
      → IsBalanced s.state.pending_swap
      → let (lines, s') =
          run_repl agent json hmac base_url shell c t device flash_path atm_url relaxed stdin s in
        IsBalanced s'.state.pending_swap
        × ((printed : List Line) × (lines ≡ greeting atm_url relaxed ++ printed)
            × ReplRun agent json hmac base_url shell c t device flash_path
                (map (hear shell.to_uppercase) stdin)
                s
                printed
                s')
  unfolding run_repl
  run_repl-ReplRun atm_url relaxed stdin s b =
      let (balanced, run) = repl_loop-Runs stdin s b in (balanced, (_, refl, run))

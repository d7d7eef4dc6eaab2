-- ===== src/CommandLine/Main/Kept.antt =====
-- The subcommands that leave the vault's money alone.
use fupi.Common.{
  ℕ, ◌≡◌, refl, ◌∙◌, ap, inl, inr, String, Bool, true, false, List, [], ◌∷◌, Option, none, some,
  not, any, if◌then◌else◌, Bool-cases,
}
use fupi.Common.Result.{Result, ok, err}
use fupi.Types.{Proof, PendingSwap, FlashState}
use fupi.Crypto.{Crates}
use fupi.Vault.Errors.{VaultError}
use fupi.Vault.Environment.{Environment, TokenCodec}
use fupi.Vault.Session.{Session, ◌>>=◌}
use fupi.Vault.Session.Steps.{Result-cases, Outcome, commit-Outcome}
use fupi.Vault.Keysets.{pinned_keysets, is_empty, check_keyset_set, fetch_keysets, cache_keysets}
use fupi.Vault.Tokens.{verify_token}
use fupi.Vault.Receive.{settle_token}
use fupi.Vault.State.{device_public_key, ack_outbox}
use fupi.Vault.Swap.{recover, abandon_pending, give_up, restored_state}
use fupi.Vault.Swap.Balance.{IsBalanced, Conserves, restored_state-Conserves, recover-Conserves}
use fupi.Vault.Money.{
  SameMoney, SameMoney-Conserves, Always-after, cache_keysets-SameMoney, fetch_keysets-same,
  pin_fetched-SameMoney, ack_outbox-SameMoney, device_public_key-SameMoney, settle_token-same,
}
use fupi.CommandLine.{Config}
use fupi.CommandLine.Outcomes.{Ends, attempt-Ends, attempt-cases, given-cases}
use fupi.CommandLine.Amount.{amount_of}
use fupi.CommandLine.Subcommands.{
  first_of, verify_report, recover_report, ack_report, pin_first_use, run_verify, run_settle,
  run_pin, run_device, run_recover, run_ack,
}
use fupi.CommandLine.Main.Effects.{
  IsPlain, Leaves, Kept, RanKept, success, Verified, Settled, Recovered, Acknowledged,
}
use fupi.CommandLine.Show.{any_failed, settled_report}

verify_report-code :
    (r : Result VaultError (List Proof))
    → (verify_report r).code ≡ (elim r [ ok proofs ↦ 0 | err e ↦ 1 ])
verify_report-code (ok proofs) = refl
verify_report-code (err e) = refl

recover_report-code :
    (text : String) (found : Bool) (state : FlashState) → (recover_report text found state).code ≡ 0
recover_report-code text true state = refl
recover_report-code text false state = refl

ack_report-code : (n : ℕ) (found : Bool) → (ack_report n found).code ≡ (if found then 0 else 1)
ack_report-code n true = refl
ack_report-code n false = refl

any_failed-any :
    (results : List (String × Bool × String))
    → any_failed results ≡ any (λ (r : String × Bool × String). not r.1) results
unfolding any_failed
any_failed-any [] = refl
any_failed-any ((sec, true, msg) ∷ results) = any_failed-any results
any_failed-any ((sec, false, msg) ∷ results) = refl

module _ (c : Crates) (env : Environment) where
  give_up-Conserves :
      (slot : Option PendingSwap) (s : Session env.World)
      → s.state.pending_swap ≡ slot
      → Conserves s.state s.state
      → Outcome
          (λ (_ : Bool) s'. Conserves s.state s'.state)
          (λ e s'. Conserves s.state s'.state)
          (give_up c env slot s)
  unfolding give_up
  give_up-Conserves none s e same = same
  give_up-Conserves (some p) s e same =
      commit-Outcome env (λ (_ : Bool) s'. Conserves s.state s'.state)
        (λ e s'. Conserves s.state s'.state) (restored_state s.state p) _ s
        (λ d s1 unchanged. rw unchanged same)
        (λ s1 after. rw after (restored_state-Conserves s.state p e))

module _ (c : Crates) (t : TokenCodec) (env : Environment) (cfg : Config) (s : Session env.World)
    (b : IsBalanced s.state.pending_swap) where
  same_money :
      (code : ℕ) (s' : Session env.World)
      → IsPlain code
      → SameMoney s.state s'.state
      → Leaves (Kept s.state) (record { lines = []; code = code }) s'
  same_money code s' plain same =
      let (balanced, held) = SameMoney-Conserves s.state s'.state b same in
      (balanced, (plain, held))

  pub pin_first_use-SameMoney : SameMoney s.state (pin_first_use c t env s).state
  unfolding pin_first_use
  pin_first_use-SameMoney = elim (Bool-cases (is_empty (pinned_keysets s.state))) [
    | inl e ↦ rw e (
        Always-after (SameMoney s.state) ((fetch_keysets env >>= cache_keysets env) s)
          (pin_fetched-SameMoney env s))
    | inr e ↦ rw e (refl, refl)
  ]

  pub run_verify-Leaves : Ends (Leaves (Verified c t env cfg s)) (run_verify c t env cfg s)
  unfolding run_verify
  run_verify-Leaves =
      given-cases (Leaves (Verified c t env cfg s)) (first_of cfg.args) _ _ s
        (λ missing. (b, inl (missing, refl, refl)))
        λ token there.
          let s1 = pin_first_use c t env s in
          let (balanced, held) = SameMoney-Conserves s.state s1.state b pin_first_use-SameMoney in
          (
            balanced,
            inr (token, there, refl, verify_report-code (verify_token c t s1.state token), held),
          )

  pub run_device-Leaves :
      Ends (Leaves (RanKept (device_public_key c env) success s)) (run_device c t env s)
  unfolding run_device
  run_device-Leaves =
      let money = λ (s' : Session env.World) (h : SameMoney s.state s'.state).
        SameMoney-Conserves s.state s'.state b h in
      attempt-cases (Leaves (RanKept (device_public_key c env) success s)) (device_public_key c env)
        _ _ s
        (λ e s' ran.
          let (balanced, held) = money s' (rw ran at (device_public_key-SameMoney c env s)) in
          (balanced, (inr (e, ran, refl), held)))
        (λ pk s' ran.
          let (balanced, held) = money s' (rw ran at (device_public_key-SameMoney c env s)) in
          (balanced, (inl (pk, ran, refl), held)))

  pub run_ack-Leaves : Ends (Leaves (Acknowledged c t env cfg s)) (run_ack c t env cfg s)
  unfolding run_ack
  run_ack-Leaves =
      let T = Leaves (Acknowledged c t env cfg s) in
      let money = λ (s' : Session env.World) (h : SameMoney s.state s'.state).
        SameMoney-Conserves s.state s'.state b h in
      given-cases T (amount_of cfg.args) _ _ s (λ missing. (b, (refl, inl (missing, refl, refl))))
        λ n there.
          attempt-cases T (ack_outbox env n) _ _ s
            (λ e s' ran.
              let (balanced, held) = money s' (rw ran at (ack_outbox-SameMoney env n s)) in
              (balanced, (held, inr (n, there, inr (e, ran, refl)))))
            (λ found s' ran.
              let (balanced, held) = money s' (rw ran at (ack_outbox-SameMoney env n s)) in
              (balanced, (held, inr (n, there, inl (found, ran, ack_report-code n found)))))

  pub run_pin-Leaves : Ends (Leaves (Kept s.state)) (run_pin c t env cfg s)
  unfolding run_pin
  run_pin-Leaves =
      attempt-Ends (Leaves (Kept s.state)) _ _ (fetch_keysets env) _ _ s (fetch_keysets-same env s)
        (λ e s1 same. same_money 1 s1 (inr refl) (rw same (refl, refl)))
        (λ offered s1 same.
          let cached =
            attempt-Ends (Leaves (Kept s.state)) _ _ (cache_keysets env offered) _ _ s1
              (cache_keysets-SameMoney env offered s1)
              (λ e s2 h. same_money 1 s2 (inr refl) (
                h.0 ∙ ap (λ (x : FlashState). x.proofs) same,
                h.1 ∙ ap (λ (x : FlashState). x.pending_swap) same,
              ))
              (λ done s2 h. same_money 0 s2 (inl refl) (
                h.0 ∙ ap (λ (x : FlashState). x.proofs) same,
                h.1 ∙ ap (λ (x : FlashState). x.pending_swap) same,
              )) in
          elim (Result-cases (check_keyset_set (pinned_keysets s1.state) offered cfg.force)) [
            | inl (fine, e) ↦ rw e cached
            | inr (d, e) ↦ elim (Bool-cases cfg.force) [
              | inl forced ↦ rw (e, forced) cached
              | inr unforced ↦ rw (e, unforced) (same_money 1 s1 (inr refl) (rw same (refl, refl)))
            ]
          ])

  pub run_recover-Leaves : Ends (Leaves (Recovered c t env cfg s)) (run_recover c t env cfg s)
  unfolding run_recover abandon_pending
  run_recover-Leaves = elim (Bool-cases cfg.abandon) [
    | inl e ↦ rw e (
        attempt-cases (Leaves (RanKept (abandon_pending c env) success s)) (abandon_pending c env) _
          _ s
          (λ x s' ran.
            let h : Conserves s.state s'.state =
              rw ran at (give_up-Conserves c env s.state.pending_swap s refl (b, refl)) in
            (h.0, (inr (x, ran, refl), h.1)))
          (λ found s' ran.
            let h : Conserves s.state s'.state =
              rw ran at (give_up-Conserves c env s.state.pending_swap s refl (b, refl)) in
            (h.0, (inl (found, ran, recover_report-code _ found s'.state), h.1))))
    | inr e ↦ rw e (
        attempt-cases (Leaves (RanKept (recover c env) success s)) (recover c env) _ _ s
          (λ x s' ran.
            let h = rw ran at (recover-Conserves c env s b) in (h.0, (inr (x, ran, refl), h.1)))
          (λ found s' ran.
            let h = rw ran at (recover-Conserves c env s b) in
            (h.1.0, (inl (found, ran, recover_report-code _ found s'.state), h.1.1))))
  ]

  pub run_settle-Leaves : Ends (Leaves (Settled c t env cfg s)) (run_settle c t env cfg s)
  unfolding run_settle settled_report
  run_settle-Leaves =
      let T = Leaves (Settled c t env cfg s) in
      given-cases T (first_of cfg.args) _ _ s (λ missing. (b, (refl, inl (missing, refl, refl))))
        λ token there.
          attempt-cases T (settle_token c t env token cfg.claim_key) _ _ s
            (λ e s' ran.
              let same : s'.state ≡ s.state =
                rw ran at (settle_token-same c env t token cfg.claim_key s) in
              (rw same b, (same, inr (token, there, inr (e, ran, refl)))))
            (λ results s' ran.
              let same : s'.state ≡ s.state =
                rw ran at (settle_token-same c env t token cfg.claim_key s) in
              (
                rw same b,
                (same, inr (token, there, inl (results, ran, rw (any_failed-any results) refl))),
              ))

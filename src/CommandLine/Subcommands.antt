-- ===== src/CommandLine/Subcommands.antt =====
-- The subcommands of `main` in vault-rust/src/main.rs that work on the vault.
use fupi.Common.{
  ℕ, String, ◌<>◌, Bool, true, false, not, Option, none, some, List, [], ◌∷◌, ◌++◌, map, length,
  ltb, if◌then◌else◌,
}
use fupi.Common.Result.{Result, ok, err}
use fupi.Common.Text.{show}
use fupi.Types.{Keyset, Proof, Receipt, FlashState}
use fupi.Crypto.{Crates, modulus_fingerprint, generate_claim_keypair}
use fupi.Vault.Errors.{VaultError, vault_error_text}
use fupi.Vault.Environment.{Environment, TokenCodec}
use fupi.Vault.Session.{Session, ◌>>=◌}
use fupi.Vault.Keysets.{pinned_keysets, is_empty, check_keyset_set, fetch_keysets, cache_keysets}
use fupi.Vault.Tokens.{verify_token}
use fupi.Vault.Coins.{balance}
use fupi.Vault.Receive.{receive_token, settle_token}
use fupi.Vault.Merchant.{accept_payment}
use fupi.Vault.Settle.{settle_all}
use fupi.Vault.State.{device_public_key, ack_outbox, wipe}
use fupi.Vault.Swap.{pay, recover, abandon_pending}
use fupi.Vault.Topup.{topup_locked}
use fupi.CommandLine.{Config}
use fupi.CommandLine.Output.{
  Line, out, complaint, outs, Report, done, printed, failed_with, Action, say, exit, attempt, given,
  provided,
}
use fupi.CommandLine.Show.{verified_lines, settled_report}
use fupi.CommandLine.Amount.{amount_of}

-- `cfg.args[0]`, where there is one
abbrev pub first_of : List String → Option String
first_of [] = none
first_of (arg ∷ args) = some arg

-- `eprintln!("{text}: {e}"); exit(1)`
abbrev pub because : String → VaultError → Report
because text e = failed_with (text <> (": " <> vault_error_text e))

abbrev pub with_balance : String → FlashState → Report
with_balance text state = printed (text <> (" (balance " <> (show (balance state) <> ")")))

-- The fingerprint of each pinned keyset, `unwrap_or_default`
unfoldable pub pinned_line : Crates → Keyset → String
unfolding modulus_fingerprint
pinned_line c k =
    "Pinned keyset '"
    <> (k.keyset_id
        <> ("' (e="
            <> (show k.e
                <> (") modulus SHA-256: "
                    <> (elim (modulus_fingerprint c k.n) [ ok fp ↦ fp | err e ↦ "" ])))))

unfoldable pub accepted_line : Receipt → FlashState → String
accepted_line r state =
    "ACCEPTED receipt #"
    <> (show r.id
        <> (" amount="
            <> (show r.amount
                <> (" proofs="
                    <> (show (length r.secrets) <> (" held_total=" <> show (balance state)))))))

-- What was settled, rejected, and is still held; any rejection makes the exit code 2.
unfoldable pub settle_all_report : ℕ × ℕ × ℕ → Report
settle_all_report (settled, rejected, held) = record {
  lines =
      out (
        "SETTLED value="
        <> (show settled <> (" rejected=" <> (show rejected <> (" still_held=" <> show held)))))
      ∷ [];
  code = if ltb 0 rejected then 2 else 0;
}

abbrev pub verify_report : Result VaultError (List Proof) → Report
verify_report (ok proofs) = done (verified_lines proofs)
verify_report (err e) = because "Verification FAILED" e

abbrev pub recover_report : String → Bool → FlashState → Report
recover_report text true state = with_balance text state
recover_report text false state = printed "nothing pending"

abbrev pub ack_report : ℕ → Bool → Report
ack_report n true = printed ("outbox entry " <> (show n <> " acknowledged"))
ack_report n false = failed_with "no such outbox entry"

-- The secret and the public key of a new pair, from 32 random bytes
unfoldable pub keygen_lines : Crates → List ℕ → List Line
unfolding generate_claim_keypair
keygen_lines c bytes =
    let (sk, pk) = generate_claim_keypair c bytes in
    outs (
      ("public_key=" <> (pk <> "   (give this to whoever issues you locked proofs: topup --lock)"))
      ∷ ("secret_key=" <> (sk <> "   (KEEP PRIVATE: settle --claim-key)"))
      ∷ [])

module _ (c : Crates) (t : TokenCodec) (env : Environment) where
  unfoldable pub run_topup : Config → Action env.World
  unfolding topup_locked
  run_topup cfg = given (first_of cfg.args) (failed_with "Usage: fupi-vault topup <amount>") λ arg.
      given (amount_of cfg.args) (failed_with ("Invalid topup amount: " <> arg)) λ amount.
        attempt (topup_locked c env amount cfg.lock) (because "Topup failed") λ loaded. say (
          with_balance
            ("[vault] topup +" <> (show loaded.0 <> (" in " <> (show loaded.1 <> " proofs")))))

  unfoldable pub run_pay : Config → Action env.World
  unfolding pay
  run_pay cfg =
      given (first_of cfg.args) (failed_with "Usage: fupi-vault pay <amount> [--p2pk <pubkey-hex>]")
        λ arg.
          given (amount_of cfg.args) (failed_with ("Invalid payment amount: " <> arg)) λ amount.
            attempt (pay c env t amount cfg.p2pk) (because "Payment failed") λ token. exit (
              done (
                out token
                ∷ complaint
                    "[vault] token saved in outbox; run `outbox` to re-show it, `ack <n>` once delivered"
                ∷ []))

  -- Trust on first use, when nothing is pinned; what fails is ignored.
  unfoldable pub pin_first_use : Session env.World → Session env.World
  unfolding fetch_keysets cache_keysets
  pin_first_use s =
      if is_empty (pinned_keysets s.state)
      then ((fetch_keysets env >>= cache_keysets env) s).1
      else s

  unfoldable pub run_receive : Config → Action env.World
  unfolding pin_first_use receive_token
  run_receive cfg =
      given (first_of cfg.args) (failed_with "Usage: fupi-vault receive <token>") λ token s.
        attempt (receive_token c t env token none) (because "Receive failed")
          (λ n. say (with_balance ("[vault] received +" <> (show n <> " proofs"))))
          (pin_first_use s)

  unfoldable pub run_verify : Config → Action env.World
  unfolding pin_first_use verify_token
  run_verify cfg =
      given (first_of cfg.args) (failed_with "Usage: fupi-vault verify <token>")
        λ token s. say (λ state. verify_report (verify_token c t state token)) (pin_first_use s)

  unfoldable pub run_settle : Config → Action env.World
  unfolding settle_token
  run_settle cfg =
      given (first_of cfg.args) (failed_with "Usage: fupi-vault settle <token> [--claim-key <hex>]")
        λ token.
          attempt (settle_token c t env token cfg.claim_key) (because "Settle error")
            λ results. exit (settled_report results)

  unfoldable pub run_keygen : Action env.World
  run_keygen s =
      let (bytes, w) = env.key_bytes s.world in
      (done (keygen_lines c bytes), record s { world = w })

  -- With `--force` the keysets are pinned whatever the check says.
  unfoldable pub run_pin : Config → Action env.World
  unfolding check_keyset_set fetch_keysets cache_keysets
  run_pin cfg = attempt (fetch_keysets env) (because "Could not fetch keysets") λ offered s.
      let cached = attempt (cache_keysets env offered) (because "Could not save keysets") λ _.
        exit (
          done (
            outs (
              map (pinned_line c) offered
              ++ ("  Compare these with the values shown by the kiosk operator before trusting them."
                  ∷ [])))) in
      elim (check_keyset_set (pinned_keysets s.state) offered cfg.force) [
        | ok _ ↦ cached s
        | err e ↦
            if not cfg.force
            then exit (because "Refusing to change pinned keysets" e) s
            else cached s
      ]

  unfoldable pub run_device : Action env.World
  unfolding device_public_key
  run_device =
      attempt (device_public_key c env) (because "device key error")
        λ pk. exit (printed ("device_public_key=" <> pk))

  -- A refused token is printed on the standard output, and has an exit code of its own.
  unfoldable pub run_accept : Config → Action env.World
  unfolding accept_payment
  run_accept cfg =
      given (first_of cfg.args)
        (failed_with "Usage: fupi-vault accept <token> [--invoice <id>] [--expect <amount>]")
        λ token s.
          provided (not (is_empty (pinned_keysets s.state)))
            (failed_with
              "No pinned keysets: run `pin` first (a merchant must never trust keys from a token)")
            (attempt (accept_payment c t env token cfg.invoice cfg.expect)
              (λ e. record { lines = out ("REJECTED: " <> vault_error_text e) ∷ []; code = 2 })
              λ receipt. say (λ state. printed (accepted_line receipt state)))
            s

  unfoldable pub run_settle_all : Config → Action env.World
  unfolding settle_all
  run_settle_all cfg =
      attempt (settle_all c env cfg.claim_key)
        (λ e.
          failed_with (
            "settle-all stopped: "
            <> (vault_error_text e <> " (unanswered proofs are still held)")))
        λ totals. exit (settle_all_report totals)

  unfoldable pub run_recover : Config → Action env.World
  unfolding recover abandon_pending
  run_recover cfg =
      if cfg.abandon
      then attempt (abandon_pending c env) (because "abandon failed")
          (λ found. say (recover_report "pending swap abandoned; inputs restored" found))
      else attempt (recover c env) (because "recover failed")
          (λ found. say (recover_report "pending swap completed" found))

  unfoldable pub run_ack : Config → Action env.World
  unfolding ack_outbox
  run_ack cfg =
      given (amount_of cfg.args) (failed_with "Usage: fupi-vault ack <n>")
        λ n. attempt (ack_outbox env n) (because "ack failed") λ found. exit (ack_report n found)

  unfoldable pub run_wipe : Action env.World
  unfolding wipe
  run_wipe =
      attempt (wipe env) (because "Wipe failed")
        λ _. exit (printed "Vault flash wiped successfully.")

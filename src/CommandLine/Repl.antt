-- ===== src/CommandLine/Repl.antt =====
-- The interactive session `run_repl` of vault-rust/src/main.rs, over the lines that can be read. The
-- prompt before each line is left out.
pub mod Effects
pub mod Money
use fupi.Common.{
  ℕ, String, ◌<>◌, Bool, true, false, Option, none, some, List, [], ◌∷◌, ◌++◌, length, str_eq,
  if◌then◌else◌,
}
use Prim.Native.Char.{code}
use fupi.Common.Result.{Result, ok, err}
use fupi.Common.Text.{show, is_whitespace, is_empty_text}
use fupi.Types.{Proof, FlashState}
use fupi.Crypto.{Crates}
use fupi.Vault.Errors.{VaultError, vault_error_text}
use fupi.Vault.Environment.{Environment, TokenCodec}
use fupi.Vault.Session.{Session}
use fupi.Vault.Tokens.{verify_token}
use fupi.Vault.Coins.{balance}
use fupi.Vault.Receive.{receive_token, settle_token}
use fupi.Vault.State.{wipe as wipe_vault}
use fupi.Vault.Swap.{pay as pay_amount}
use fupi.Vault.Topup.{topup as topup_vault}
use fupi.Client.Agent.{Agent, Json, Hmac}
use fupi.Client.Connected.{Device, connected}
use fupi.CommandLine.Output.{Line, out, outs, Act, say, exit, attempt, ask, given, provided}
use fupi.CommandLine.Shell.{Shell, show_bool}
use fupi.CommandLine.Show.{repl_status_lines, repl_settled_lines}
use fupi.CommandLine.Amount.{amount_of}
use fupi.CommandLine.Operator.{do_credit}
use fupi.CommandLine.Subcommands.{first_of}

abbrev add_word : String → List String → List String
add_word w ws = if is_empty_text w then ws else w ∷ ws

-- The word at the front of a text, and the words behind it
unfoldable pub split_words : String → String × List String
unfolding is_whitespace
split_words String.[] = ("", [])
split_words (String.◌∷◌ c s) =
    let (w, ws) = split_words s in
    if is_whitespace (code c) then ("", add_word w ws) else (String.◌∷◌ c w, ws)

-- `split_whitespace`, which reads the same words behind `trim`
unfoldable pub split_whitespace : String → List String
unfolding split_words
split_whitespace s = let (w, ws) = split_words s in add_word w ws

pub data ReplCommand : Type 0 where
  topup pay bank settle receive verify status wipe help : ReplCommand

-- What a line asks for.
pub data Heard : Type 0 where
  nothing leave : Heard
  asked : ReplCommand → List String → Heard
  unheard : String → Heard

unfoldable pub repl_commands : List String → List (String × Heard)
repl_commands args =
    ("TOPUP", asked topup args)
    ∷ ("PAY", asked pay args)
    ∷ ("BANK", asked bank args)
    ∷ ("SETTLE", asked settle args)
    ∷ ("RECEIVE", asked receive args)
    ∷ ("VERIFY", asked verify args)
    ∷ ("STATUS", asked status args)
    ∷ ("WIPE", asked wipe args)
    ∷ ("EXIT", leave)
    ∷ ("QUIT", leave)
    ∷ ("HELP", asked help args)
    ∷ []

-- The `match` on a text: the first case that it equals, or the last one.
abbrev pub match_text {ℓ} : {A : Type ℓ} → String → List (String × A) → A → A
match_text text [] otherwise = otherwise
match_text text ((name, a) ∷ cases) otherwise =
    if str_eq text name then a else match_text text cases otherwise

abbrev hear_words : (String → String) → List String → Heard
unfolding repl_commands
hear_words to_uppercase [] = nothing
hear_words to_uppercase (word ∷ args) =
    match_text (to_uppercase word) (repl_commands args) (unheard word)

unfoldable pub hear : (String → String) → String → Heard
unfolding split_whitespace repl_commands
hear to_uppercase line = hear_words to_uppercase (split_whitespace line)

unfoldable pub greeting : String → Bool → List Line
greeting atm_url relaxed = outs (
    ""
    ∷ "======================================================="
    ∷ "  FUPI LIGHTWEIGHT RUST VAULT (RPi & Linux Edition)"
    ∷ ("  ATM Target: " <> (atm_url <> (" (TLS Insecure: " <> (show_bool relaxed <> ")"))))
    ∷ "======================================================="
    ∷ "Commands:"
    ∷ "  TOPUP <n>          -> Withdraw <n> blind-signed tokens from ATM"
    ∷ "  PAY <n> [p2pk]     -> Spend <n> tokens (emits bearer token)"
    ∷ "  BANK <amount>      -> Credit ATM reserve with bank transfer test"
    ∷ "  SETTLE <token>     -> Settle a spent token at the ATM"
    ∷ "  VERIFY <token>     -> Offline verify token authenticity"
    ∷ "  STATUS             -> Show current balance, flash path & journal"
    ∷ "  WIPE               -> Reset vault and clear flash memory"
    ∷ "  EXIT / QUIT        -> Exit REPL"
    ∷ "======================================================="
    ∷ ""
    ∷ [])

-- The second word behind a command, where there is one
abbrev pub second_of : List String → Option String
second_of [] = none
second_of (arg ∷ args) = first_of args

abbrev pub fails : String → VaultError → List Line
fails text e = out (text <> (": " <> vault_error_text e)) ∷ []

abbrev pub payment_lines : ℕ → String → FlashState → List Line
payment_lines amount token state = outs (
    ""
    ∷ "=== FUPI PAYMENT TOKEN (BEARER TRANSFER) ==="
    ∷ token
    ∷ "============================================"
    ∷ ""
    ∷ ("Paid " <> (show amount <> (" token(s). New balance: " <> show (balance state))))
    ∷ [])

abbrev pub loaded_lines : ℕ × ℕ → FlashState → List Line
loaded_lines loaded state = outs (
    ("TOPUP SUCCESS: loaded +"
      <> (show loaded.0
          <> (" in " <> (show loaded.1 <> (" proofs (balance " <> (show (balance state) <> ")"))))))
    ∷ [])

abbrev pub received_lines : ℕ → FlashState → List Line
received_lines n state = outs (
    ("RECEIVE SUCCESS: +"
      <> (show n <> (" proofs stored into flash (balance " <> (show (balance state) <> ")"))))
    ∷ [])

abbrev pub confirmed_lines : Result VaultError (List Proof) → List Line
confirmed_lines (ok proofs) =
    outs (("OFFLINE VERIFY PASS: " <> (show (length proofs) <> " genuine proofs confirmed!")) ∷ [])
confirmed_lines (err e) = fails "OFFLINE VERIFY FAILED" e

abbrev pub unknown_command : String → Line
unknown_command word = out ("Unknown command '" <> (word <> "'. Type HELP for options."))

module _ (c : Crates) (t : TokenCodec) (env : Environment) where
  unfoldable pub repl_topup : List String → Act env.World (List Line)
  unfolding topup_vault
  repl_topup args = given (first_of args) (outs ("Usage: TOPUP <amount>" ∷ [])) λ arg.
      given (amount_of args) (outs ("Invalid amount" ∷ [])) λ amount.
        attempt (topup_vault c env amount) (fails "TOPUP FAILED")
          λ loaded. say (loaded_lines loaded)

  unfoldable pub repl_pay : List String → Act env.World (List Line)
  unfolding pay_amount
  repl_pay args = given (first_of args) (outs ("Usage: PAY <amount> [lock-pubkey-hex]" ∷ [])) λ arg.
      given (amount_of args) (outs ("Invalid amount" ∷ [])) λ amount.
        attempt (pay_amount c env t amount (second_of args)) (fails "PAYMENT FAILED")
          λ token. say (payment_lines amount token)

  unfoldable pub repl_settle : List String → Act env.World (List Line)
  unfolding settle_token
  repl_settle args =
      given (first_of args) (outs ("Usage: SETTLE <token> [claim-key-hex]" ∷ [])) λ token.
        attempt (settle_token c t env token (second_of args)) (fails "SETTLE FAILED")
          λ results. exit (repl_settled_lines results)

  unfoldable pub repl_receive : List String → Act env.World (List Line)
  unfolding receive_token
  repl_receive args = given (first_of args) (outs ("Usage: RECEIVE <token>" ∷ [])) λ token.
      attempt (receive_token c t env token none) (fails "RECEIVE FAILED")
        λ n. say (received_lines n)

  unfoldable pub repl_verify : List String → Act env.World (List Line)
  unfolding verify_token
  repl_verify args =
      given (first_of args) (outs ("Usage: VERIFY <token>" ∷ []))
        λ token. say (λ state. confirmed_lines (verify_token c t state token))

  unfoldable pub repl_wipe : Act env.World (List Line)
  unfolding wipe_vault
  repl_wipe =
      attempt (wipe_vault env) (fails "WIPE FAILED")
        λ _. exit (outs ("VAULT WIPED. Flash cleared, balance = 0" ∷ []))

module _ (agent : Agent) (json : Json) (hmac : Hmac) (base_url : String)
    (shell : Shell json agent.World) where
  unfoldable pub repl_bank : List String → Act agent.World (List Line)
  unfolding do_credit
  repl_bank args = given (first_of args) (outs ("Usage: BANK <amount>" ∷ [])) λ arg.
      given (shell.parse_f64 arg) (outs ("Invalid amount" ∷ [])) λ amount s.
        provided s.has_client (outs ("No ATM client configured" ∷ []))
          (ask (do_credit agent json hmac base_url shell amount none)
            (λ e. outs (("BANK CREDIT FAILED: " <> e) ∷ []))
            λ res. exit (outs (("BANK CREDIT SUCCESS: reserve = " <> shell.show_2 res) ∷ [])))
          s

  module _ (c : Crates) (t : TokenCodec) (device : Device agent.World) (flash_path : String) where
    abbrev pub online : Environment
    online = connected agent json base_url device

    unfoldable pub repl_command : ReplCommand → List String → Act agent.World (List Line)
    unfolding repl_topup repl_pay repl_settle repl_receive repl_verify repl_wipe repl_bank
        repl_status_lines
    repl_command topup args = repl_topup c t online args
    repl_command pay args = repl_pay c t online args
    repl_command bank args = repl_bank args
    repl_command settle args = repl_settle c t online args
    repl_command receive args = repl_receive c t online args
    repl_command verify args = repl_verify c t online args
    repl_command status args = say (repl_status_lines (shell.debug_path flash_path))
    repl_command wipe args = repl_wipe c t online
    repl_command help args = exit (
        outs (
          "Available commands: TOPUP, PAY, RECEIVE, BANK, SETTLE, VERIFY, STATUS, WIPE, EXIT" ∷ []))

    -- What is done about a line, and then about the rest of them.
    unfoldable pub respond : Act agent.World (List Line) → Heard → Act agent.World (List Line)
    unfolding repl_command
    respond rest nothing s = rest s
    respond rest leave s = ([], s)
    respond rest (unheard word) s = let (lines, s') = rest s in (unknown_command word ∷ lines, s')
    respond rest (asked command args) s =
        let (lines, s1) = repl_command command args s in
        let (more, s2) = rest s1 in (lines ++ more, s2)

    unfoldable pub repl_loop : List String → Act agent.World (List Line)
    unfolding hear respond
    repl_loop [] = exit []
    repl_loop (line ∷ lines) = respond (repl_loop lines) (hear shell.to_uppercase line)

    unfoldable pub run_repl : String → Bool → List String → Act agent.World (List Line)
    unfolding greeting repl_loop
    run_repl atm_url relaxed stdin s =
        let (lines, s') = repl_loop stdin s in (greeting atm_url relaxed ++ lines, s')

-- ===== src/CommandLine/Main.antt =====
-- `main` of vault-rust/src/main.rs: the dispatch on the subcommand, and the program as a whole.
pub mod Effects
pub mod Kept
pub mod Pinning
pub mod Moves
pub mod Dispatch
pub mod Program
pub mod Tests
use fupi.Common.{
  ℕ, String, ◌<>◌, Bool, true, false, Option, none, some, List, [], ◌∷◌, ◌++◌, is_some,
  if◌then◌else◌,
}
use fupi.Common.Result.{Result, ok, err}
use fupi.Common.Text.{show}
use fupi.Types.{FlashState}
use fupi.Storage.{StorageError}
use fupi.Crypto.{Crates}
use fupi.Vault.Errors.{VaultError, ClientError, storage, vault_error_text, client_error_text}
use fupi.Vault.Environment.{Environment, TokenCodec}
use fupi.Vault.Session.{Session}
use fupi.Vault.Coins.{balance}
use fupi.Vault.State.{set_merchant}
use fupi.Client.Agent.{Agent, Json, Hmac}
use fupi.Client.Connected.{Device, connected}
use fupi.Client.Tls.{AtmClient, with_tls}
use fupi.CommandLine.{Config, Parsed, run, stop, help, parse_cli, tls_of, client_of}
use fupi.CommandLine.Output.{
  Line, complaint, Report, done, printed, failed_with, Action, Act, say, exit,
}
use fupi.CommandLine.Usage.{print_usage}
use fupi.CommandLine.Shell.{Shell}
use fupi.CommandLine.Show.{status_lines, receipts_lines, outbox_lines}
use fupi.CommandLine.Subcommands.{
  run_topup, run_pay, run_receive, run_verify, run_settle, run_keygen, run_pin, run_device,
  run_accept, run_settle_all, run_recover, run_ack, run_wipe,
}
use fupi.CommandLine.Operator.{run_bank, run_allocate, run_report, run_payout, run_info}
use fupi.CommandLine.Repl.{match_text, run_repl}

pub data Subcommand : Type 0 where
  balance_sub status topup pay receive verify settle bank keygen pin device : Subcommand
  allocate accept receipts settle_all report payout recover outbox ack info wipe repl : Subcommand
  unknown : Subcommand

abbrev subcommands : List (String × Subcommand)
subcommands =
    ("balance", balance_sub)
    ∷ ("status", status)
    ∷ ("topup", topup)
    ∷ ("pay", pay)
    ∷ ("receive", receive)
    ∷ ("verify", verify)
    ∷ ("settle", settle)
    ∷ ("bank", bank)
    ∷ ("keygen", keygen)
    ∷ ("pin", pin)
    ∷ ("device", device)
    ∷ ("allocate", allocate)
    ∷ ("accept", accept)
    ∷ ("receipts", receipts)
    ∷ ("settle-all", settle_all)
    ∷ ("report", report)
    ∷ ("payout", payout)
    ∷ ("recover", recover)
    ∷ ("outbox", outbox)
    ∷ ("ack", ack)
    ∷ ("info", info)
    ∷ ("wipe", wipe)
    ∷ ("repl", repl)
    ∷ []

-- `match cfg.subcommand.as_str()`
unfoldable pub subcommand_of : String → Subcommand
subcommand_of text = match_text text subcommands unknown

-- `Vault::new`: the client comes with it, and no merchant.
abbrev pub opened :
    {W : Type 0} → Bool → W → Result StorageError FlashState → Result VaultError (Session W)
opened has_client w (ok state) =
    ok (record { state = state; has_client = has_client; merchant = none; world = w })
opened has_client w (err e) = err (storage e)

unfoldable pub new_vault :
    {W : Type 0}
    → (W → Result StorageError FlashState × W)
    → Bool
    → W
    → Result VaultError (Session W) × W
new_vault load has_client w = let (loaded, w') = load w in (opened has_client w' loaded, w')

-- The warnings of `main` about the client.
unfoldable pub client_warnings : Config → List Line
unfolding tls_of with_tls
client_warnings cfg =
    (elim cfg.pin_tls [
      | some fp ↦ []
      | none ↦
          if cfg.insecure
          then complaint "[warn] --insecure: TLS certificate is NOT being verified" ∷ []
          else []
    ])
    ++ (elim (with_tls cfg.atm_url (tls_of cfg)) [
      | ok client ↦ []
      | err e ↦ complaint ("[warn] could not build ATM client: " <> client_error_text e) ∷ []
    ])

-- Without a client no request is sent, and there is no address.
abbrev pub base_url_of : Option AtmClient → String
base_url_of none = ""
base_url_of (some client) = client.base_url

-- The session of the REPL ends the program without an error.
abbrev pub talk : {W : Type 0} → Act W (List Line) → Action W
talk m s = let (lines, s') = m s in (done lines, s')

module _ (c : Crates) (t : TokenCodec) (agent : Agent) (json : Json) (hmac : Hmac)
    (shell : Shell json agent.World) (dev : Device agent.World) (base_url : String)
    (stdin : List String) where
  abbrev pub online : Environment
  online = connected agent json base_url dev

  unfoldable pub run_subcommand : Config → Subcommand → Action agent.World
  unfolding status_lines receipts_lines outbox_lines run_topup run_pay run_receive run_verify
      run_settle run_keygen run_pin run_device run_accept run_settle_all run_recover run_ack
      run_wipe run_bank run_allocate run_report run_payout run_info run_repl
  run_subcommand cfg balance_sub = say (λ state. printed (show (balance state)))
  run_subcommand cfg status =
      say (λ state. done (status_lines (shell.debug_path cfg.flash_path) state))
  run_subcommand cfg topup = run_topup c t online cfg
  run_subcommand cfg pay = run_pay c t online cfg
  run_subcommand cfg receive = run_receive c t online cfg
  run_subcommand cfg verify = run_verify c t online cfg
  run_subcommand cfg settle = run_settle c t online cfg
  run_subcommand cfg bank = run_bank agent json hmac base_url shell cfg
  run_subcommand cfg keygen = run_keygen c t online
  run_subcommand cfg pin = run_pin c t online cfg
  run_subcommand cfg device = run_device c t online
  run_subcommand cfg allocate = run_allocate agent json hmac base_url shell cfg
  run_subcommand cfg accept = run_accept c t online cfg
  run_subcommand cfg receipts = say (λ state. done (receipts_lines state))
  run_subcommand cfg settle_all = run_settle_all c t online cfg
  run_subcommand cfg report = run_report agent json hmac base_url shell cfg
  run_subcommand cfg payout = run_payout agent json hmac base_url shell cfg
  run_subcommand cfg recover = run_recover c t online cfg
  run_subcommand cfg outbox = say (λ state. done (outbox_lines state))
  run_subcommand cfg ack = run_ack c t online cfg
  run_subcommand cfg info = run_info agent json hmac base_url shell
  run_subcommand cfg wipe = run_wipe c t online
  run_subcommand cfg repl = talk (
      run_repl agent json hmac base_url shell c t dev cfg.flash_path cfg.atm_url cfg.insecure stdin)
  run_subcommand cfg unknown = exit (record {
    lines = complaint ("Unknown subcommand: " <> cfg.subcommand) ∷ print_usage;
    code = 1;
  })

-- The report of a program that could load its state comes with the state it has left in memory.
pub record Ended (W : Type 0) : Type 0 where
  pub report : Report
  pub vault : Option (Session W)
  pub world : W

module _ (c : Crates) (t : TokenCodec) (agent : Agent) (json : Json) (hmac : Hmac)
    (shell : Shell json agent.World) (dev : Device agent.World)
    (load : agent.World → Result StorageError FlashState × agent.World) (stdin : List String) where
  -- From the vault on; the merchant is set first.
  unfoldable pub serve :
      Config → Result VaultError (Session agent.World) → agent.World → Ended agent.World
  unfolding run_subcommand subcommand_of set_merchant
  serve cfg (err e) w = record {
    report = failed_with ("Failed to initialize vault: " <> vault_error_text e);
    vault = none;
    world = w;
  }
  serve cfg (ok s) w =
      let (r, s') =
        run_subcommand c t agent json hmac shell dev (base_url_of (client_of cfg)) stdin cfg
          (subcommand_of cfg.subcommand) (set_merchant cfg.merchant s).1 in
      record { report = r; vault = some s'; world = s'.world }

  unfoldable pub main_with : Config → agent.World → Ended agent.World
  unfolding client_warnings client_of new_vault serve
  main_with cfg w =
      let (opened, w1) = new_vault load (is_some (client_of cfg)) w in
      let ended = serve cfg opened w1 in
      record ended {
        report = record ended.report { lines = client_warnings cfg ++ ended.report.lines };
      }

  -- Where the arguments are not understood, nothing is done.
  unfoldable pub main_of : Parsed → agent.World → Ended agent.World
  unfolding main_with print_usage
  main_of (stop lines) w = record { report = done lines; vault = none; world = w }
  main_of help w = record { report = done print_usage; vault = none; world = w }
  main_of (run cfg) w = main_with cfg w

  unfoldable pub main : List String → agent.World → Ended agent.World
  unfolding parse_cli main_of
  main args w = main_of (parse_cli args) w

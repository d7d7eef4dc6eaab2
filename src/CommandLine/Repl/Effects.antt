-- ===== src/CommandLine/Repl/Effects.antt =====
-- What each command of the interactive session does to the vault, and what it prints.
use fupi.Common.{ℕ, ◌+◌, ◌++◌, ◌≤◌, ◌≡◌, ◌⊎◌, ◌<>◌, false, String, none, some, List, [], ◌∷◌}
use fupi.Types.{FlashState, default_state}
use fupi.Common.Result.{Result, ok, err}
use fupi.Storage.{StorageError}
use fupi.Vault.Errors.{VaultError, storage}
use fupi.Vault.Tokens.{verify_token}
use fupi.CommandLine.Show.{repl_status_lines, repl_settled_lines}
use fupi.Crypto.{Crates}
use fupi.Vault.Environment.{Environment, TokenCodec}
use fupi.Vault.Session.{Session, Method}
use fupi.Vault.Receive.{receive_token, settle_token}
use fupi.Vault.Swap.{pay as pay_amount}
use fupi.Vault.Swap.Balance.{IsBalanced, holdings}
use fupi.Vault.Topup.{topup as topup_vault}
use fupi.Client.Agent.{Agent, Json, Hmac}
use fupi.Client.Connected.{Device}
use fupi.CommandLine.Output.{Line, outs}
use fupi.CommandLine.Shell.{Shell}
use fupi.CommandLine.Amount.{amount_of}
use fupi.CommandLine.Operator.{do_credit}
use fupi.CommandLine.Subcommands.{first_of}
use fupi.CommandLine.Repl.{
  ReplCommand, topup, pay, bank, settle, receive, verify, status, wipe, help, Heard, nothing, leave,
  asked, unheard, second_of, payment_lines, loaded_lines, received_lines, confirmed_lines, fails,
  online, unknown_command,
}

-- A line is printed, and nothing else happens.
abbrev pub Refuses : {W : Type 0} → String → Session W → List Line → Session W → Type 0
Refuses text s lines s' = (lines ≡ outs (text ∷ [])) × (s' ≡ s)

-- A method was called: where it has returned, `P` holds and this is printed of its answer; where it has
-- failed, `Q` holds and the failure is printed.
abbrev pub Tells :
    {W A : Type 0}
    → Method W A
    → (A → FlashState → Type 0)
    → (FlashState → Type 0)
    → (A → FlashState → List Line)
    → String
    → Session W
    → List Line
    → Session W
    → Type 0
Tells {A = A} m P Q says failure s lines s' =
    ((a : A) × (m s ≡ (ok a, s')) × P a s'.state × (lines ≡ says a s'.state))
    ⊎ ((e : VaultError) × (m s ≡ (err e, s')) × Q s'.state × (lines ≡ fails failure e))

module _ (agent : Agent) (json : Json) (hmac : Hmac) (base_url : String)
    (shell : Shell json agent.World) (c : Crates) (t : TokenCodec) (device : Device agent.World)
    (flash_path : String) where
  abbrev pub vault_env : Environment
  vault_env = online agent json hmac base_url shell c t device flash_path

  abbrev pub credit : json.F → agent.World → Result String json.F × agent.World
  credit amount = do_credit agent json hmac base_url shell amount none

  module _ (args : List String) (s : Session agent.World) where
    abbrev pub Prints : Type 1
    Prints = List Line → Session agent.World → Type 0

    -- Without a first word this is printed; with one, the command does as `P` says.
    abbrev pub WithWord : String → (String → Prints) → Prints
    WithWord usage P lines s' =
        ((first_of args ≡ none) × Refuses usage s lines s')
        ⊎ ((arg : String) × (first_of args ≡ some arg) × P arg lines s')

    abbrev pub WithAmount : String → (ℕ → Prints) → Prints
    WithAmount usage P = WithWord usage (λ arg lines s'.
        ((amount_of args ≡ none) × Refuses "Invalid amount" s lines s')
        ⊎ ((n : ℕ) × (amount_of args ≡ some n) × P n lines s'))

    -- What each command does and prints.
    abbrev pub ReplEffect : ReplCommand → Prints
    ReplEffect topup = WithAmount "Usage: TOPUP <amount>" (λ n.
        Tells (topup_vault c vault_env n)
          (λ loaded after. (loaded.0 ≡ n) × (holdings after ≡ holdings s.state + n))
          (λ after. holdings s.state ≤ holdings after) loaded_lines "TOPUP FAILED" s)
    ReplEffect pay = WithAmount "Usage: PAY <amount> [lock-pubkey-hex]" (λ n.
        Tells (pay_amount c vault_env t n (second_of args))
          (λ token after. holdings s.state ≡ n + holdings after)
          (λ after. holdings after ≡ holdings s.state) (payment_lines n) "PAYMENT FAILED" s)
    ReplEffect receive = WithWord "Usage: RECEIVE <token>" (λ token.
        Tells (receive_token c t vault_env token none)
          (λ n after. holdings s.state ≤ holdings after)
          (λ after. holdings s.state ≤ holdings after) received_lines "RECEIVE FAILED" s)
    ReplEffect settle = WithWord "Usage: SETTLE <token> [claim-key-hex]" (λ token.
        Tells (settle_token c t vault_env token (second_of args)) (λ results after. after ≡ s.state)
          (λ after. after ≡ s.state) (λ results after. repl_settled_lines results) "SETTLE FAILED"
          s)
    ReplEffect verify =
        WithWord "Usage: VERIFY <token>"
          (λ token lines s'. (lines ≡ confirmed_lines (verify_token c t s.state token)) × (s' ≡ s))
    ReplEffect wipe = λ lines s'.
        (((vault_env.wipe s.world).0 ≡ ok tt)
          × (s'.state ≡ default_state)
          × (lines ≡ outs ("VAULT WIPED. Flash cleared, balance = 0" ∷ [])))
        ⊎ ((d : StorageError) × ((vault_env.wipe s.world).0 ≡ err d)
            × (lines ≡ fails "WIPE FAILED" (storage d)))
    ReplEffect bank = WithWord "Usage: BANK <amount>" (λ arg lines s'.
        ((shell.parse_f64 arg ≡ none) × Refuses "Invalid amount" s lines s')
        ⊎ ((s.has_client ≡ false) × Refuses "No ATM client configured" s lines s')
        ⊎ ((amount : json.F) × (shell.parse_f64 arg ≡ some amount)
            × (s'.state ≡ s.state)
            × (((reserve : json.F) × ((credit amount s.world).0 ≡ ok reserve)
                  × (lines
                      ≡ outs (("BANK CREDIT SUCCESS: reserve = " <> shell.show_2 reserve) ∷ [])))
                ⊎ ((e : String) × ((credit amount s.world).0 ≡ err e)
                    × (lines ≡ outs (("BANK CREDIT FAILED: " <> e) ∷ []))))))
    ReplEffect status =
        λ lines s'. (lines ≡ repl_status_lines (shell.debug_path flash_path) s.state) × (s' ≡ s)
    ReplEffect help =
        Refuses "Available commands: TOPUP, PAY, RECEIVE, BANK, SETTLE, VERIFY, STATUS, WIPE, EXIT"
          s

    -- An effect, on a vault that stays balanced.
    abbrev pub Does : ReplCommand → Prints
    Does command lines s' = IsBalanced s'.state.pending_swap × ReplEffect command lines s'

  -- A session: what is heard, the vault before, all that is printed, and the vault behind the first line
  -- that leaves it. Each command has its effect.
  pub data ReplRun
      : List Heard → Session agent.World → List Line → Session agent.World → Type 0 where
    over : (s : Session agent.World) → ReplRun [] s [] s
    left : (heard : List Heard) (s : Session agent.World) → ReplRun (leave ∷ heard) s [] s
    skipped :
        (heard : List Heard) (s : Session agent.World) (printed : List Line)
        (s' : Session agent.World)
        → ReplRun heard s printed s'
        → ReplRun (nothing ∷ heard) s printed s'
    unknown :
        (word : String) (heard : List Heard) (s : Session agent.World) (printed : List Line)
        (s' : Session agent.World)
        → ReplRun heard s printed s'
        → ReplRun (unheard word ∷ heard) s (unknown_command word ∷ printed) s'
    step :
        (command : ReplCommand) (args : List String) (heard : List Heard) (s : Session agent.World)
        (lines : List Line) (between : Session agent.World) (printed : List Line)
        (s' : Session agent.World)
        → ReplEffect args s command lines between
        → ReplRun heard between printed s'
        → ReplRun (asked command args ∷ heard) s (lines ++ printed) s'

-- ===== src/CommandLine/Main/Program.antt =====
-- The program of vault-rust/src/main.rs, from its arguments to its exit code.
use fupi.Common.{◌≡◌, refl, String, none, some, List, ◌∷◌, ◌++◌, All, is_some}
use fupi.Common.Result.{Result}
use fupi.Common.Text.{codes, parse_u64}
use fupi.Types.{FlashState}
use fupi.Storage.{StorageError}
use fupi.Crypto.{Crates}
use fupi.Vault.Environment.{Environment, TokenCodec}
use fupi.Vault.Session.{Session}
use fupi.Client.Agent.{Agent, Json, Hmac}
use fupi.Client.Connected.{Device}
use fupi.CommandLine.{Config, client_of}
use fupi.CommandLine.Words.{IsWord, parse_cli-bad_number}
use fupi.CommandLine.Shell.{Shell}
use fupi.CommandLine.Main.{online, base_url_of, subcommand_of, main_of, Ended, main}
use fupi.CommandLine.Main.Effects.{Effects}

module _ (c : Crates) (t : TokenCodec) (agent : Agent) (json : Json) (hmac : Hmac)
    (shell : Shell json agent.World) (dev : Device agent.World)
    (load : agent.World → Result StorageError FlashState × agent.World) (stdin : List String) where
  abbrev vault_env : Config → Environment
  vault_env cfg = online c t agent json hmac shell dev (base_url_of (client_of cfg)) stdin

  -- The vault that `main` opens, from the state that the flash holds.
  abbrev opened : Config → FlashState → agent.World → Session agent.World
  opened cfg state w = record {
    state = state;
    has_client = is_some (client_of cfg);
    merchant = cfg.merchant;
    world = (load w).1;
  }

  -- The program has run a subcommand on this state, with its effect.
  abbrev pub Served : Config → FlashState → agent.World → Ended agent.World → Type 0
  Served cfg state w ended =
      (s' : Session agent.World) × (ended.vault ≡ some s')
      × Effects c t (vault_env cfg) cfg (opened cfg state w) (subcommand_of cfg.subcommand)
          ended.report s'

  -- Behind words of which none is a flag or a call for help, such as `accept` and its token, a value of
  -- `--expect` that is no number ends the program with the exit code of success, before the vault is
  -- opened and whatever follows.
  pub main-bad_number :
      (words : List String) (value : String) (rest : List String) (w : agent.World)
      → All IsWord words
      → parse_u64 (codes value) ≡ none
      → let ended =
          main c t agent json hmac shell dev load stdin (words ++ ("--expect" ∷ value ∷ rest)) w in
        (ended.report.code ≡ 0) × (ended.vault ≡ none) × (ended.world ≡ w)
  unfolding main
  main-bad_number words value rest w plain bad =
      rw (parse_cli-bad_number value rest bad words plain, main, main_of) (refl, refl, refl)

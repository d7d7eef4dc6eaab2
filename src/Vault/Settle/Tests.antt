-- ===== src/Vault/Settle/Tests.antt =====
-- A settling run at concrete inputs.
use fupi.Common.{true, ℕ, refl, none, []}
use fupi.Crypto.Tests.{toy_crates}
use fupi.Vault.Session.Steps.{Outcome}
use fupi.Vault.Settle.{settle_all}
use fupi.Vault.Settle.Accounts.{Log, answering, Reported, Unreported, settle_all-accounts}
use fupi.Vault.Tests.{state, two_coins, toy_env}
use fupi.Vault.Session.{Session}

-- The vault with two coins, and an empty log.
abbrev logging : Session (ℕ × Log)
logging = record { state = state; has_client = true; merchant = none; world = (1, []) }

settle_all-accounts_example :
    Outcome
      (Reported toy_crates none toy_env two_coins)
      (Unreported toy_crates none toy_env two_coins)
      (settle_all toy_crates (answering toy_env) none logging)
settle_all-accounts_example =
    settle_all-accounts toy_crates none toy_env logging ((refl, tt), (tt, tt)) refl

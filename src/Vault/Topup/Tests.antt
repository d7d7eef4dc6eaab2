-- ===== src/Vault/Topup/Tests.antt =====
-- Topups at concrete inputs.
use fupi.Common.{ℕ, ◌+◌, ◌≤◌, ◌≡◌, true, Option, none, List, [], ◌∷◌, arith}
use fupi.Crypto.Tests.{toy_crates}
use fupi.Vault.Errors.{VaultError}
use fupi.Vault.Session.{Session}
use fupi.Vault.Session.Steps.{Outcome}
use fupi.Vault.Swap.Balance.{IsBalanced, holdings}
use fupi.Vault.Swap.Tests.{swapping-IsBalanced}
use fupi.Vault.Topup.{topup_loop, topup_locked}
use fupi.Vault.Topup.Whole.{topup_locked-holdings}
use fupi.Vault.Topup.Log.{Event, logged, IsOrdered}
use fupi.Vault.Topup.Sequence.{topup_loop-IsOrdered}
use fupi.Vault.Tests.{fives, state, toy_env, session, swapping}

topup_locked-holdings_example :
    Outcome
      (λ (loaded : ℕ × ℕ) s'.
        IsBalanced s'.state.pending_swap
        × (loaded.0 ≡ 5)
        × (holdings s'.state ≡ holdings swapping + 5))
      (λ e s'. IsBalanced s'.state.pending_swap × (holdings swapping ≤ holdings s'.state))
      (topup_locked toy_crates toy_env 5 none (session swapping))
topup_locked-holdings_example =
    topup_locked-holdings toy_crates toy_env 5 none (session swapping) swapping-IsBalanced

abbrev fresh : Session (ℕ × List Event)
fresh = record { state = state; has_client = true; merchant = none; world = (1, []) }

topup_loop-IsOrdered_example :
    Outcome
      (λ (_ : ℕ × ℕ × Option VaultError) s'. IsOrdered s'.world.1)
      (λ e s'. IsOrdered s'.world.1)
      (topup_loop toy_crates
        (logged toy_env)
        (fives ∷ [])
        "device"
        "key"
        none
        (5 ∷ 5 ∷ [])
        0
        0
        fresh)
topup_loop-IsOrdered_example =
    topup_loop-IsOrdered toy_crates toy_env (fives ∷ []) "device" "key" none (5 ∷ 5 ∷ []) 0 0 fresh
      (tt, tt, omega arith)

-- ===== src/Vault/Swap/Tests.antt =====
-- Swaps and payments of a small vault, at concrete inputs.
use fupi.Common.{◌≡◌, refl, true, none, [], ◌∷◌}
use fupi.Common.Result.{ok}
use fupi.Denom.{proof_value, denomination_of, split_amount, keyset_id_for}
use fupi.Crypto.Tests.{toy_crates}
use fupi.Vault.Session.Steps.{Outcome}
use fupi.Vault.Keysets.{pinned_keysets}
use fupi.Vault.Coins.{candidates, index_at, token_value}
use fupi.Vault.Swap.{plan_swap, make_change, pay, amount_at, output_value}
use fupi.Vault.Swap.Plan.{IsPlan, plan_swap-IsPlan}
use fupi.Vault.Swap.Balance.{IsBalanced, Conserves, Finished}
use fupi.Vault.Swap.Change.{Paid, Unpaid, make_change-Conserves, pay-Conserves}
use fupi.Vault.Tests.{state, toy_env, toy_codec, session, swapping}

plan_10 : plan_swap state 10 ≡ ok (0 ∷ 1 ∷ [], 5 ∷ 5 ∷ [])
unfolding plan_swap proof_value denomination_of split_amount pinned_keysets candidates amount_at
    index_at
plan_10 = refl

plan_swap-IsPlan_example : IsPlan state 10 (0 ∷ 1 ∷ []) (5 ∷ 5 ∷ [])
plan_swap-IsPlan_example = plan_swap-IsPlan state 10 (0 ∷ 1 ∷ []) (5 ∷ 5 ∷ []) plan_10

pub swapping-IsBalanced : IsBalanced swapping.pending_swap
unfolding keyset_id_for proof_value output_value token_value
swapping-IsBalanced = (((refl, refl), tt), refl)

make_change-Conserves_example :
    Outcome
      (Finished toy_crates toy_env true state)
      (λ e s'. Conserves state s'.state)
      (make_change toy_crates toy_env 5 (session state))
make_change-Conserves_example = make_change-Conserves toy_crates toy_env 5 (session state) refl

pay-Conserves_example :
    Outcome
      (Paid toy_crates toy_env toy_codec 5 swapping)
      (Unpaid toy_crates toy_env toy_codec 5 swapping)
      (pay toy_crates toy_env toy_codec 5 none (session swapping))
pay-Conserves_example =
    pay-Conserves toy_crates toy_env toy_codec 5 none (session swapping) swapping-IsBalanced

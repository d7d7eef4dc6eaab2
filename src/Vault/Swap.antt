-- ===== src/Vault/Swap.antt =====
-- Change-making: a write-ahead swap at the ATM, its completion, recovery and abandonment, and `pay`.
mod Planning
pub mod Inputs
pub mod Plan
pub mod Outputs
pub mod Balance
pub mod Change
pub mod Holdings
pub mod Completion
pub mod Abandon
pub mod Tests
use fupi.Common.{
  ℕ, zero, suc, ◌+◌, ◌-◌, String, ◌<>◌, Bool, true, false, not, Option, none, some, List, [], ◌∷◌,
  ◌++◌, map, reverse, length, ltb, leb, ◌==◌, if◌then◌else◌, push, filter_map, is_some, is_none,
}
use fupi.Common.Result.{Result, ok, err, map_err, ok_or}
use fupi.Common.Text.{show, as_bytes}
use fupi.Common.Sums.{sum}
use fupi.Common.Sorting.{sort_by}
use fupi.Types.{Keyset, Proof, FlashState, PendingOut, PendingSwap}
use fupi.Denom.{keyset_id_for, denomination_of, split_amount}
use fupi.Crypto.{
  Crates, b64_to_biguint, biguint_to_b64, hash_to_scalar, blind, unblind, verify, generate_secret,
}
use fupi.Vault.Errors.{
  VaultError, ClientError, http_status, transport, serialization, client_error_text, crypto, client,
  insufficient_funds, need_change, unsupported_amount, keyset_mismatch, verification_failed,
  swap_pending,
}
use fupi.Vault.Environment.{Environment, TokenCodec}
use fupi.Vault.Session.{
  Session, Method, ◌>>=◌, ◌>>◌, pure, throw, require, lift, get_state, call, try_call,
  require_client, commit,
}
use fupi.Vault.Keysets.{find_keyset, pinned_keysets}
use fupi.Vault.Coins.{candidates, total_of, index_at, ascending, chosen_at, remove_all}
use fupi.Vault.Payment.{make_payment}
use fupi.Vault.Issue.{keyset_for, modulus_of, blinded_message, finish_outputs}
unfoldable pub use Planning.*

-- The inputs leave the spendable proofs and are kept beside the outputs.
unfoldable pub pending_state : FlashState → List ℕ → List PendingOut → FlashState
unfolding chosen_at remove_all
pending_state state idx outputs = record state {
  proofs = remove_all idx state.proofs;
  pending_swap = some (record { inputs = chosen_at idx state.proofs; outputs = outputs });
}

-- `abandon_pending` on a state with a swap.
unfoldable pub restored_state : FlashState → PendingSwap → FlashState
restored_state state p = record state {
  proofs = state.proofs ++ p.inputs;
  pending_swap = none;
  journal = push state.journal "swap abandoned; inputs restored";
}

-- The value of a swap's outputs.
unfoldable pub output_value : PendingSwap → ℕ
output_value p = sum (map (λ (o : PendingOut). o.amount) p.outputs)

-- The state behind a completed swap.
unfoldable pub swapped_state : FlashState → PendingSwap → List Proof → FlashState
unfolding output_value
swapped_state state p fresh = record state {
  proofs = state.proofs ++ fresh;
  pending_swap = none;
  journal =
      push state.journal (
        "swap " <> (show (output_value p) <> (" into " <> (show (length p.outputs) <> " proofs"))));
}

-- The pairs that the request carries.
unfoldable pub swap_request : List PendingOut → List (String × ℕ)
swap_request = map (λ o. (o.blinded, o.amount))

module _ (c : Crates) (env : Environment) where
  -- One round of the loop over the amounts in `make_change`.
  unfoldable pub prepare_output : List Keyset → ℕ → Method env.World PendingOut
  unfolding keyset_for modulus_of blinded_message
  prepare_output pinned d = do
    ks ← lift (keyset_for "(not pinned)" (keyset_id_for d) pinned)
    n ← lift (modulus_of c ks)
    bytes ← call env.secret_bytes
    r ← call (env.random_blinder n)
    pure (record {
      secret = generate_secret bytes;
      r = biguint_to_b64 c r;
      blinded = blinded_message c ks n (generate_secret bytes) r;
      amount = d;
      keyset_id = keyset_id_for d;
    })

  unfoldable pub prepare_outputs : List Keyset → List ℕ → Method env.World (List PendingOut)
  unfolding prepare_output
  prepare_outputs pinned [] = pure []
  prepare_outputs pinned (d ∷ amounts) = do
    o ← prepare_output pinned d
    outs ← prepare_outputs pinned amounts
    pure (o ∷ outs)

  -- `self.state.pending_swap.take()`, and what follows.
  unfoldable pub give_up : Option PendingSwap → Method env.World Bool
  unfolding restored_state
  give_up none = pure false
  give_up (some p) = do state ← get_state; commit env (restored_state state p); pure true

  unfoldable pub abandon_pending : Method env.World Bool
  unfolding give_up
  abandon_pending = do state ← get_state; give_up state.pending_swap

  -- The signatures of a swap, or the error; a refusal of the first attempt abandons the swap.
  unfoldable pub swap_answer :
      Bool → Result ClientError (List String) → Method env.World (List String)
  unfolding abandon_pending
  swap_answer first_attempt (ok sigs) = pure sigs
  swap_answer true (err (http_status code body)) = do
    abandon_pending
    throw (client (http_status code body))
  swap_answer first_attempt (err e) = throw (swap_pending (client_error_text e))

  -- From the answer's signatures on.
  unfoldable pub store_signatures : PendingSwap → List String → Method env.World (Unit {0})
  unfolding finish_outputs swapped_state
  store_signatures p sigs = do
    require (length sigs == length p.outputs)
        (swap_pending "ATM returned the wrong number of signatures")
    state ← get_state
    fresh ← lift (finish_outputs c (pinned_keysets state) p.outputs sigs)
    commit env (swapped_state state p fresh)

  unfoldable pub complete_swap : PendingSwap → Bool → Method env.World (Unit {0})
  unfolding swap_answer swap_request store_signatures
  complete_swap p first_attempt = do
    require_client
    answer ← try_call (env.swap p.inputs (swap_request p.outputs))
    sigs ← swap_answer first_attempt answer
    store_signatures p sigs

  -- `match self.state.pending_swap.clone()`
  unfoldable pub finish_pending : Bool → Option PendingSwap → Method env.World (Unit {0})
  unfolding complete_swap
  finish_pending first_attempt none = pure tt
  finish_pending first_attempt (some p) = complete_swap p first_attempt

  unfoldable pub complete_pending_swap : Bool → Method env.World (Unit {0})
  unfolding finish_pending
  complete_pending_swap first_attempt = do
    state ← get_state
    finish_pending first_attempt state.pending_swap

  -- Whether there was a swap to finish.
  unfoldable pub recover : Method env.World Bool
  unfolding complete_pending_swap
  recover = do
    state ← get_state
    if is_none state.pending_swap then pure false else (complete_pending_swap false >> pure true)

  unfoldable pub make_change : ℕ → Method env.World (Unit {0})
  unfolding plan_swap prepare_outputs pending_state complete_pending_swap
  make_change amount = do
    require_client
    state ← get_state
    (idx, amounts) ← lift (plan_swap state amount)
    outputs ← prepare_outputs (pinned_keysets state) amounts
    commit env (pending_state state idx outputs)
    complete_pending_swap true

  module _ (t : TokenCodec) where
    -- Whether `pay` makes change behind this result of the first attempt.
    abbrev pub needs_change : Option String → Result VaultError String → Bool
    needs_change none (err (need_change requested have)) = true
    needs_change _ _ = false

    unfoldable pub pay : ℕ → Option String → Method env.World String
    unfolding recover make_payment make_change
    pay amount lock = do
      recover
      λ s.
          let (r, s') = make_payment c t env amount lock s in
          if needs_change lock r
          then (make_change amount >> make_payment c t env amount none) s'
          else (r, s')

-- ===== src/Vault/Topup.antt =====
-- `topup_locked`: denominated proofs, each requested with a fresh sequence number and checked before
-- it is stored.
pub mod Loaded
pub mod Whole
pub mod Log
pub mod Sequence
pub mod Tests
use fupi.Common.{
  ℕ, ◌+◌, String, ◌<>◌, false, Option, none, some, List, [], ◌∷◌, ltb, ◌==◌, if◌then◌else◌, push,
  add64, unwrap_or,
}
use fupi.Common.Result.{Result, ok, err, map_err, ok_or}
use fupi.Common.Text.{show, as_bytes}
use fupi.Types.{Keyset, Proof, FlashState}
use fupi.Denom.{keyset_id_for, split_amount}
use fupi.Crypto.{Crates, generate_secret, generate_locked_secret, device_sign_message, sign_bytes}
use fupi.Vault.Errors.{VaultError, ClientError, crypto, client, unsupported_amount, keyset_mismatch}
use fupi.Vault.Environment.{Environment}
use fupi.Vault.Session.{
  Method, ◌>>=◌, ◌>>◌, pure, throw, lift, get_state, set_state, call, try_call, require_client,
  save_state,
}
use fupi.Vault.Keysets.{
  find_keyset, pinned_keysets, check_keyset_set, is_empty, cache_keysets, fetch_keysets,
}
use fupi.Vault.Coins.{balance}
use fupi.Vault.Issue.{modulus_of, blinded_message, finish_proof}
use fupi.Vault.Swap.{denominations_of, recover}
use fupi.Vault.State.{device_public_key}

-- The next sequence number, a `u64`.
unfoldable pub next_seq : FlashState → FlashState
next_seq state = record state { device_seq = add64 state.device_seq 1 }

-- A new proof among the spendable ones.
unfoldable pub with_proof : FlashState → Proof → FlashState
with_proof state p = record state { proofs = push state.proofs p }

-- What a round of the loop comes to: the next round, or the end with an error.
pub data Round : Type 0 where
  go_on : Round
  stop : VaultError → Round

-- The journal entry of a topup that loaded something.
unfoldable pub logged_topup : FlashState → ℕ → ℕ → FlashState
logged_topup state value count = record state {
  journal = push state.journal (
      "topup +"
      <> (show value
          <> (" in " <> (show count <> (" proofs (balance " <> (show (balance state) <> ")"))))));
}

-- The denominations that are loaded.
unfoldable pub topup_plan : ℕ → List Keyset → Result VaultError (List ℕ)
topup_plan amount offered =
    ok_or (split_amount amount (denominations_of offered))
      (unsupported_amount (show amount <> " cannot be made from the ATM's denominations"))

-- `break`, or what follows.
abbrev pub on_round {ℓ} : {A : Type ℓ} → (VaultError → A) → A → Round → A
on_round broken more (stop e) = broken e
on_round broken more go_on = more

module _ (c : Crates) (env : Environment) where
  unfoldable pub new_secret : Option String → Method env.World String
  unfolding generate_secret generate_locked_secret
  new_secret lock = do
    bytes ← call env.secret_bytes
    elim lock [
      | none ↦ pure (generate_secret bytes)
      | some pk ↦ lift (map_err crypto (generate_locked_secret bytes pk))
    ]

  -- The number is on disk before it is used.
  unfoldable pub burn_seq : Method env.World ℕ
  unfolding next_seq
  burn_seq = do
    state ← get_state
    set_state (next_seq state)
    save_state env (next_seq state)
    pure (next_seq state).device_seq

  unfoldable pub store_answer :
      Keyset → ℕ → String → ℕ → Result ClientError String → Method env.World Round
  unfolding finish_proof with_proof
  store_answer ks n secret r (err e) = pure (stop (client e))
  store_answer ks n secret r (ok answer) =
      elim (finish_proof c ks n secret r answer "ATM blind signature failed local RSA check") [
        | err e ↦ pure (stop e)
        | ok p ↦ (do
          state ← get_state
          set_state (with_proof state p)
          save_state env (with_proof state p)
          pure go_on)
      ]

  -- The request for one proof of the denomination `d`.
  unfoldable pub request_proof :
      String → String → Option String → Keyset → ℕ → Method env.World Round
  unfolding new_secret burn_seq store_answer modulus_of blinded_message device_sign_message
      sign_bytes
  request_proof device device_sk lock ks d = do
    n ← lift (modulus_of c ks)
    secret ← new_secret lock
    r ← call (env.random_blinder n)
    seq ← burn_seq
    let blinded = blinded_message c ks n secret r
    dsig ← lift (
        map_err crypto
          (sign_bytes c device_sk (as_bytes (device_sign_message device seq d blinded))))
    answer ← try_call (env.blind_sign_device blinded d device seq dsig)
    store_answer ks n secret r answer

  unfoldable pub topup_round :
      List Keyset → String → String → Option String → ℕ → Method env.World Round
  unfolding request_proof find_keyset
  topup_round offered device device_sk lock d = elim (find_keyset (keyset_id_for d) offered) [
    | none ↦ pure (stop (keyset_mismatch (keyset_id_for d) "(not offered)"))
    | some ks ↦ request_proof device device_sk lock ks d
  ]

  -- The loop over the plan, with the value and the number of the proofs loaded so far.
  unfoldable pub topup_loop :
      List Keyset
      → String
      → String
      → Option String
      → List ℕ
      → ℕ
      → ℕ
      → Method env.World (ℕ × ℕ × Option VaultError)
  unfolding topup_round
  topup_loop offered device device_sk lock [] value count = pure (value, count, none)
  topup_loop offered device device_sk lock (d ∷ plan) value count = do
    round ← topup_round offered device device_sk lock d
    on_round (λ e. pure (value, count, some e))
        (topup_loop offered device device_sk lock plan (value + d) (count + 1)) round

  unfoldable pub log_topup : ℕ → ℕ → Method env.World (Unit {0})
  unfolding logged_topup
  log_topup value count = do
    state ← get_state
    set_state (logged_topup state value count)
    save_state env (logged_topup state value count)

  -- `match error`, behind the journal.
  unfoldable pub finish_with : ℕ → ℕ → Option VaultError → Method env.World (ℕ × ℕ)
  finish_with value count none = pure (value, count)
  finish_with value count (some e) = throw e

  unfoldable pub finish_topup : ℕ × ℕ × Option VaultError → Method env.World (ℕ × ℕ)
  unfolding log_topup finish_with
  finish_topup (value, count, error) = do
    if ltb 0 count then log_topup value count else pure tt
    finish_with value count error

  -- From the device key on.
  unfoldable pub load_plan : List Keyset → Option String → List ℕ → Method env.World (ℕ × ℕ)
  unfolding device_public_key topup_loop finish_topup
  load_plan offered lock plan = do
    device ← device_public_key c env
    later ← get_state
    require_client
    result ← topup_loop offered device (unwrap_or later.device_key "") lock plan 0 0
    finish_topup result

  -- From the keysets on.
  unfoldable pub load_amount : ℕ → Option String → Method env.World (ℕ × ℕ)
  unfolding fetch_keysets cache_keysets topup_plan load_plan
  load_amount amount lock = do
    offered ← fetch_keysets env
    state ← get_state
    lift (check_keyset_set (pinned_keysets state) offered false)
    if is_empty (pinned_keysets state) then cache_keysets env offered else pure tt
    plan ← lift (topup_plan amount offered)
    load_plan offered lock plan

  unfoldable pub topup_locked : ℕ → Option String → Method env.World (ℕ × ℕ)
  unfolding recover load_amount
  topup_locked amount lock =
      if amount == 0 then pure (0, 0) else (do recover c env; load_amount amount lock)

  unfoldable pub topup : ℕ → Method env.World (ℕ × ℕ)
  unfolding topup_locked
  topup amount = topup_locked amount none

-- ===== src/Vault/Payment.antt =====
-- `make_payment`: coins that add up exactly leave the vault as a token.
pub mod Conserves
pub mod Outcome
pub mod Complete
use fupi.Common.{
  ℕ, ◌<◌, String, ◌<>◌, Bool, true, false, not, Option, none, some, List, [], ◌∷◌, map, length, ltb,
  ◌==◌, if◌then◌else◌, push,
}
use fupi.Common.Result.{Result, ok, err, map_err, ok_or}
use fupi.Common.Text.{codes, show}
use fupi.Common.Sorting.{sort_by}
use fupi.Types.{Proof, FlashState}
use fupi.Denom.{max_exact_target, exact_subset}
use fupi.Crypto.{Crates, b64_encode, hex_key, invalid_lock}
use fupi.Vault.Errors.{
  VaultError, crypto, insufficient_funds, need_change, unsupported_amount, invalid_token,
}
use fupi.Vault.Environment.{Environment, TokenCodec}
use fupi.Vault.Session.{Method, ◌>>=◌, ◌>>◌, pure, require, lift, get_state, commit}
use fupi.Vault.Coins.{balance, candidates, total_of, index_at, ascending, chosen_at, remove_all}

-- `lock.as_deref()` into the bytes of a key
unfoldable pub wanted_lock : Option String → Result VaultError (Option (List ℕ))
wanted_lock none = ok none
wanted_lock (some hex) = elim (hex_key hex) [
  | none ↦ err (crypto (invalid_lock "lock must be 32 bytes of hex"))
  | some key ↦ ok (some key)
]

-- `cand.sort_by(|a, b| b.1.cmp(&a.1))`: largest first, stable.
unfoldable pub largest_first : List (ℕ × ℕ) → List (ℕ × ℕ)
unfolding sort_by
largest_first = sort_by (λ a b. ltb a.1 b.1)

-- The indices of the proofs to spend, in ascending order, from the sorted candidates.
unfoldable pub pick_from : List (ℕ × ℕ) → ℕ → ℕ → Result VaultError (List ℕ)
unfolding ascending exact_subset
pick_from cand total amount = elim (exact_subset (map (λ c. c.1) cand) amount) [
  | none ↦ err (need_change amount total)
  | some pick ↦ ok (ascending (map (λ j. index_at cand j) pick))
]

unfoldable pub select_coins : List Proof → Option (List ℕ) → ℕ → Result VaultError (List ℕ)
unfolding candidates total_of largest_first pick_from
select_coins proofs want amount =
    let cand = candidates want proofs in
    if ltb (total_of cand) amount
    then err (insufficient_funds (total_of cand) amount)
    else pick_from (largest_first cand) (total_of cand) amount

-- The state behind a payment of `amount` by the proofs at `idx`.
unfoldable pub spent_state : FlashState → List ℕ → String → ℕ → FlashState
unfolding remove_all
spent_state state idx token_str amount =
    let left = remove_all idx state.proofs in
    record state {
      proofs = left;
      outbox = push state.outbox token_str;
      journal =
          push state.journal
            ("spent " <> (show amount <> (" (balance " <> (show (length left) <> ")"))));
    }

module _ (c : Crates) (t : TokenCodec) (env : Environment) where
  -- The token of a list of proofs.
  unfoldable pub token_of : List Proof → Result VaultError String
  token_of chosen = elim (t.to_vec chosen) [
    | err e ↦ err (invalid_token e)
    | ok json_bytes ↦ ok (b64_encode c json_bytes)
  ]

  unfoldable pub make_payment : ℕ → Option String → Method env.World String
  unfolding wanted_lock select_coins chosen_at token_of spent_state balance
  make_payment amount lock = do
    state ← get_state
    require (not (amount == 0)) (insufficient_funds (balance state) 0)
    want ← lift (wanted_lock lock)
    require (not (ltb max_exact_target amount))
        (unsupported_amount (show amount <> " is above the per-payment limit"))
    idx ← lift (select_coins state.proofs want amount)
    token_str ← lift (token_of (chosen_at idx state.proofs))
    commit env (spent_state state idx token_str amount)
    pure token_str

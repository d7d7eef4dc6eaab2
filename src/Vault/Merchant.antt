-- ===== src/Vault/Merchant.antt =====
-- `accept_payment`: a token is taken as a whole or not at all, and leaves a receipt.
pub mod Accept
pub mod Replay
use fupi.Common.{
  ℕ, ◌+◌, String, ◌<>◌, Bool, true, false, ◌||◌, not, Option, none, some, List, [], ◌∷◌, ◌++◌, map,
  any, ltb, ◌==◌, str_eq, if◌then◌else◌, push, add64,
}
use fupi.Common.Result.{Result, ok, err}
use fupi.Common.Text.{show}
use fupi.Types.{Proof, Receipt, FlashState}
use fupi.Crypto.{Crates}
use fupi.Vault.Errors.{VaultError, wrong_amount, duplicate_token}
use fupi.Vault.Environment.{Environment, TokenCodec}
use fupi.Vault.Session.{Method, ◌>>=◌, ◌>>◌, pure, require, lift, get_state, call, commit}
use fupi.Vault.Keysets.{pinned_keysets}
use fupi.Vault.Tokens.{verify_offline_set}
use fupi.Vault.Coins.{token_value}
use fupi.Vault.Receive.{holds_secret}

unfoldable pub has_text : String → List String → Bool
has_text x = any (λ y. str_eq y x)

-- The closure `known`: a held proof or a receipt has this secret.
unfoldable pub is_known : FlashState → String → Bool
unfolding holds_secret has_text
is_known state sec =
    holds_secret sec state.proofs || any (λ (r : Receipt). has_text sec r.secrets) state.receipts

-- `proofs.iter().any(|p| known(&p.secret) || !seen.insert(…))`
unfoldable pub has_duplicate : FlashState → List String → List Proof → Bool
unfolding is_known
has_duplicate state seen [] = false
has_duplicate state seen (p ∷ ps) =
    let later = has_duplicate state (p.secret ∷ seen) ps in
    if is_known state p.secret || has_text p.secret seen then true else later

abbrev pub mismatch : Option ℕ → ℕ → Bool
mismatch none value = false
mismatch (some want) value = not (want == value)

abbrev pub expected : Option ℕ → ℕ
expected none = 0
expected (some want) = want

-- `receipts.last().map(|r| r.id).unwrap_or(0)`
unfoldable pub last_id : List Receipt → ℕ
last_id [] = 0
last_id (r ∷ []) = r.id
last_id (r ∷ q ∷ rs) = last_id (q ∷ rs)

unfoldable pub new_receipt : FlashState → List Proof → Option String → ℕ → Receipt
unfolding last_id token_value
new_receipt state proofs invoice ts = record {
  id = add64 (last_id state.receipts) 1;
  invoice = invoice;
  amount = token_value proofs;
  secrets = map (λ (p : Proof). p.secret) proofs;
  ts = ts;
  settled = 0;
  rejected = 0;
}

unfoldable pub accepted_state : FlashState → List Proof → Receipt → FlashState
accepted_state state proofs receipt = record state {
  proofs = state.proofs ++ proofs;
  receipts = push state.receipts receipt;
  journal = push state.journal (
      "accepted #"
      <> (show receipt.id
          <> (" "
              <> (show receipt.amount
                  <> (" (held " <> (show (token_value (state.proofs ++ proofs)) <> ")"))))));
}

module _ (c : Crates) (t : TokenCodec) (env : Environment) where
  unfoldable pub accept_payment : String → Option String → Option ℕ → Method env.World Receipt
  unfolding verify_offline_set has_duplicate new_receipt accepted_state
  accept_payment token_str invoice expect = do
    state ← get_state
    proofs ← lift (verify_offline_set c t token_str (pinned_keysets state))
    require (not (mismatch expect (token_value proofs)))
        (wrong_amount (expected expect) (token_value proofs))
    require (not (has_duplicate state [] proofs)) duplicate_token
    ts ← call env.now
    commit env (accepted_state state proofs (new_receipt state proofs invoice ts))
    pure (new_receipt state proofs invoice ts)

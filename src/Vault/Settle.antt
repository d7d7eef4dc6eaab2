-- ===== src/Vault/Settle.antt =====
-- `settle_all`: every held proof is settled at the ATM, and its receipts keep count.
pub mod Accounts
pub mod Totals
pub mod Tests
use fupi.Common.{
  ℕ, ◌+◌, String, ◌<>◌, Bool, false, ◌&&◌, not, Option, none, some, List, [], ◌∷◌, map, ltb, ◌==◌,
  str_eq, if◌then◌else◌, push, keep, add64,
}
use fupi.Common.Result.{Result, ok, err}
use fupi.Common.Text.{show}
use fupi.Types.{Proof, Receipt, FlashState}
use fupi.Denom.{proof_value}
use fupi.Crypto.{Crates}
use fupi.Vault.Errors.{VaultError, ClientError, http_status, transport, serialization, client}
use fupi.Vault.Environment.{Environment}
use fupi.Vault.Session.{
  Method, ◌>>=◌, ◌>>◌, pure, throw, lift, get_state, try_call, require_client, commit,
}
use fupi.Vault.Coins.{balance}
use fupi.Vault.Receive.{with_claim}
use fupi.Vault.Merchant.{has_text}

-- `if ok { r.settled += v } else { r.rejected += v }`, on the receipts that name the secret.
unfoldable pub settle_receipt : String → Bool → ℕ → Receipt → Receipt
unfolding has_text
settle_receipt sec done v r =
    if has_text sec r.secrets
    then (if done
        then record r { settled = add64 r.settled v }
        else record r { rejected = add64 r.rejected v })
    else r

unfoldable pub without_secret : String → List Proof → List Proof
without_secret sec = keep (λ (p : Proof). not (str_eq p.secret sec))

-- The state behind the ATM's answer for one proof.
unfoldable pub settled_state : FlashState → Proof → Bool → String → FlashState
unfolding without_secret settle_receipt
settled_state state proof done msg = record state {
  proofs = without_secret proof.secret state.proofs;
  receipts = map (settle_receipt proof.secret done (proof_value proof)) state.receipts;
  journal = push state.journal (
      "settle "
      <> ((if done then "OK" else "REJECTED")
          <> (" " <> (show (proof_value proof) <> (" (" <> (msg <> ")"))))));
}

-- A refusal by the ATM counts as an answer; every other error stops the run.
unfoldable pub settle_verdict :
    Result ClientError (Bool × String) → Result VaultError (Bool × String)
settle_verdict (ok r) = ok r
settle_verdict (err (http_status code body)) =
    if not (code == 409) && ltb code 500
    then ok (false, "refused: HTTP " <> show code)
    else err (client (http_status code body))
settle_verdict (err (transport e)) = err (client (transport e))
settle_verdict (err (serialization e)) = err (client (serialization e))

module _ (c : Crates) (env : Environment) where
  -- From the ATM's verdict on one proof to the end of the round; `rest` is what follows.
  unfoldable pub settle_answered :
      Proof
      → ℕ
      → ℕ
      → (ℕ → ℕ → Method env.World (ℕ × ℕ × Option VaultError))
      → Result VaultError (Bool × String)
      → Method env.World (ℕ × ℕ × Option VaultError)
  unfolding settled_state
  settle_answered proof ok_v bad_v rest (err e) = pure (ok_v, bad_v, some e)
  settle_answered proof ok_v bad_v rest (ok (done, msg)) = do
    state ← get_state
    commit env (settled_state state proof done msg)
    if done then rest (ok_v + proof_value proof) bad_v else rest ok_v (bad_v + proof_value proof)

  -- The loop over the proofs held at the start, with the value settled and rejected so far.
  unfoldable pub settle_loop :
      Option String → List Proof → ℕ → ℕ → Method env.World (ℕ × ℕ × Option VaultError)
  unfolding with_claim settle_verdict settle_answered
  settle_loop claim_key [] ok_v bad_v = pure (ok_v, bad_v, none)
  settle_loop claim_key (proof ∷ proofs) ok_v bad_v = do
    p ← lift (with_claim c claim_key proof)
    merchant ← λ s. (ok s.merchant, s)
    answer ← try_call (env.settle_as p merchant)
    settle_answered proof ok_v bad_v (settle_loop claim_key proofs) (settle_verdict answer)

  -- `match stop`, with the value still held.
  unfoldable pub report_settled : ℕ → ℕ → Option VaultError → Method env.World (ℕ × ℕ × ℕ)
  report_settled ok_v bad_v (some e) = throw e
  report_settled ok_v bad_v none = do later ← get_state; pure (ok_v, bad_v, balance later)

  unfoldable pub settle_all : Option String → Method env.World (ℕ × ℕ × ℕ)
  unfolding settle_loop report_settled
  settle_all claim_key = do
    require_client
    state ← get_state
    (ok_v, bad_v, stopped) ← settle_loop claim_key state.proofs 0 0
    report_settled ok_v bad_v stopped

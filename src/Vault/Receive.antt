-- ===== src/Vault/Receive.antt =====
-- `receive_token` and `settle_token`.
pub mod Distinct
pub mod Money
use fupi.Common.{
  ℕ, ◌+◌, String, ◌<>◌, Bool, not, Option, none, some, List, [], ◌∷◌, length, any, ◌==◌, str_eq,
  if◌then◌else◌, push,
}
use fupi.Common.Result.{Result, ok, err}
use fupi.Common.Text.{show}
use fupi.Types.{Keyset, Proof, FlashState}
use fupi.Crypto.{Crates, lock_of, claim_signature}
use fupi.Vault.Errors.{VaultError, crypto, client, invalid_token}
use fupi.Vault.Environment.{Environment, TokenCodec}
use fupi.Vault.Session.{
  Method, ◌>>=◌, ◌>>◌, pure, require, lift, get_state, set_state, call_or, require_client,
  save_state,
}
use fupi.Vault.Keysets.{pinned_keysets}
use fupi.Vault.Tokens.{decode_token, verify_offline_set}

-- Whether a proof with this secret is among them.
unfoldable pub holds_secret : String → List Proof → Bool
holds_secret sec = any (λ (p : Proof). str_eq p.secret sec)

-- The loop that skips duplicates: the proofs held behind it, and how many were new.
unfoldable pub receive_proofs : List Proof → List Proof → ℕ → List Proof × ℕ
unfolding holds_secret
receive_proofs [] held received = (held, received)
receive_proofs (p ∷ ps) held received =
    let skipped = receive_proofs ps held received in
    let taken = receive_proofs ps (push held p) (received + 1) in
    if holds_secret p.secret held then skipped else taken

-- The claim of a locked proof, as `settle_token` and `settle_all` attach it.
unfoldable pub with_claim : Crates → Option String → Proof → Result VaultError Proof
with_claim c claim_key p = elim (lock_of p.secret) [
  | err e ↦ err (crypto e)
  | ok none ↦ ok (record p { p2pk = none })
  | ok (some lock) ↦ elim claim_key [
    | none ↦ ok (record p { p2pk = none })
    | some key ↦ elim (claim_signature c key p.secret) [
      | err e ↦ err (crypto e)
      | ok sig ↦ ok (record p { p2pk = none; claimer = some sig })
    ]
  ]
]

module _ (c : Crates) (t : TokenCodec) (env : Environment) where
  abbrev pub trusted : FlashState → Option Keyset → List Keyset
  trusted state none = pinned_keysets state
  trusted state (some k) = k ∷ []

  unfoldable pub receive_token : String → Option Keyset → Method env.World ℕ
  unfolding receive_proofs verify_offline_set
  receive_token token_str expected_keyset = do
    state ← get_state
    verified ← lift (verify_offline_set c t token_str (trusted state expected_keyset))
    let (held, received) = receive_proofs verified state.proofs 0
    set_state (record state { proofs = held })
    require (not (received == 0))
        (invalid_token "All proofs in token were duplicates of existing vault proofs")
    let next : FlashState = record state {
      proofs = held;
      journal =
          push state.journal
            ("received +" <> (show received <> (" (balance " <> (show (length held) <> ")"))));
    }
    set_state next
    save_state env next
    pure received

  unfoldable pub settle_each :
      Option String → List Proof → Method env.World (List (String × Bool × String))
  unfolding with_claim
  settle_each claim_key [] = pure []
  settle_each claim_key (p ∷ ps) = do
    claimed ← lift (with_claim c claim_key p)
    merchant ← λ s. (ok s.merchant, s)
    (done, msg) ← call_or client (env.settle_as claimed merchant)
    rest ← settle_each claim_key ps
    pure ((p.secret, done, msg) ∷ rest)

  unfoldable pub settle_token :
      String → Option String → Method env.World (List (String × Bool × String))
  unfolding settle_each decode_token
  settle_token token_str claim_key = do
    require_client
    proofs ← lift (decode_token c t token_str)
    settle_each claim_key proofs

-- ===== src/Vault/Money.antt =====
-- The methods that leave the money of the vault alone: pinning, the device key, the outbox, and the
-- calls that settle a token of somebody else.
use fupi.Common.{
  ℕ, ◌+◌, ◌++◌, ◌≡◌, refl, ◌∙◌, inl, inr, String, Bool, Option, some, List, [], ◌∷◌, ◌||◌, ◌==◌,
  ltb, length, is_none, unwrap_or, Bool-cases,
}
use fupi.Common.Result.{Result, ok, err, map_err}
use fupi.Common.Sums.{sum-map_append}
use fupi.Denom.{proof_value}
use fupi.Types.{Keyset, Proof, FlashState, default_state}
use fupi.Crypto.{Crates, hex_encode, public_key_of}
use fupi.Vault.Errors.{VaultError, ClientError, client}
use fupi.Vault.Environment.{Environment, TokenCodec}
use fupi.Vault.Session.{Session, ◌>>=◌}
use fupi.Vault.Session.Steps.{
  Result-cases, Outcome, Outcome-imp, bind-Outcome, lift-Outcome, saved-Outcome, save_state-Outcome,
  when-Outcome, require_client-Outcome,
}
use fupi.Vault.Keysets.{pin_all, fetch_single, offered_keysets, fetch_keysets, cache_keysets}
use fupi.Vault.Coins.{token_value, balance}
use fupi.Vault.Receive.{with_claim, settle_each, settle_token}
use fupi.Vault.State.{generate_device_key, device_public_key, drop_token, ack_outbox, wipe}
use fupi.Vault.Tokens.{decode_token}
use fupi.Vault.Swap.Balance.{IsBalanced, Conserves}
use fupi.Vault.Topup.Whole.{pin_all_money}

-- Whatever a method returns, the state behind it is like this.
abbrev pub Always :
    {W A : Type 0} → (FlashState → Type 0) → Result VaultError A × Session W → Type 0
Always P r = Outcome (λ _ s. P s.state) (λ _ s. P s.state) r

pub Always-after :
    {W A : Type 0} (P : FlashState → Type 0) (r : Result VaultError A × Session W)
    → Always P r
    → P r.1.state
Always-after P (ok a, s) h = h
Always-after P (err e, s) h = h

-- The same proofs, and the same unfinished swap.
abbrev pub SameMoney : FlashState → FlashState → Type 0
SameMoney before after = (after.proofs ≡ before.proofs) × (after.pending_swap ≡ before.pending_swap)

pub SameMoney-Conserves :
    (before after : FlashState)
    → IsBalanced before.pending_swap
    → SameMoney before after
    → Conserves before after
unfolding balance token_value
SameMoney-Conserves before after b (proofs, pending) = (rw pending b, rw (proofs, pending) refl)

pub appended-balance :
    (before after : FlashState) (fresh : List Proof)
    → after.proofs ≡ before.proofs ++ fresh
    → balance after ≡ balance before + token_value fresh
unfolding balance token_value
appended-balance before after fresh e = rw e (sum-map_append proof_value before.proofs fresh)

module _ (env : Environment) where
  pub cache_keysets-SameMoney :
      (ks : List Keyset) (s : Session env.World)
      → Always (SameMoney s.state) (cache_keysets env ks s)
  unfolding cache_keysets
  cache_keysets-SameMoney ks s =
      let same = pin_all_money ks s.state in
      let P = λ (s' : Session env.World). SameMoney s.state s'.state in
      saved-Outcome env (λ _ s'. P s') (λ _ s'. P s') (pin_all ks s.state)
        (record s { state = pin_all ks s.state }) (λ e s' kept. rw kept same)
        (λ s' kept. rw kept same)

  fetch_single-same :
      (s : Session env.World) → Always (λ state. state ≡ s.state) (fetch_single env s)
  unfolding fetch_single
  fetch_single-same s = elim (Result-cases (env.get_keyset s.world).0) [
    | inl (ks, e) ↦ rw (e, fetch_single) refl
    | inr (d, e) ↦ rw (e, fetch_single) refl
  ]

  offered_keysets-same :
      (answer : Result ClientError (List Keyset)) (s : Session env.World)
      → Always (λ state. state ≡ s.state) (offered_keysets env answer s)
  unfolding offered_keysets
  offered_keysets-same (ok (k ∷ ks)) s = refl
  offered_keysets-same (ok []) s = fetch_single-same s
  offered_keysets-same (err e) s = fetch_single-same s

  pub fetch_keysets-same :
      (s : Session env.World) → Always (λ state. state ≡ s.state) (fetch_keysets env s)
  unfolding fetch_keysets
  fetch_keysets-same s =
      let (answer, w) = env.get_keysets s.world in
      require_client-Outcome (λ _ s'. s'.state ≡ s.state) (λ _ s'. s'.state ≡ s.state) _ s refl
        (offered_keysets-same answer (record s { world = w }))

  -- `fetch_keysets` and then `cache_keysets`
  pub pin_fetched-SameMoney :
      (s : Session env.World)
      → Always (SameMoney s.state) ((fetch_keysets env >>= cache_keysets env) s)
  pin_fetched-SameMoney s =
      let P = λ (s' : Session env.World). SameMoney s.state s'.state in
      bind-Outcome (λ _ s1. s1.state ≡ s.state) (λ _ s'. P s') (λ _ s'. P s') (fetch_keysets env)
        (cache_keysets env) s
        (Outcome-imp (fetch_keysets env s) (λ ks s1 same. same) (λ e s1 same. rw same (refl, refl))
          (fetch_keysets-same s))
        (λ ks s1 same.
          Outcome-imp (cache_keysets env ks s1)
            (λ _ s2 (h : SameMoney s1.state s2.state). (h.0 ∙ rw same refl, h.1 ∙ rw same refl))
            (λ e s2 (h : SameMoney s1.state s2.state). (h.0 ∙ rw same refl, h.1 ∙ rw same refl))
            (cache_keysets-SameMoney ks s1))

  pub ack_outbox-SameMoney :
      (n : ℕ) (s : Session env.World) → Always (SameMoney s.state) (ack_outbox env n s)
  unfolding ack_outbox drop_token
  ack_outbox-SameMoney n s =
      let P = λ (s' : Session env.World). SameMoney s.state s'.state in
      elim (Bool-cases (n == 0 || ltb (length s.state.outbox) n)) [
        | inl absent ↦ rw absent (refl, refl)
        | inr there ↦ rw there (
            save_state-Outcome env (λ (_ : Bool) s'. P s') (λ _ s'. P s') _ _ _
              (λ e s' kept. rw kept (refl, refl)) (λ s' kept. rw kept (refl, refl)))
      ]

  -- Whether or not the flash could be cleared, nothing is left in memory.
  pub wipe-default : (s : Session env.World) → Always (λ state. state ≡ default_state) (wipe env s)
  unfolding wipe
  wipe-default s = elim (Result-cases (env.wipe s.world).0) [
    | inl (ks, e) ↦ rw (e, wipe) refl
    | inr (d, e) ↦ rw (e, wipe) refl
  ]

module _ (c : Crates) (env : Environment) where
  generate_device_key-SameMoney :
      (s : Session env.World) → Always (SameMoney s.state) (generate_device_key c env s)
  unfolding generate_device_key
  generate_device_key-SameMoney s =
      let (sk, w) = env.key_bytes s.world in
      let next : FlashState = record s.state { device_key = some (hex_encode sk) } in
      let P = λ (s' : Session env.World). SameMoney s.state s'.state in
      saved-Outcome env (λ _ s'. P s') (λ _ s'. P s') next (record s { state = next; world = w })
        (λ e s' kept. rw kept (refl, refl)) (λ s' kept. rw kept (refl, refl))

  pub device_public_key-SameMoney :
      (s : Session env.World) → Always (SameMoney s.state) (device_public_key c env s)
  unfolding device_public_key
  device_public_key-SameMoney s =
      let P = λ (s' : Session env.World). SameMoney s.state s'.state in
      when-Outcome (λ _ s'. P s') (λ (_ : String) s'. P s') (λ _ s'. P s')
        (is_none s.state.device_key) (generate_device_key c env) _ s
        (λ _. generate_device_key-SameMoney s) (λ _. (refl, refl))
        (λ _ s1 h1. elim (Result-cases (public_key_of c (unwrap_or s1.state.device_key ""))) [
          | inl (pk, e) ↦ rw e h1
          | inr (d, e) ↦ rw e h1
        ])

  module _ (t : TokenCodec) where
    settle_each-same :
        (claim_key : Option String) (proofs : List Proof) (before : FlashState)
        (s : Session env.World)
        → s.state ≡ before
        → Always (λ state. state ≡ before) (settle_each c t env claim_key proofs s)
    unfolding settle_each
    settle_each-same claim_key [] before s same = same
    settle_each-same claim_key (p ∷ ps) before s same =
        let P = λ (s' : Session env.World). s'.state ≡ before in
        lift-Outcome (λ _ s'. P s') (λ _ s'. P s') (with_claim c claim_key p) _ s (λ e failed. same)
          (λ claimed _.
            let (answer, w) = env.settle_as claimed s.merchant s.world in
            let s1 : Session env.World = record s { world = w } in
            lift-Outcome (λ _ s'. P s') (λ _ s'. P s') (map_err client answer) _ s1
              (λ e failed. same)
              (λ verdict _.
                bind-Outcome (λ _ s'. P s') (λ _ s'. P s') (λ _ s'. P s')
                  (settle_each c t env claim_key ps) _ s1
                  (settle_each-same claim_key ps before s1 same) (λ rest s2 kept. kept)))

    -- Settling a token of somebody else does not touch the vault.
    pub settle_token-same :
        (token : String) (claim_key : Option String) (s : Session env.World)
        → Always (λ state. state ≡ s.state) (settle_token c t env token claim_key s)
    unfolding settle_token
    settle_token-same token claim_key s =
        let P = λ (s' : Session env.World). s'.state ≡ s.state in
        require_client-Outcome (λ _ s'. P s') (λ _ s'. P s') _ s refl
          (lift-Outcome (λ _ s'. P s') (λ _ s'. P s') (decode_token c t token) _ s
            (λ e failed. refl) (λ proofs _. settle_each-same claim_key proofs s.state s refl))

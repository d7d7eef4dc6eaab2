-- ===== src/Vault/Topup/Whole.antt =====
-- A topup as a whole: what the vault holds grows by the amount.
use fupi.Common.{
  ℕ, ◌+◌, ◌≤◌, ◌==◌, ==_iff, ◌≡◌, refl, sym, ◌∙◌, inl, inr, String, Bool, false, Option, none, some,
  List, [], ◌∷◌, arith, All, Bool-cases, unwrap_or, is_none,
}
use fupi.Common.Result.{Result, ok, err, ok_or-some}
use fupi.Common.Sums.{sum}
use fupi.Types.{Keyset, FlashState}
use fupi.Denom.{split_amount}
use fupi.Denom.Ids.{IsDenomination}
use fupi.Crypto.{Crates, hex_encode, public_key_of}
use fupi.Vault.Errors.{ClientError, client, crypto, no_client_configured}
use fupi.Vault.Environment.{Environment}
use fupi.Vault.Session.{Session}
use fupi.Vault.Session.Steps.{
  Result-cases, Outcome, Outcome-imp, bind-Outcome, lift-Outcome, saved-Outcome, when-Outcome,
  require_client-Outcome,
}
use fupi.Vault.Keysets.{
  pin_keyset, pin_all, cache_keysets, fetch_single, offered_keysets, fetch_keysets, pinned_keysets,
  is_empty, check_keyset_set,
}
use fupi.Vault.Coins.{token_value, balance}
use fupi.Vault.State.{generate_device_key, device_public_key}
use fupi.Vault.Swap.{recover, denominations_of}
use fupi.Vault.Swap.Plan.{split_denominations}
use fupi.Vault.Swap.Balance.{IsBalanced, Conserves, holdings, holdings-slot, recover-Conserves}
use fupi.Vault.Topup.{topup_loop, topup_plan, load_plan, load_amount, topup_locked}
use fupi.Vault.Topup.Loaded.{
  Held, Kept, Held-Kept, Added, Reported, topup_loop-Held, finish_topup-Held,
}

pub pin_all_money :
    (ks : List Keyset) (state : FlashState)
    → ((pin_all ks state).proofs ≡ state.proofs)
      × ((pin_all ks state).pending_swap ≡ state.pending_swap)
unfolding pin_all pin_keyset
pin_all_money [] state = (refl, refl)
pin_all_money (k ∷ ks) state = pin_all_money ks (pin_keyset state k)

topup_plan_lem :
    (amount : ℕ) (offered : List Keyset) (plan : List ℕ)
    → topup_plan amount offered ≡ ok plan
    → (sum plan ≡ amount) × All IsDenomination plan
unfolding topup_plan
topup_plan_lem amount offered plan h =
    split_denominations offered amount plan
      (ok_or-some (split_amount amount (denominations_of offered)) _ plan h)

module _ (c : Crates) (env : Environment) (a : FlashState) where
  cache_keysets-Held :
      (ks : List Keyset) (k : ℕ) (s : Session env.World)
      → Held c env a k s
      → Outcome (λ (_ : Unit {0}) s'. Held c env a k s') (Kept c env a) (cache_keysets env ks s)
  unfolding cache_keysets balance token_value
  cache_keysets-Held ks k s h =
      let pinned : Session env.World = record s { state = pin_all ks s.state } in
      let (proofs, pending) = pin_all_money ks s.state in
      let held : Held c env a k pinned = (pending ∙ h.0, rw proofs h.1) in
      saved-Outcome env (λ (_ : Unit {0}) s'. Held c env a k s') (Kept c env a) (pin_all ks s.state)
        pinned (λ e s' same. rw same (Held-Kept c env a k pinned held e)) (λ s' same. rw same held)

  fetch_single-Held :
      (k : ℕ) (s : Session env.World)
      → Held c env a k s
      → Outcome (λ (_ : List Keyset) s'. Held c env a k s') (Kept c env a) (fetch_single env s)
  unfolding fetch_single
  fetch_single-Held k s h = elim (Result-cases (env.get_keyset s.world).0) [
    | inl (ks, e) ↦ rw (e, fetch_single) h
    | inr (d, e) ↦ rw (e, fetch_single) (Held-Kept c env a k s h (client d))
  ]

  offered_keysets-Held :
      (answer : Result ClientError (List Keyset)) (k : ℕ) (s : Session env.World)
      → Held c env a k s
      → Outcome
          (λ (_ : List Keyset) s'. Held c env a k s')
          (Kept c env a)
          (offered_keysets env answer s)
  unfolding offered_keysets
  offered_keysets-Held (ok (x ∷ xs)) k s h = h
  offered_keysets-Held (ok []) k s h = fetch_single-Held k s h
  offered_keysets-Held (err e) k s h = fetch_single-Held k s h

  fetch_keysets-Held :
      (k : ℕ) (s : Session env.World)
      → Held c env a k s
      → Outcome (λ (_ : List Keyset) s'. Held c env a k s') (Kept c env a) (fetch_keysets env s)
  unfolding fetch_keysets
  fetch_keysets-Held k s h =
      let (answer, w) = env.get_keysets s.world in
      require_client-Outcome (λ (_ : List Keyset) s'. Held c env a k s') (Kept c env a) _ s
        (Held-Kept c env a k s h no_client_configured)
        (offered_keysets-Held answer k (record s { world = w }) h)

  generate_device_key-Held :
      (k : ℕ) (s : Session env.World)
      → Held c env a k s
      → Outcome
          (λ (_ : Unit {0}) s'. Held c env a k s')
          (Kept c env a)
          (generate_device_key c env s)
  unfolding generate_device_key balance token_value
  generate_device_key-Held k s h =
      let (sk, w) = env.key_bytes s.world in
      let next : FlashState = record s.state { device_key = some (hex_encode sk) } in
      let made : Session env.World = record s { state = next; world = w } in
      saved-Outcome env (λ (_ : Unit {0}) s'. Held c env a k s') (Kept c env a) next made
        (λ e s' same. rw same (Held-Kept c env a k made h e)) (λ s' same. rw same h)

  device_public_key-Held :
      (k : ℕ) (s : Session env.World)
      → Held c env a k s
      → Outcome (λ (_ : String) s'. Held c env a k s') (Kept c env a) (device_public_key c env s)
  unfolding device_public_key
  device_public_key-Held k s h =
      when-Outcome (λ (_ : Unit {0}) s'. Held c env a k s') (λ (_ : String) s'. Held c env a k s')
        (Kept c env a) (is_none s.state.device_key) (generate_device_key c env) _ s
        (λ _. generate_device_key-Held k s h) (λ _. h)
        (λ _ s1 h1. elim (Result-cases (public_key_of c (unwrap_or s1.state.device_key ""))) [
          | inl (pk, e) ↦ rw e h1
          | inr (d, e) ↦ rw e (Held-Kept c env a k s1 h1 (crypto d))
        ])

  load_plan-Held :
      (offered : List Keyset) (lock : Option String) (plan : List ℕ) (s : Session env.World)
      → All IsDenomination plan
      → Held c env a 0 s
      → Outcome (Added c env a (sum plan)) (Kept c env a) (load_plan c env offered lock plan s)
  unfolding load_plan
  load_plan-Held offered lock plan s all h =
      let total = sum plan in
      let P = Added c env a total in
      bind-Outcome (λ (_ : String) s'. Held c env a 0 s') P (Kept c env a) (device_public_key c env)
        _ s (device_public_key-Held 0 s h)
        (λ device s1 h1.
          require_client-Outcome P (Kept c env a) _ s1
            (Held-Kept c env a 0 s1 h1 no_client_configured)
            (bind-Outcome (Reported c env a total) P (Kept c env a)
              (topup_loop c env offered device (unwrap_or s1.state.device_key "") lock plan 0 0) _
              s1
              (topup_loop-Held c env a offered device (unwrap_or s1.state.device_key "") lock plan 0
                0 total s1 all (omega arith) h1)
              (λ r s2 h2. finish_topup-Held c env a total r s2 h2)))

  load_amount-Held :
      (amount : ℕ) (lock : Option String) (s : Session env.World)
      → Held c env a 0 s
      → Outcome (Added c env a amount) (Kept c env a) (load_amount c env amount lock s)
  unfolding load_amount
  load_amount-Held amount lock s h =
      let P = Added c env a amount in
      let Q = Kept c env a in
      bind-Outcome (λ (_ : List Keyset) s'. Held c env a 0 s') P Q (fetch_keysets env) _ s
        (fetch_keysets-Held 0 s h)
        (λ offered s1 h1.
          lift-Outcome P Q (check_keyset_set (pinned_keysets s1.state) offered false) _ s1
            (λ e failed. Held-Kept c env a 0 s1 h1 e)
            (λ _ checked.
              when-Outcome (λ (_ : Unit {0}) s'. Held c env a 0 s') P Q
                (is_empty (pinned_keysets s1.state)) (cache_keysets env offered) _ s1
                (λ _. cache_keysets-Held offered 0 s1 h1) (λ _. h1)
                (λ _ s2 h2.
                  lift-Outcome P Q (topup_plan amount offered) _ s2
                    (λ e failed. Held-Kept c env a 0 s2 h2 e)
                    (λ plan planned.
                      let (total, all) = topup_plan_lem amount offered plan planned in
                      rw total at (load_plan-Held offered lock plan s2 all h2)))))

module _ (c : Crates) (env : Environment) where
  -- From a balanced state: a topup that returns reports the amount and has added exactly it to what the
  -- vault holds; a topup that fails has taken nothing from it, and its state is balanced too.
  pub topup_locked-holdings :
      (amount : ℕ) (lock : Option String) (s : Session env.World)
      → IsBalanced s.state.pending_swap
      → Outcome
          (λ (loaded : ℕ × ℕ) s'.
            IsBalanced s'.state.pending_swap
            × (loaded.0 ≡ amount)
            × (holdings s'.state ≡ holdings s.state + amount))
          (λ e s'. IsBalanced s'.state.pending_swap × (holdings s.state ≤ holdings s'.state))
          (topup_locked c env amount lock s)
  unfolding topup_locked
  topup_locked-holdings amount lock s b = elim (Bool-cases (amount == 0)) [
    | inl nothing ↦
        let none_asked : amount ≡ 0 = (==_iff amount 0).0 nothing in
        rw (nothing, topup_locked) (b, sym none_asked, omega (arith, none_asked))
    | inr some_asked ↦
        rw (some_asked, topup_locked)
          (bind-Outcome
            (λ (_ : Bool) s1. (s1.state.pending_swap ≡ none) × Conserves s.state s1.state)
            (λ (loaded : ℕ × ℕ) s'.
              IsBalanced s'.state.pending_swap
              × (loaded.0 ≡ amount)
              × (holdings s'.state ≡ holdings s.state + amount))
            (λ e s'. IsBalanced s'.state.pending_swap × (holdings s.state ≤ holdings s'.state))
            (recover c env) _ s
            (Outcome-imp (recover c env s) (λ _ s1 h. h)
              (λ e s1 (h : Conserves s.state s1.state). (h.0, omega (arith, h.1)))
              (recover-Conserves c env s b))
            (λ _ s1 (idle, kept).
              let before = holdings-slot s1.state none idle in
              Outcome-imp (load_amount c env amount lock s1)
                (λ loaded s2 (h : Added c env s1.state amount loaded s2).
                  let gone : s2.state.pending_swap ≡ none = h.0.0 ∙ idle in
                  (
                    rw (gone, IsBalanced) tt,
                    h.1,
                    omega (arith, h.0.1, kept.1, before, holdings-slot s2.state none gone),
                  ))
                (λ e s2 (h : Kept c env s1.state e s2).
                  let gone : s2.state.pending_swap ≡ none = h.0 ∙ idle in
                  (
                    rw (gone, IsBalanced) tt,
                    omega (arith, h.1, kept.1, before, holdings-slot s2.state none gone),
                  ))
                (load_amount-Held c env s1.state amount lock s1 (refl, omega arith))))
  ]

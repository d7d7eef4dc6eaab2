-- ===== src/CommandLine/Main/Pinning.antt =====
-- The subcommand `pin` and the keysets that were pinned before.
use fupi.Common.{◌≡◌, inl, inr, String, false, some, List}
use fupi.Common.Result.{ok}
use fupi.Types.{Keyset}
use fupi.Crypto.{Crates}
use fupi.Vault.Environment.{Environment, TokenCodec}
use fupi.Vault.Session.{Session}
use fupi.Vault.Session.Steps.{Result-cases, Outcome, saved-Outcome}
use fupi.Vault.Keysets.{
  find_keyset, pin_all, pinned_keysets, check_keyset_set, fetch_keysets, cache_keysets,
}
use fupi.Vault.Keysets.Remembered.{check_keyset_set-remembered}
use fupi.Vault.Money.{fetch_keysets-same}
use fupi.CommandLine.{Config}
use fupi.CommandLine.Output.{Report}
use fupi.CommandLine.Outcomes.{Ends, attempt-Ends}
use fupi.CommandLine.Subcommands.{run_pin}

module _ (c : Crates) (t : TokenCodec) (env : Environment) (cfg : Config) (s : Session env.World)
    (kid : String) (k : Keyset) where
  -- The keyset is found by its name.
  abbrev pub Remembers : Report → Session env.World → Type 0
  Remembers r s' = find_keyset kid s'.state.keysets ≡ some k

  cached :
      (offered : List Keyset) (s1 : Session env.World)
      → find_keyset kid (pin_all offered s1.state).keysets ≡ some k
      → Outcome
          (λ _ s'. find_keyset kid s'.state.keysets ≡ some k)
          (λ _ s'. find_keyset kid s'.state.keysets ≡ some k)
          (cache_keysets env offered s1)
  unfolding cache_keysets
  cached offered s1 h =
      let P = λ (s' : Session env.World). find_keyset kid s'.state.keysets ≡ some k in
      saved-Outcome env (λ _ s'. P s') (λ _ s'. P s') (pin_all offered s1.state)
        (record s1 { state = pin_all offered s1.state }) (λ e s' kept. rw kept h)
        (λ s' kept. rw kept h)

  -- Without `--force`, `pin` does not change or drop a keyset that is in the pinned list, whatever the
  -- ATM offers and whether or not the list can be saved.
  pub run_pin-Remembers :
      cfg.force ≡ false
      → find_keyset kid s.state.keysets ≡ some k
      → Ends Remembers (run_pin c t env cfg s)
  unfolding run_pin
  run_pin-Remembers unforced before =
      attempt-Ends Remembers _ _ (fetch_keysets env) _ _ s (fetch_keysets-same env s)
        (λ e s1 same. rw same before)
        (λ offered s1 same.
          elim (Result-cases (check_keyset_set (pinned_keysets s1.state) offered cfg.force)) [
            | inr (d, e) ↦ rw (e, unforced) (rw same before)
            | inl (tt', e) ↦
                let before1 : find_keyset kid s1.state.keysets ≡ some k = rw same before in
                let passed : check_keyset_set (pinned_keysets s1.state) offered false ≡ ok tt' =
                  rw unforced at e in
                rw e (
                  attempt-Ends Remembers _ _ (cache_keysets env offered) _ _ s1
                    (cached offered s1
                      (check_keyset_set-remembered s1.state offered kid k passed before1))
                    (λ e s2 h. h) (λ done s2 h. h))
          ])

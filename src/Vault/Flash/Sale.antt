-- ===== src/Vault/Flash/Sale.antt =====
-- A merchant's sale on a device that may fail or lose its power at any point of any file operation.
use fupi.Common.{ℕ, ◌≡◌, refl, ◌⊎◌, inl, inr, String, Bool, Option, [], Bool-cases}
use fupi.Types.{Receipt, FlashState}
use fupi.Crypto.{Crates}
use fupi.Storage.{Codec}
use fupi.Storage.Load.{IsLawful, Holds, Loads, load_primary}
use fupi.Storage.Remnants.{AllLeft}
use fupi.Storage.Durable.{Survives, Durable-Survives, kept}
use fupi.Vault.Errors.{VaultError}
use fupi.Vault.Environment.{Environment, TokenCodec}
use fupi.Vault.Session.{Session}
use fupi.Vault.Session.Steps.{Result-cases, Outcome}
use fupi.Vault.Keysets.{pinned_keysets}
use fupi.Vault.Tokens.{verify_offline_set}
use fupi.Vault.Coins.{token_value}
use fupi.Vault.Merchant.{has_duplicate, mismatch, new_receipt, accepted_state, accept_payment}
use fupi.Vault.Merchant.Accept.{IsSale, accepted_state-IsSale}
use fupi.Vault.Flash.{Power, device_of, on_flash}
use fupi.Vault.Flash.Steps.{Survivors, OnFlashOf, commit-OnFlash}

module _ (codec : Codec) (lawful : IsLawful codec) (has_parent : Bool) (env : Environment)
    (c : Crates) (t : TokenCodec) (token : String) (invoice : Option String) (expect : Option ℕ)
    (s : Session (env.World × Power)) where
  abbrev flash : Environment
  flash = on_flash codec has_parent env

  -- The state behind a sale with this receipt.
  abbrev pub SoldAs : Receipt → FlashState → Type 0
  SoldAs receipt st = IsSale c t flash token invoice expect s receipt (record s { state = st })

  -- Nothing was sold, or all of the token was.
  abbrev pub IsRecorded : FlashState → Type 0
  IsRecorded st = (st ≡ s.state) ⊎ ((receipt : Receipt) × SoldAs receipt st)

  abbrev Restarts : Session (env.World × Power) → FlashState → Type 0
  Restarts s' st = Loads codec (device_of s'.world.1) st

  -- Whatever a loss of power leaves of the files, a load from it finds the sale undone or whole.
  abbrev pub Undivided : Session (env.World × Power) → Type 0
  Undivided s' = Survives codec IsRecorded (device_of s'.world.1)

  abbrev pub Recorded : Receipt → Session (env.World × Power) → Type 0
  Recorded receipt s' = SoldAs receipt s'.state × Restarts s' s'.state × Undivided s'

  abbrev pub Unrecorded : VaultError → Session (env.World × Power) → Type 0
  Unrecorded e s' =
      (s'.state ≡ s.state) × ((st : FlashState) × Restarts s' st × IsRecorded st) × Undivided s'

  restarts :
      (s' : Session (env.World × Power)) (st : FlashState)
      → Holds codec (device_of s'.world.1).primary_file st
      → Restarts s' st
  restarts s' st h =
      let d = device_of s'.world.1 in load_primary codec d.primary_file d.tmp_file d.bak_file st h

  undivided :
      (s' : Session (env.World × Power))
      → Survivors codec lawful has_parent IsRecorded (device_of s'.world.1)
      → Undivided s'
  undivided s' f = Durable-Survives codec IsRecorded (device_of s'.world.1) (kept f)

  -- From a state that the flash holds, and to which a loss of power leads back, whatever file operation
  -- fails or loses power, at any byte: a sale that returns its receipt is on the flash, with all proofs
  -- of the token and the receipt; where the call stops at an error, the vault in memory is as it was, and
  -- a restart finds it so too, or with the whole sale. In both cases whatever a loss of power leaves then
  -- is the state before or the one with the whole sale.
  pub accept_payment-Recorded :
      Holds codec (device_of s.world.1).primary_file s.state
      → AllLeft (λ f. Holds codec f s.state) (device_of s.world.1).primary_left
      → Outcome Recorded Unrecorded (accept_payment c t flash token invoice expect s)
  unfolding accept_payment
  accept_payment-Recorded held left_over =
      let survivors : Survivors codec lawful has_parent IsRecorded (device_of s.world.1) = record {
        of_primary = λ f m. (s.state, left_over f m, inl refl);
        of_tmp = λ f m. tt;
        of_bak = λ f m. tt;
      } in
      let disk : OnFlashOf codec lawful has_parent IsRecorded env s =
        ((s.state, held, inl refl), survivors) in
      let unsold : ((st : FlashState) × Restarts s st × IsRecorded st) × Undivided s =
        ((s.state, restarts s s.state held, inl refl), undivided s survivors) in
      elim (Result-cases (verify_offline_set c t token (pinned_keysets s.state))) [
        | inr (_, e1) ↦ rw e1 (refl, unsold.0, unsold.1)
        | inl (proofs, e1) ↦ elim (Bool-cases (mismatch expect (token_value proofs))) [
          | inl e2 ↦ rw (e1, e2) (refl, unsold.0, unsold.1)
          | inr e2 ↦ elim (Bool-cases (has_duplicate s.state [] proofs)) [
            | inl e3 ↦ rw (e1, e2, e3) (refl, unsold.0, unsold.1)
            | inr e3 ↦
                let ts = (env.now s.world.0).0 in
                let receipt = new_receipt s.state proofs invoice ts in
                let next = accepted_state s.state proofs receipt in
                let sale : SoldAs receipt next =
                  accepted_state-IsSale c t flash token invoice expect s proofs ts
                    (record s { state = next }) e1 e2 e3 refl in
                rw (e1, e2, e3)
                  (commit-OnFlash codec lawful has_parent IsRecorded env Recorded Unrecorded next _
                    (record s { world = ((env.now s.world.0).1, s.world.1) }) (inr (receipt, sale))
                    disk
                    (λ e s' same ((st, written, recorded), f).
                      (same, (st, restarts s' st written, recorded), undivided s' f))
                    (λ s' after (written, f).
                      (rw after sale, rw after (restarts s' next written), undivided s' f)))
          ]
        ]
      ]

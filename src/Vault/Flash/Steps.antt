-- ===== src/Vault/Flash/Steps.antt =====
-- What the flash holds behind the steps of a method.
use fupi.Common.{◌≡◌, refl, ◌⊎◌, inl, inr, Bool}
use fupi.Common.Result.{ok}
use fupi.Types.{FlashState}
use fupi.Storage.{
  Codec, Device, save as save_file, Outcome as IoOutcome, returned, failed, power_lost,
}
use fupi.Storage.Load.{IsLawful, Holds}
use fupi.Storage.Rules.{Ends}
use fupi.Storage.Present.{save-Holds, Ends-both}
use fupi.Storage.Remnants.{Fits, save-Fits}
use fupi.Storage.Durable.{Held, Any, Allows-kept}
use fupi.Vault.Errors.{VaultError}
use fupi.Vault.Environment.{Environment}
use fupi.Vault.Session.{Session, Method, ◌>>=◌, commit}
use fupi.Vault.Session.Steps.{Outcome, Outcome-imp, bind-Outcome, Result-cases}
use fupi.Vault.Flash.{Power, on, off, device_of, heard, save_powered, on_flash}

module _ (codec : Codec) (lawful : IsLawful codec) (has_parent : Bool)
    (P : FlashState → Type 0) where
  -- All that a loss of power may leave of the primary file are states of which `P` holds.
  abbrev pub Survivors : Device → Type 0
  Survivors d = Fits (Held codec P) (Any codec P) (Any codec P) d

  -- The primary file holds a state of which `P` holds, and a loss of power leaves one.
  abbrev pub OnFlash : Power → Type 0
  OnFlash p =
      ((st : FlashState) × Holds codec (device_of p).primary_file st × P st)
      × Survivors (device_of p)

  abbrev Replaced : FlashState → Device → Type 0
  Replaced new d = Holds codec d.primary_file new × Survivors d

  abbrev Either : FlashState → FlashState → Device → Type 0
  Either old new d = (Holds codec d.primary_file old ⊎ Holds codec d.primary_file new) × Survivors d

  saved_Ends :
      (old new : FlashState) (d : Device)
      → P new
      → Holds codec d.primary_file old
      → Survivors d
      → Ends (save_file codec has_parent new d) (λ _ d'. Replaced new d') (Either old new)
  saved_Ends old new d q h f =
      Ends-both (λ _ d'. Holds codec d'.primary_file new) (λ _ d'. Survivors d')
        (λ d'. Holds codec d'.primary_file old ⊎ Holds codec d'.primary_file new) Survivors
        (save_file codec has_parent new d) (save-Holds codec lawful old new has_parent d h)
        (save-Fits (Held codec P) (Any codec P) (Any codec P) codec new
          (Allows-kept codec lawful P new q) has_parent d f)

  heard-OnFlash :
      (old new : FlashState) (r : IoOutcome (Unit {0}) × Device)
      → P old
      → P new
      → Ends r (λ _ d'. Replaced new d') (Either old new)
      → OnFlash (heard r).1
  heard-OnFlash old new (returned a, d) p q (h, f) = ((new, h, q), f)
  heard-OnFlash old new (failed e, d) p q (inl h, f) = ((old, h, p), f)
  heard-OnFlash old new (failed e, d) p q (inr h, f) = ((new, h, q), f)
  heard-OnFlash old new (power_lost, d) p q (inl h, f) = ((old, h, p), f)
  heard-OnFlash old new (power_lost, d) p q (inr h, f) = ((new, h, q), f)

  save_powered-OnFlash :
      (new : FlashState) (w : Power)
      → P new
      → OnFlash w
      → OnFlash (save_powered codec has_parent new w).1
  save_powered-OnFlash new (on d) q ((old, h, p), f) =
      heard-OnFlash old new (save_file codec has_parent new d) p q (saved_Ends old new d q h f)
  save_powered-OnFlash new (off d) q h = h

  heard_ok :
      (old new : FlashState) (r : IoOutcome (Unit {0}) × Device) (a : Unit {0})
      → (heard r).0 ≡ ok a
      → Ends r (λ _ d'. Replaced new d') (Either old new)
      → Replaced new (device_of (heard r).1)
  heard_ok old new (returned x, d) a e h = h
  heard_ok old new (failed x, d) a e h = cc
  heard_ok old new (power_lost, d) a e h = cc

  -- A save that returns has written the state.
  save_powered_ok :
      (new : FlashState) (w : Power) (a : Unit {0})
      → P new
      → OnFlash w
      → (save_powered codec has_parent new w).0 ≡ ok a
      → Replaced new (device_of (save_powered codec has_parent new w).1)
  save_powered_ok new (on d) a q ((old, h, p), f) e =
      heard_ok old new (save_file codec has_parent new d) a e (saved_Ends old new d q h f)
  save_powered_ok new (off d) a q h e = cc

  module _ (env : Environment) where
    -- The primary file holds this state, and a loss of power leaves one of which `P` holds.
    abbrev pub Written : FlashState → Session (env.World × Power) → Type 0
    Written st s = Replaced st (device_of s.world.1)

    pub Written-OnFlash :
        (st : FlashState) (s : Session (env.World × Power))
        → P st
        → Written st s
        → OnFlash s.world.1
    Written-OnFlash st s p (h, f) = ((st, h, p), f)

    abbrev pub OnFlashOf : Session (env.World × Power) → Type 0
    OnFlashOf s = OnFlash s.world.1

    -- A commit of a state of which `P` holds: what the flash holds, and what the vault has in memory.
    pub committed-OnFlash :
        (next : FlashState) (s : Session (env.World × Power))
        → P next
        → OnFlashOf s
        → Outcome
            (λ (_ : Unit {0}) s'. (s'.state ≡ next) × Written next s')
            (λ e s'. (s'.state ≡ s.state) × OnFlashOf s')
            (commit (on_flash codec has_parent env) next s)
    committed-OnFlash next s q h =
        let kept = save_powered-OnFlash next s.world.1 q h in
        elim (Result-cases (save_powered codec has_parent next s.world.1).0) [
          | inl (a, e) ↦ rw e (refl, save_powered_ok next s.world.1 a q h e)
          | inr (d, e) ↦ rw e (refl, kept)
        ]

    -- A commit, and what follows it.
    pub commit-OnFlash :
        {A : Type 0} (R : A → Session (env.World × Power) → Type 0)
        (Q : VaultError → Session (env.World × Power) → Type 0) (next : FlashState)
        (f : Unit {0} → Method (env.World × Power) A) (s : Session (env.World × Power))
        → P next
        → OnFlashOf s
        → ((e : VaultError) (s' : Session (env.World × Power))
            → s'.state ≡ s.state
            → OnFlashOf s'
            → Q e s')
        → ((s' : Session (env.World × Power))
            → s'.state ≡ next
            → Written next s'
            → Outcome R Q (f tt s'))
        → Outcome R Q ((commit (on_flash codec has_parent env) next >>= f) s)
    commit-OnFlash R Q next f s q h stopped saved =
        bind-Outcome (λ (_ : Unit {0}) s'. (s'.state ≡ next) × Written next s') R Q
          (commit (on_flash codec has_parent env) next) f s
          (Outcome-imp (commit (on_flash codec has_parent env) next s) (λ _ s' k. k)
            (λ e s' (k : (s'.state ≡ s.state) × OnFlashOf s'). stopped e s' k.0 k.1)
            (committed-OnFlash next s q h))
          (λ _ s' k. saved s' k.0 k.1)

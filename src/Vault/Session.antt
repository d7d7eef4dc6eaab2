-- ===== src/Vault/Session.antt =====
-- A vault in its world, and methods as actions that change it and may fail. What was written before
-- an error stays written, so the session comes back beside the error too.
pub mod Steps
use fupi.Common.{String, Bool, Option}
use fupi.Common.Result.{Result, ok, err, map_err}
use fupi.Storage.{StorageError}
use fupi.Types.{FlashState}
use fupi.Vault.Errors.{VaultError, storage, no_client_configured}
use fupi.Vault.Environment.{Environment}
use mathlib.Core.Bool.{true, false}

-- `Vault`; whether it has a client is all that matters of the client here.
pub record Session (W : Type 0) : Type 0 where
  pub state : FlashState
  pub has_client : Bool
  pub merchant : Option String
  pub world : W

abbrev pub Method : Type 0 → Type 0 → Type 0
Method W A = Session W → Result VaultError A × Session W

module _ {W : Type 0} where
  abbrev pub pure : {A : Type 0} → A → Method W A
  pure a s = (ok a, s)

  abbrev pub throw : {A : Type 0} → VaultError → Method W A
  throw e s = (err e, s)

  abbrev pub lift : {A : Type 0} → Result VaultError A → Method W A
  lift r s = (r, s)

  -- Goes on if the test holds.
  abbrev pub require : Bool → VaultError → Method W (Unit {0})
  require true e s = (ok tt, s)
  require false e s = (err e, s)

  abbrev continue :
      {A B : Type 0}
      → Result VaultError A
      → (A → Method W B)
      → Session W
      → Result VaultError B × Session W
  continue (ok a) f s = f a s
  continue (err e) f s = (err e, s)

  infixl 5 ◌>>=◌ ◌>>◌
  abbrev pub ◌>>=◌ : {A B : Type 0} → Method W A → (A → Method W B) → Method W B
  ◌>>=◌ m f s = let (r, s') = m s in continue r f s'

  abbrev pub ◌>>◌ : {A B : Type 0} → Method W A → Method W B → Method W B
  m >> k = m >>= λ _. k

  -- The state in memory.
  abbrev pub get_state : Method W FlashState
  get_state s = (ok s.state, s)

  abbrev pub set_state : FlashState → Method W (Unit {0})
  set_state state s = (ok tt, record s { state = state })

  -- A call into the world that cannot fail.
  abbrev pub call : {A : Type 0} → (W → A × W) → Method W A
  call f s = let (a, w) = f s.world in (ok a, record s { world = w })

  -- A call whose error is a value: the caller decides.
  abbrev pub try_call : {E A : Type 0} → (W → Result E A × W) → Method W (Result E A)
  try_call = call

  -- `?` on a call
  abbrev pub call_or : {E A : Type 0} → (E → VaultError) → (W → Result E A × W) → Method W A
  call_or wrap f = call f >>= λ r. lift (map_err wrap r)

  -- `self.client.as_ref().ok_or(NoClientConfigured)?`
  abbrev pub require_client : Method W (Unit {0})
  require_client s = require s.has_client no_client_configured s

module _ (env : Environment) where
  -- `self.storage.save(&state)?`
  abbrev pub save_state : FlashState → Method env.World (Unit {0})
  save_state state = call_or storage (env.save state)

  -- `self.storage.save(&next)?; self.state = next;`
  abbrev pub commit : FlashState → Method env.World (Unit {0})
  commit next = do save_state next; set_state next

-- ===== src/Vault/Session/Steps.antt =====
-- What a method has done when it is back: a case for what it returns and a case for its errors.
use fupi.Common.{if◌then◌else◌, Bool, true, false, ◌≡◌, refl, ◌⊎◌, inl, inr}
use fupi.Common.Result.{Result, ok, err}
use fupi.Types.{FlashState}
use fupi.Vault.Errors.{VaultError, no_client_configured}
use fupi.Vault.Environment.{Environment}
use fupi.Vault.Session.{
  Session, Method, continue, require, require_client, lift, pure, ◌>>=◌, save_state, commit,
}

pub Result-cases {ℓ κ} :
    {E : Type ℓ} {A : Type κ} (r : Result E A) → ((a : A) × (r ≡ ok a)) ⊎ ((e : E) × (r ≡ err e))
Result-cases (ok a) = inl (a, refl)
Result-cases (err e) = inr (e, refl)

-- What holds of a method's answer and of the session behind it.
abbrev pub Outcome :
    {W A : Type 0}
    → (A → Session W → Type 0)
    → (VaultError → Session W → Type 0)
    → Result VaultError A × Session W
    → Type 0
Outcome P Q (ok a, s) = P a s
Outcome P Q (err e, s) = Q e s

module _ {W A B : Type 0} (R : A → Session W → Type 0) (P : B → Session W → Type 0)
    (Q : VaultError → Session W → Type 0) where
  continue_outcome :
      (r : Result VaultError A) (s1 : Session W) (f : A → Method W B)
      → Outcome R Q (r, s1)
      → ((a : A) (s' : Session W) → R a s' → Outcome P Q (f a s'))
      → Outcome P Q (continue r f s1)
  continue_outcome (ok a) s1 f h k = k a s1 h
  continue_outcome (err e) s1 f h k = h

  -- A step that returns hands on what holds then; one that fails ends the method.
  pub bind-Outcome :
      (m : Method W A) (f : A → Method W B) (s : Session W)
      → Outcome R Q (m s)
      → ((a : A) (s' : Session W) → R a s' → Outcome P Q (f a s'))
      → Outcome P Q ((m >>= f) s)
  bind-Outcome m f s h k = continue_outcome (m s).0 (m s).1 f h k

module _ {W A : Type 0} {P P' : A → Session W → Type 0}
    {Q Q' : VaultError → Session W → Type 0} where
  pub Outcome-imp :
      (r : Result VaultError A × Session W)
      → ((a : A) (s : Session W) → P a s → P' a s)
      → ((e : VaultError) (s : Session W) → Q e s → Q' e s)
      → Outcome P Q r
      → Outcome P' Q' r
  Outcome-imp (ok a, s) f g h = f a s h
  Outcome-imp (err e, s) f g h = g e s h

module _ {W A : Type 0} (P P' : A → Session W → Type 0)
    (Q Q' : VaultError → Session W → Type 0) where
  pub Outcome-both :
      (r : Result VaultError A × Session W)
      → Outcome P Q r
      → Outcome P' Q' r
      → Outcome (λ a s. P a s × P' a s) (λ e s. Q e s × Q' e s) r
  Outcome-both (ok a, s) h k = (h, k)
  Outcome-both (err e, s) h k = (h, k)

module _ (env : Environment) {A : Type 0} where
  -- A commit that returns has changed the state; one that fails has changed the storage at most.
  pub commit-Outcome :
      (P : A → Session env.World → Type 0) (Q : VaultError → Session env.World → Type 0)
      (next : FlashState) (f : Unit {0} → Method env.World A) (s : Session env.World)
      → ((e : VaultError) (s' : Session env.World) → s'.state ≡ s.state → Q e s')
      → ((s' : Session env.World) → s'.state ≡ next → Outcome P Q (f tt s'))
      → Outcome P Q ((commit env next >>= f) s)
  commit-Outcome P Q next f s failed saved = elim (Result-cases (env.save next s.world).0) [
    | inl (a, e) ↦ rw e (saved _ refl)
    | inr (d, e) ↦ rw e (failed _ _ refl)
  ]

  -- A save changes nothing in memory.
  pub save_state-Outcome :
      (P : A → Session env.World → Type 0) (Q : VaultError → Session env.World → Type 0)
      (next : FlashState) (f : Unit {0} → Method env.World A) (s : Session env.World)
      → ((e : VaultError) (s' : Session env.World) → s'.state ≡ s.state → Q e s')
      → ((s' : Session env.World) → s'.state ≡ s.state → Outcome P Q (f tt s'))
      → Outcome P Q ((save_state env next >>= f) s)
  save_state-Outcome P Q next f s failed saved = elim (Result-cases (env.save next s.world).0) [
    | inl (a, e) ↦ rw e (saved _ refl)
    | inr (d, e) ↦ rw e (failed _ _ refl)
  ]

module _ (env : Environment) where
  pub saved-Outcome :
      (P : Unit {0} → Session env.World → Type 0) (Q : VaultError → Session env.World → Type 0)
      (next : FlashState) (s : Session env.World)
      → ((e : VaultError) (s' : Session env.World) → s'.state ≡ s.state → Q e s')
      → ((s' : Session env.World) → s'.state ≡ s.state → P tt s')
      → Outcome P Q (save_state env next s)
  saved-Outcome P Q next s failed saved = elim (Result-cases (env.save next s.world).0) [
    | inl (a, e) ↦ rw e (saved _ refl)
    | inr (d, e) ↦ rw e (failed _ _ refl)
  ]

module _ {W A : Type 0} (P : A → Session W → Type 0) (Q : VaultError → Session W → Type 0)
    (f : Unit {0} → Method W A) (s : Session W) where
  client_slot :
      (has_client : Bool)
      → Q no_client_configured s
      → Outcome P Q (f tt s)
      → Outcome P Q ((require has_client no_client_configured >>= f) s)
  client_slot true missing h = h
  client_slot false missing h = missing

  pub require_client-Outcome :
      Q no_client_configured s → Outcome P Q (f tt s) → Outcome P Q ((require_client >>= f) s)
  require_client-Outcome missing h = client_slot s.has_client missing h

module _ {W A B : Type 0} (P : B → Session W → Type 0) (Q : VaultError → Session W → Type 0) where
  -- `?` on a result
  pub lift-Outcome :
      (r : Result VaultError A) (f : A → Method W B) (s : Session W)
      → ((e : VaultError) → r ≡ err e → Q e s)
      → ((a : A) → r ≡ ok a → Outcome P Q (f a s))
      → Outcome P Q ((lift r >>= f) s)
  lift-Outcome (ok a) f s failed went = went a refl
  lift-Outcome (err e) f s failed went = failed e refl

module _ {W A : Type 0} (R : Unit {0} → Session W → Type 0) (P : A → Session W → Type 0)
    (Q : VaultError → Session W → Type 0) where
  -- A step that is taken only on a condition.
  pub when-Outcome :
      (b : Bool) (m : Method W (Unit {0})) (f : Unit {0} → Method W A) (s : Session W)
      → (b ≡ true → Outcome R Q (m s))
      → (b ≡ false → R tt s)
      → ((a : Unit {0}) (s' : Session W) → R a s' → Outcome P Q (f a s'))
      → Outcome P Q (((if b then m else pure tt) >>= f) s)
  when-Outcome true m f s taken left k = bind-Outcome R P Q m f s (taken refl) k
  when-Outcome false m f s taken left k = k tt s (left refl)

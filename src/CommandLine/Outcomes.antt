-- ===== src/CommandLine/Outcomes.antt =====
-- What holds of the report of an action of the command line and of the vault behind it.
use fupi.Common.{◌≡◌, refl, Bool, true, false, Option, none, some}
use fupi.Common.Result.{Result, ok, err}
use fupi.Vault.Errors.{VaultError}
use fupi.Vault.Session.{Session, Method}
use fupi.Vault.Session.Steps.{Outcome}
use fupi.CommandLine.Output.{Act, proceed, attempt, ask, given, provided}

abbrev pub Ends : {W R : Type 0} → (R → Session W → Type 0) → R × Session W → Type 0
Ends P (r, s) = P r s

module _ {W R : Type 0} (T : R → Session W → Type 0) where
  module _ {A : Type 0} where
    proceed-Ends :
        (P : A → Session W → Type 0) (Q : VaultError → Session W → Type 0) (f : VaultError → R)
        (k : A → Act W R) (r : Result VaultError A) (s : Session W)
        → Outcome P Q (r, s)
        → ((e : VaultError) (s' : Session W) → Q e s' → T (f e) s')
        → ((a : A) (s' : Session W) → P a s' → Ends T (k a s'))
        → Ends T (proceed f k r s)
    proceed-Ends P Q f k (ok a) s h failed went = went a s h
    proceed-Ends P Q f k (err e) s h failed went = failed e s h

    pub attempt-Ends :
        (P : A → Session W → Type 0) (Q : VaultError → Session W → Type 0) (m : Method W A)
        (f : VaultError → R) (k : A → Act W R) (s : Session W)
        → Outcome P Q (m s)
        → ((e : VaultError) (s' : Session W) → Q e s' → T (f e) s')
        → ((a : A) (s' : Session W) → P a s' → Ends T (k a s'))
        → Ends T (attempt m f k s)
    attempt-Ends P Q m f k s h failed went = proceed-Ends P Q f k (m s).0 (m s).1 h failed went

    pub given-Ends :
        (o : Option A) (r : R) (k : A → Act W R) (s : Session W)
        → T r s
        → ((a : A) → o ≡ some a → Ends T (k a s))
        → Ends T (given o r k s)
    given-Ends none r k s missing went = missing
    given-Ends (some a) r k s missing went = went a refl

    pub given-cases :
        (o : Option A) (r : R) (k : A → Act W R) (s : Session W)
        → (o ≡ none → T r s)
        → ((a : A) → o ≡ some a → Ends T (k a s))
        → Ends T (given o r k s)
    given-cases none r k s missing went = missing refl
    given-cases (some a) r k s missing went = went a refl

    -- The same as `attempt-Ends`, with what the method has answered.
    pub attempt-cases :
        (m : Method W A) (f : VaultError → R) (k : A → Act W R) (s : Session W)
        → ((e : VaultError) (s' : Session W) → m s ≡ (err e, s') → T (f e) s')
        → ((a : A) (s' : Session W) → m s ≡ (ok a, s') → Ends T (k a s'))
        → Ends T (attempt m f k s)
    attempt-cases m f k s failed went =
        proceed-Ends (λ a s'. m s ≡ (ok a, s')) (λ e s'. m s ≡ (err e, s')) f k (m s).0 (m s).1
          (answered (m s) refl) failed went
      where
        answered :
            (r : Result VaultError A × Session W)
            → m s ≡ r
            → Outcome (λ a s'. m s ≡ (ok a, s')) (λ e s'. m s ≡ (err e, s')) r
        answered (ok a, s') h = h
        answered (err e, s') h = h

    ask_result :
        {E : Type 0} (f : E → R) (k : A → Act W R) (r : Result E A) (s : Session W)
        → ((e : E) → T (f e) s)
        → ((a : A) → Ends T (k a s))
        → Ends T (proceed f k r s)
    ask_result f k (ok a) s failed went = went a
    ask_result f k (err e) s failed went = failed e

    pub ask-Ends :
        {E : Type 0} (call : W → Result E A × W) (f : E → R) (k : A → Act W R) (s : Session W)
        → ((e : E) (w : W) → T (f e) (record s { world = w }))
        → ((a : A) (w : W) → Ends T (k a (record s { world = w })))
        → Ends T (ask call f k s)
    ask-Ends call f k s failed went =
        let (r, w) = call s.world in
        ask_result f k r (record s { world = w }) (λ e. failed e w) (λ a. went a w)

    -- The same, with what the ATM has answered.
    pub ask-cases :
        {E : Type 0} (call : W → Result E A × W) (f : E → R) (k : A → Act W R) (s : Session W)
        → ((e : E) (w : W) → call s.world ≡ (err e, w) → T (f e) (record s { world = w }))
        → ((a : A) (w : W) → call s.world ≡ (ok a, w) → Ends T (k a (record s { world = w })))
        → Ends T (ask call f k s)
    ask-cases {E = E} call f k s failed went = answered (call s.world) refl
      where
        answered :
            (r : Result E A × W)
            → call s.world ≡ r
            → Ends T (proceed f k r.0 (record s { world = r.1 }))
        answered (ok a, w) h = went a w h
        answered (err e, w) h = failed e w h

  pub provided-Ends :
      (b : Bool) (r : R) (k : Act W R) (s : Session W)
      → T r s
      → Ends T (k s)
      → Ends T (provided b r k s)
  provided-Ends false r k s missing went = missing
  provided-Ends true r k s missing went = went

  pub provided-cases :
      (b : Bool) (r : R) (k : Act W R) (s : Session W)
      → (b ≡ false → T r s)
      → (b ≡ true → Ends T (k s))
      → Ends T (provided b r k s)
  provided-cases false r k s missing went = missing refl
  provided-cases true r k s missing went = went refl

-- ===== src/Vault/Settle/Totals.antt =====
-- What a settling run does to the balance, also where secrets are held twice.
use fupi.Common.{
  ℕ, ◌+◌, ◌≤◌, ◌≡◌, refl, ◌∙◌, inl, inr, String, Bool, true, false, Option, none, some, List, [],
  ◌∷◌, arith, All, any, str_eq, eq_iff, Bool-cases, if◌then◌else◌,
}
use fupi.Common.Result.{Result, ok, err}
use fupi.Types.{Proof, FlashState}
use fupi.Denom.{proof_value}
use fupi.Crypto.{Crates}
use fupi.Vault.Errors.{VaultError}
use fupi.Vault.Environment.{Environment}
use fupi.Vault.Session.{Session}
use fupi.Vault.Session.Steps.{
  Outcome, Outcome-imp, bind-Outcome, lift-Outcome, commit-Outcome, require_client-Outcome,
}
use fupi.Vault.Coins.{token_value, balance}
use fupi.Vault.Receive.{with_claim}
use fupi.Vault.Settle.{
  without_secret, settled_state, settle_verdict, settle_answered, settle_loop, report_settled,
  settle_all,
}

-- A held proof has the secret of one of these.
abbrev Named : List Proof → Proof → Type 0
Named rest q = any (λ (p : Proof). str_eq q.secret p.secret) rest ≡ true

without_secret-Named :
    (p : Proof) (rest held : List Proof)
    → All (Named (p ∷ rest)) held
    → All (Named rest) (without_secret p.secret held)
unfolding without_secret
without_secret-Named p rest [] all = tt
without_secret-Named p rest (q ∷ held) all = elim (Bool-cases (str_eq q.secret p.secret)) [
  | inl e ↦ rw (e, without_secret) (without_secret-Named p rest held all.1)
  | inr e ↦ rw (e, without_secret) (rw e at all.0, without_secret-Named p rest held all.1)
]

without_secret-le :
    (sec : String) (held : List Proof) → token_value (without_secret sec held) ≤ token_value held
unfolding without_secret token_value
without_secret-le sec [] = omega arith
without_secret-le sec (q ∷ held) = elim (Bool-cases (str_eq q.secret sec)) [
  | inl e ↦ rw (e, without_secret) (omega (arith, without_secret-le sec held))
  | inr e ↦ rw (e, without_secret) (omega (arith, without_secret-le sec held))
]

Named-weaken :
    (p : Proof) (rest held : List Proof) → All (Named rest) held → All (Named (p ∷ rest)) held
Named-weaken p rest [] all = tt
Named-weaken p rest (q ∷ held) all = elim (Bool-cases (str_eq q.secret p.secret)) [
  | inl e ↦ (rw e refl, Named-weaken p rest held all.1)
  | inr e ↦ (rw e all.0, Named-weaken p rest held all.1)
]

Named-self : (held : List Proof) → All (Named held) held
Named-self [] = tt
Named-self (p ∷ held) =
    (rw ((eq_iff p.secret p.secret).1 refl) refl, Named-weaken p held held (Named-self held))

Named-none : (held : List Proof) → All (Named []) held → held ≡ []
Named-none [] all = refl
Named-none (q ∷ held) all = cc (all.0)

module _ (c : Crates) (env : Environment) (before : FlashState) where
  -- No more is held than before, and an unfinished swap is as it was.
  abbrev pub Lowered : Session env.World → Type 0
  Lowered s = (s.state.pending_swap ≡ before.pending_swap) × (balance s.state ≤ balance before)

  abbrev pub LoweredError : VaultError → Session env.World → Type 0
  LoweredError e s = Lowered s

  -- Behind a run without an error nothing is held, and the verdicts add up to the total.
  abbrev Counted : ℕ → ℕ × ℕ × Option VaultError → Session env.World → Type 0
  Counted total (ok_v, bad_v, none) s = Lowered s × (s.state.proofs ≡ []) × (ok_v + bad_v ≡ total)
  Counted total (ok_v, bad_v, some e) s = Lowered s

  Counted-eq :
      (total total' : ℕ) (r : ℕ × ℕ × Option VaultError) (s : Session env.World)
      → total ≡ total'
      → Counted total r s
      → Counted total' r s
  Counted-eq total total' (ok_v, bad_v, none) s e h = (h.0, h.1, h.2 ∙ e)
  Counted-eq total total' (ok_v, bad_v, some x) s e h = h

  settled_state-Lowered :
      (proof : Proof) (done : Bool) (msg : String) (s s1 : Session env.World)
      → Lowered s
      → s1.state ≡ settled_state s.state proof done msg
      → Lowered s1
  unfolding settled_state balance
  settled_state-Lowered proof done msg s s1 low after =
      rw after (low.0, omega (arith, low.1, without_secret-le proof.secret s.state.proofs))

  settle_answered-Counted :
      (proof : Proof) (proofs : List Proof) (ok_v bad_v : ℕ)
      (rest : ℕ
        → ℕ
        → Session env.World
        → Result VaultError (ℕ × ℕ × Option VaultError) × Session env.World)
      → ((x y : ℕ) (s1 : Session env.World)
          → Lowered s1
          → All (Named proofs) s1.state.proofs
          → Outcome (Counted (x + y + token_value proofs)) LoweredError (rest x y s1))
      → (verdict : Result VaultError (Bool × String)) (s : Session env.World) → Lowered s
      → All (Named (proof ∷ proofs)) s.state.proofs
      → Outcome
          (Counted (ok_v + bad_v + token_value (proof ∷ proofs)))
          LoweredError
          (settle_answered c env proof ok_v bad_v rest verdict s)
  unfolding settle_answered token_value
  settle_answered-Counted proof proofs ok_v bad_v rest ih (err e) s low named = low
  settle_answered-Counted proof proofs ok_v bad_v rest ih (ok (done, msg)) s low named =
      let total = ok_v + bad_v + token_value (proof ∷ proofs) in
      let P = Counted total in
      commit-Outcome env P LoweredError (settled_state s.state proof done msg) _ s
        (λ e s1 same. rw same low)
        (λ s1 after.
          let low1 = settled_state-Lowered proof done msg s s1 low after in
          let named1 : All (Named proofs) s1.state.proofs =
            rw (after, settled_state) (without_secret-Named proof proofs s.state.proofs named) in
          let lift_it = λ (x y : ℕ) (e : x + y + token_value proofs ≡ total).
            Outcome-imp (rest x y s1)
              (λ r s2 h. Counted-eq (x + y + token_value proofs) total r s2 e h)
              (λ e2 s2 (h : LoweredError e2 s2). h) (ih x y s1 low1 named1) in
          elim done
            as (λ b. Outcome P LoweredError (
              (if b
                  then rest (ok_v + proof_value proof) bad_v
                  else rest ok_v (bad_v + proof_value proof))
                s1)) [
                  | true ↦ lift_it (ok_v + proof_value proof) bad_v (omega arith)
                  | false ↦ lift_it ok_v (bad_v + proof_value proof) (omega arith)
                ])

  settle_loop-Counted :
      (claim_key : Option String) (proofs : List Proof) (ok_v bad_v : ℕ) (s : Session env.World)
      → Lowered s
      → All (Named proofs) s.state.proofs
      → Outcome
          (Counted (ok_v + bad_v + token_value proofs))
          LoweredError
          (settle_loop c env claim_key proofs ok_v bad_v s)
  unfolding settle_loop token_value
  settle_loop-Counted claim_key [] ok_v bad_v s low named =
      (low, Named-none s.state.proofs named, omega arith)
  settle_loop-Counted claim_key (proof ∷ proofs) ok_v bad_v s low named =
      lift-Outcome (Counted (ok_v + bad_v + token_value (proof ∷ proofs))) LoweredError
        (with_claim c claim_key proof) _ s (λ e failed. low)
        (λ p claimed.
          let (answer, w) = env.settle_as p s.merchant s.world in
          settle_answered-Counted proof proofs ok_v bad_v (settle_loop c env claim_key proofs)
            (λ x y s1 low1 named1. settle_loop-Counted claim_key proofs x y s1 low1 named1)
            (settle_verdict answer) (record s { world = w }) low named)

  -- What a run that returns has settled, rejected, and still holds.
  abbrev pub SettledAll : ℕ × ℕ × ℕ → Session env.World → Type 0
  SettledAll (settled, rejected, held) s =
      (s.state.pending_swap ≡ before.pending_swap)
      × (settled + rejected ≡ balance before)
      × (held ≡ 0)
      × (balance s.state ≡ 0)

  report_settled-SettledAll :
      (ok_v bad_v : ℕ) (error : Option VaultError) (s : Session env.World)
      → Counted (balance before) (ok_v, bad_v, error) s
      → Outcome SettledAll LoweredError (report_settled c env ok_v bad_v error s)
  unfolding report_settled balance token_value
  report_settled-SettledAll ok_v bad_v none s (low, gone, adds) =
      (low.0, adds, rw gone refl, rw gone refl)
  report_settled-SettledAll ok_v bad_v (some e) s low = low

module _ (c : Crates) (env : Environment) where
  -- A run of `settle_all` that returns has had a verdict on the whole balance, and nothing is left; one
  -- that fails has added nothing to the balance. An unfinished swap stays as it was.
  pub settle_all-SettledAll :
      (claim_key : Option String) (s : Session env.World)
      → Outcome
          (SettledAll c env s.state)
          (LoweredError c env s.state)
          (settle_all c env claim_key s)
  unfolding settle_all balance
  settle_all-SettledAll claim_key s =
      let P = SettledAll c env s.state in
      let Q = LoweredError c env s.state in
      let total = token_value s.state.proofs in
      let start : 0 + 0 + total ≡ total = omega arith in
      let low : Lowered c env s.state s = (refl, omega arith) in
      require_client-Outcome P Q _ s low (
        bind-Outcome (Counted c env s.state (0 + 0 + token_value s.state.proofs)) P Q
          (settle_loop c env claim_key s.state.proofs 0 0) _ s
          (settle_loop-Counted c env s.state claim_key s.state.proofs 0 0 s low
            (Named-self s.state.proofs))
          (λ r s1 h.
            report_settled-SettledAll c env s.state r.0 r.1 r.2 s1
              (Counted-eq c env s.state (0 + 0 + total) total r s1 start h)))

-- ===== src/Vault/Topup/Loaded.antt =====
-- What a topup adds to the vault.
use fupi.Common.{
  ℕ, ◌+◌, ◌≤◌, ◌≡◌, inl, inr, String, Option, none, some, List, [], ◌∷◌, arith, All, Option-cases,
  Bool-cases, ltb,
}
use fupi.Common.Result.{Result, ok, err, map_err}
use fupi.Common.Sums.{sum, sum-map_append}
use fupi.Common.Text.{as_bytes}
use fupi.Types.{Keyset, Proof, FlashState}
use fupi.Denom.{keyset_id_for, proof_value}
use fupi.Denom.Ids.{IsDenomination}
use fupi.Crypto.{Crates, generate_locked_secret, device_sign_message, sign_bytes}
use fupi.Vault.Errors.{VaultError, ClientError, crypto}
use fupi.Vault.Environment.{Environment}
use fupi.Vault.Session.{Session, pure}
use fupi.Vault.Session.Steps.{
  Result-cases, Outcome, bind-Outcome, lift-Outcome, save_state-Outcome, saved-Outcome,
}
use fupi.Vault.Keysets.{find_keyset}
use fupi.Vault.Coins.{token_value, balance}
use fupi.Vault.Issue.{modulus_of, blinded_message, finish_proof}
use fupi.Vault.Issue.Signed.{find_keyset-name, issued_proof-value, finish_proof-IsSigned}
use fupi.Vault.Topup.{
  Round, go_on, stop, on_round, next_seq, with_proof, new_secret, burn_seq, store_answer,
  request_proof, topup_round, topup_loop, logged_topup, log_topup, finish_with, finish_topup,
}

module _ (c : Crates) (env : Environment) (a : FlashState) where
  -- Behind the state `a`, the vault holds `k` more, and an unfinished swap is as it was.
  abbrev pub Held : ℕ → Session env.World → Type 0
  Held k s = (s.state.pending_swap ≡ a.pending_swap) × (balance s.state ≡ balance a + k)

  abbrev pub Kept : VaultError → Session env.World → Type 0
  Kept e s = (s.state.pending_swap ≡ a.pending_swap) × (balance a ≤ balance s.state)

  pub Held-Kept : (k : ℕ) (s : Session env.World) → Held k s → (e : VaultError) → Kept e s
  Held-Kept k s h e = (h.0, omega (arith, h.1))

  new_secret-Held :
      (lock : Option String) (k : ℕ) (s : Session env.World)
      → Held k s
      → Outcome (λ (_ : String) s'. Held k s') Kept (new_secret c env lock s)
  unfolding new_secret
  new_secret-Held none k s h = h
  new_secret-Held (some pk) k s h =
      elim (Result-cases (generate_locked_secret (env.secret_bytes s.world).0 pk)) [
        | inl (secret, e) ↦ rw (e, new_secret) h
        | inr (f, e) ↦ rw (e, new_secret) (Held-Kept k s h (crypto f))
      ]

  burn_seq-Held :
      (k : ℕ) (s : Session env.World)
      → Held k s
      → Outcome (λ (_ : ℕ) s'. Held k s') Kept (burn_seq c env s)
  unfolding burn_seq next_seq balance token_value
  burn_seq-Held k s h =
      let burnt : Session env.World = record s { state = next_seq s.state } in
      save_state-Outcome env (λ (_ : ℕ) s'. Held k s') Kept (next_seq s.state) _ burnt
        (λ e s' same. rw same (Held-Kept k burnt h e)) (λ s' same. rw same h)

  -- A round that goes on has added the denomination.
  abbrev Rounded : ℕ → ℕ → Round → Session env.World → Type 0
  Rounded d k go_on s = Held (k + d) s
  Rounded d k (stop e) s = Held k s

  with_proof-Held :
      (state : FlashState) (p : Proof) (d : ℕ)
      → proof_value p ≡ d
      → balance (with_proof state p) ≡ balance state + d
  unfolding balance token_value with_proof
  with_proof-Held state p d worth =
      omega (arith, worth, sum-map_append proof_value state.proofs (p ∷ []))

  store_answer-Held :
      (ks : Keyset) (n : ℕ) (secret : String) (r d k : ℕ) (answer : Result ClientError String)
      (s : Session env.World)
      → ks.keyset_id ≡ keyset_id_for d
      → IsDenomination d
      → Held k s
      → Outcome (Rounded d k) Kept (store_answer c env ks n secret r answer s)
  unfolding store_answer with_proof
  store_answer-Held ks n secret r d k (err e) s named denomination h = h
  store_answer-Held ks n secret r d k (ok answer) s named denomination h =
      let message : String = "ATM blind signature failed local RSA check" in
      elim (Result-cases (finish_proof c ks n secret r answer message)) [
        | inr (e, failed) ↦ rw (failed, store_answer) h
        | inl (p, done) ↦
            let i = finish_proof-IsSigned c ks n secret r answer message p done in
            let worth : proof_value p ≡ d =
              rw i.made (issued_proof-value c ks d secret i.sig named denomination) in
            let stored : Session env.World = record s { state = with_proof s.state p } in
            let held : Held (k + d) stored =
              (h.0, omega (arith, h.1, with_proof-Held s.state p d worth)) in
            rw (done, store_answer)
              (save_state-Outcome env (Rounded d k) Kept (with_proof s.state p) _ stored
                (λ e s' same. rw same (Held-Kept (k + d) stored held e)) (λ s' same. rw same held))
      ]

  request_proof-Held :
      (device device_sk : String) (lock : Option String) (ks : Keyset) (d k : ℕ)
      (s : Session env.World)
      → ks.keyset_id ≡ keyset_id_for d
      → IsDenomination d
      → Held k s
      → Outcome (Rounded d k) Kept (request_proof c env device device_sk lock ks d s)
  unfolding request_proof
  request_proof-Held device device_sk lock ks d k s named denomination h =
      let P = Rounded d k in
      lift-Outcome P Kept (modulus_of c ks) _ s (λ e failed. Held-Kept k s h e)
        (λ n e1.
          bind-Outcome (λ (_ : String) s1. Held k s1) P Kept (new_secret c env lock) _ s
            (new_secret-Held lock k s h)
            (λ secret s1 h1.
              let (r, w) = env.random_blinder n s1.world in
              bind-Outcome (λ (_ : ℕ) s2. Held k s2) P Kept (burn_seq c env) _
                (record s1 { world = w }) (burn_seq-Held k (record s1 { world = w }) h1)
                (λ seq s2 h2.
                  lift-Outcome P Kept
                    (map_err crypto (
                      sign_bytes c device_sk (
                        as_bytes
                          (device_sign_message device seq d (blinded_message c ks n secret r)))))
                    _ s2 (λ e failed. Held-Kept k s2 h2 e)
                    (λ dsig e3.
                      let sent =
                        env.blind_sign_device (blinded_message c ks n secret r) d device seq dsig
                          s2.world in
                      store_answer-Held ks n secret r d k sent.0 (record s2 { world = sent.1 })
                        named denomination h2))))

  topup_round-Held :
      (offered : List Keyset) (device device_sk : String) (lock : Option String) (d k : ℕ)
      (s : Session env.World)
      → IsDenomination d
      → Held k s
      → Outcome (Rounded d k) Kept (topup_round c env offered device device_sk lock d s)
  unfolding topup_round
  topup_round-Held offered device device_sk lock d k s denomination h =
      elim (Option-cases (find_keyset (keyset_id_for d) offered)) [
        | inl e ↦ rw (e, topup_round) h
        | inr (ks, e) ↦
            rw (e, topup_round)
              (request_proof-Held device device_sk lock ks d k s
                (find_keyset-name (keyset_id_for d) offered ks e) denomination h)
      ]

  -- The loop reports what it has added to what it started from; without an error it is the total.
  abbrev pub Reported : ℕ → ℕ × ℕ × Option VaultError → Session env.World → Type 0
  Reported total (value, count, none) s = Held value s × (value ≡ total)
  Reported total (value, count, some e) s = Held value s

  after_round :
      (offered : List Keyset) (device device_sk : String) (lock : Option String) (plan : List ℕ)
      (d value count total : ℕ) (round : Round) (s : Session env.World)
      → Rounded d value round s
      → (Held (value + d) s
          → Outcome
              (Reported total)
              Kept
              (topup_loop c env offered device device_sk lock plan (value + d) (count + 1) s))
      → Outcome (Reported total) Kept (
          on_round
            (λ e. pure (value, count, some e))
            (topup_loop c env offered device device_sk lock plan (value + d) (count + 1))
            round
            s)
  after_round offered device device_sk lock plan d value count total (stop e) s h more = h
  after_round offered device device_sk lock plan d value count total go_on s h more = more h

  pub topup_loop-Held :
      (offered : List Keyset) (device device_sk : String) (lock : Option String) (plan : List ℕ)
      (value count total : ℕ) (s : Session env.World)
      → All IsDenomination plan
      → value + sum plan ≡ total
      → Held value s
      → Outcome
          (Reported total)
          Kept
          (topup_loop c env offered device device_sk lock plan value count s)
  unfolding topup_loop
  topup_loop-Held offered device device_sk lock [] value count total s all adds h =
      (h, omega (arith, adds))
  topup_loop-Held offered device device_sk lock (d ∷ plan) value count total s all adds h =
      bind-Outcome (Rounded d value) (Reported total) Kept
        (topup_round c env offered device device_sk lock d) _ s
        (topup_round-Held offered device device_sk lock d value s all.0 h)
        (λ round s1 h1.
          after_round offered device device_sk lock plan d value count total round s1 h1 (
            topup_loop-Held offered device device_sk lock plan (value + d) (count + 1) total s1
              all.1 (omega (arith, adds))))

  log_topup-Held :
      (value count k : ℕ) (s : Session env.World)
      → Held k s
      → Outcome (λ (_ : Unit {0}) s'. Held k s') Kept (log_topup c env value count s)
  unfolding log_topup logged_topup balance token_value
  log_topup-Held value count k s h =
      let logged : Session env.World = record s { state = logged_topup s.state value count } in
      saved-Outcome env (λ (_ : Unit {0}) s'. Held k s') Kept (logged_topup s.state value count)
        logged (λ e s' same. rw same (Held-Kept k s h e)) (λ s' same. rw same h)

  -- A topup that finishes without an error has added the total.
  abbrev pub Added : ℕ → ℕ × ℕ → Session env.World → Type 0
  Added total (value, count) s = Held total s × (value ≡ total)

  finish_with-Held :
      (total value count : ℕ) (error : Option VaultError) (s : Session env.World)
      → Held value s
      → Reported total (value, count, error) s
      → Outcome (Added total) Kept (finish_with c env value count error s)
  unfolding finish_with
  finish_with-Held total value count none s h (r, same) = (rw same at h, same)
  finish_with-Held total value count (some e) s h r = Held-Kept value s h e

  Reported-Held :
      (total value count : ℕ) (error : Option VaultError) (s : Session env.World)
      → Reported total (value, count, error) s
      → Held value s
  Reported-Held total value count none s r = r.0
  Reported-Held total value count (some e) s r = r

  Reported-again :
      (total value count : ℕ) (error : Option VaultError) (s s1 : Session env.World)
      → Reported total (value, count, error) s
      → Held value s1
      → Reported total (value, count, error) s1
  Reported-again total value count none s s1 r h = (h, r.1)
  Reported-again total value count (some e) s s1 r h = h

  pub finish_topup-Held :
      (total : ℕ) (r : ℕ × ℕ × Option VaultError) (s : Session env.World)
      → Reported total r s
      → Outcome (Added total) Kept (finish_topup c env r s)
  unfolding finish_topup
  finish_topup-Held total (value, count, error) s r =
      let h = Reported-Held total value count error s r in
      elim (Bool-cases (ltb 0 count)) [
        | inr e ↦ rw (e, finish_topup) (finish_with-Held total value count error s h r)
        | inl e ↦
            rw (e, finish_topup)
              (bind-Outcome (λ (_ : Unit {0}) s'. Held value s') (Added total) Kept
                (log_topup c env value count) _ s (log_topup-Held value count value s h)
                (λ _ s1 h1.
                  finish_with-Held total value count error s1 h1
                    (Reported-again total value count error s s1 r h1)))
      ]

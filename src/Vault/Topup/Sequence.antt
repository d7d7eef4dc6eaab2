-- ===== src/Vault/Topup/Sequence.antt =====
-- The sequence numbers of issuance requests: each is on disk before it is sent, and none is sent twice.
use fupi.Common.{
  ℕ, suc, ◌+◌, ◌≤◌, ◌<◌, ◌^◌, ◌≡◌, refl, inl, inr, String, Option, none, some, List, [], ◌∷◌,
  length, arith, Option-cases,
}
use fupi.Common.Result.{Result, ok, err, map_err}
use fupi.Types.{Keyset, FlashState}
use fupi.Crypto.{Crates, generate_locked_secret, device_sign_message, sign_bytes}
use fupi.Common.Text.{as_bytes}
use fupi.Vault.Errors.{VaultError, ClientError, crypto}
use fupi.Vault.Environment.{Environment}
use fupi.Vault.Session.{Session, pure}
use fupi.Vault.Session.Steps.{Result-cases, Outcome, bind-Outcome, lift-Outcome}
use fupi.Vault.Keysets.{find_keyset}
use fupi.Denom.{keyset_id_for}
use fupi.Vault.Issue.{modulus_of, blinded_message, finish_proof}
use fupi.Vault.Topup.{
  Round, go_on, stop, on_round, next_seq, with_proof, new_secret, burn_seq, store_answer,
  request_proof, topup_round, topup_loop,
}
use fupi.Vault.Topup.Log.{Event, sent, logged, WasSaved, IsFresh, IsOrdered, IsFresh-mono}

module _ (c : Crates) (env : Environment) where
  abbrev Ordered : VaultError → Session (env.World × List Event) → Type 0
  Ordered e s = IsOrdered s.world.1

  -- `k` more numbers can be used, all of them above those that were sent.
  abbrev pub IsReady : ℕ → Session (env.World × List Event) → Type 0
  IsReady k s =
      IsOrdered s.world.1
      × IsFresh (suc s.state.device_seq) s.world.1
      × (s.state.device_seq + k < 2 ^ 64)

  -- The number has been saved, and was not sent.
  abbrev IsBurnt : ℕ → ℕ → Session (env.World × List Event) → Type 0
  IsBurnt k n s =
      IsOrdered s.world.1
      × WasSaved n s.world.1
      × IsFresh n s.world.1
      × (s.state.device_seq ≡ n)
      × (n + k < 2 ^ 64)

  new_secret-IsReady :
      (lock : Option String) (k : ℕ) (s : Session (env.World × List Event))
      → IsReady k s
      → Outcome (λ (_ : String) s'. IsReady k s') Ordered (new_secret c (logged env) lock s)
  unfolding new_secret
  new_secret-IsReady none k s h = h
  new_secret-IsReady (some pk) k s h =
      elim (Result-cases (generate_locked_secret (env.secret_bytes s.world.0).0 pk)) [
        | inl (secret, e) ↦ rw (e, new_secret) h
        | inr (f, e) ↦ rw (e, new_secret) h.0
      ]

  next_seq-device_seq :
      (state : FlashState) (k : ℕ)
      → state.device_seq + suc k < 2 ^ 64
      → (next_seq state).device_seq ≡ suc state.device_seq
  unfolding next_seq
  next_seq-device_seq state k h = omega arith

  burn_seq-IsBurnt :
      (k : ℕ) (s : Session (env.World × List Event))
      → IsReady (suc k) s
      → Outcome (IsBurnt k) Ordered (burn_seq c (logged env) s)
  unfolding burn_seq
  burn_seq-IsBurnt k s (ordered, fresh, room) =
      let n = next_seq-device_seq s.state k room in
      elim (Result-cases (env.save (next_seq s.state) s.world.0).0) [
        | inr (d, e) ↦ rw e ordered
        | inl (u, e) ↦
            let fresh' : IsFresh (next_seq s.state).device_seq s.world.1 = rw n fresh in
            rw e (ordered, inl refl, fresh', refl, omega (arith, n, room))
      ]

  -- What is ready behind a request.
  sent-IsReady :
      (k n : ℕ) (s : Session (env.World × List Event)) (w : env.World)
      → IsBurnt k n s
      → IsReady k (record s { world = (w, sent n ∷ s.world.1) })
  sent-IsReady k n s w (ordered, was, fresh, same, room) =
      let above : n ≤ suc s.state.device_seq = omega (arith, same) in
      (
        (was, fresh, ordered),
        (omega (arith, same), IsFresh-mono n (suc s.state.device_seq) s.world.1 above fresh),
        omega (arith, same, room),
      )

  -- A round that goes on is ready for the next; one that stops has kept the order.
  abbrev Rounded : ℕ → Round → Session (env.World × List Event) → Type 0
  Rounded k go_on s = IsReady k s
  Rounded k (stop e) s = IsOrdered s.world.1

  store_answer-IsReady :
      (ks : Keyset) (n : ℕ) (secret : String) (r k : ℕ) (answer : Result ClientError String)
      (s : Session (env.World × List Event))
      → IsReady k s
      → Outcome (Rounded k) Ordered (store_answer c (logged env) ks n secret r answer s)
  unfolding store_answer with_proof
  store_answer-IsReady ks n secret r k (err e) s h = h.0
  store_answer-IsReady ks n secret r k (ok answer) s h =
      let message : String = "ATM blind signature failed local RSA check" in
      elim (Result-cases (finish_proof c ks n secret r answer message)) [
        | inr (e, failed) ↦ rw (failed, store_answer) h.0
        | inl (p, done) ↦ elim (Result-cases (env.save (with_proof s.state p) s.world.0).0) [
          | inr (d, e) ↦ rw (done, store_answer, e) h.0
          | inl (u, e) ↦ rw (done, store_answer, e) h
        ]
      ]

  request_proof-IsReady :
      (device device_sk : String) (lock : Option String) (ks : Keyset) (d k : ℕ)
      (s : Session (env.World × List Event))
      → IsReady (suc k) s
      → Outcome (Rounded k) Ordered (request_proof c (logged env) device device_sk lock ks d s)
  unfolding request_proof
  request_proof-IsReady device device_sk lock ks d k s h =
      let P = Rounded k in
      lift-Outcome P Ordered (modulus_of c ks) _ s (λ e failed. h.0)
        (λ n e1.
          bind-Outcome (λ (_ : String) s1. IsReady (suc k) s1) P Ordered
            (new_secret c (logged env) lock) _ s (new_secret-IsReady lock (suc k) s h)
            (λ secret s1 h1.
              let (r, w) = (logged env).random_blinder n s1.world in
              bind-Outcome (IsBurnt k) P Ordered (burn_seq c (logged env)) _
                (record s1 { world = w }) (burn_seq-IsBurnt k (record s1 { world = w }) h1)
                (λ seq s2 h2.
                  let blinded = blinded_message c ks n secret r in
                  lift-Outcome P Ordered
                    (map_err crypto (
                      sign_bytes c device_sk (as_bytes (device_sign_message device seq d blinded))))
                    _ s2 (λ e failed. h2.0)
                    (λ dsig e3.
                      let (answer, w2) =
                        env.blind_sign_device blinded d device seq dsig s2.world.0 in
                      store_answer-IsReady ks n secret r k answer
                        (record s2 { world = (w2, sent seq ∷ s2.world.1) })
                        (sent-IsReady k seq s2 w2 h2)))))

  topup_round-IsReady :
      (offered : List Keyset) (device device_sk : String) (lock : Option String) (d k : ℕ)
      (s : Session (env.World × List Event))
      → IsReady (suc k) s
      → Outcome (Rounded k) Ordered (topup_round c (logged env) offered device device_sk lock d s)
  unfolding topup_round
  topup_round-IsReady offered device device_sk lock d k s h =
      elim (Option-cases (find_keyset (keyset_id_for d) offered)) [
        | inl e ↦ rw (e, topup_round) h.0
        | inr (ks, e) ↦ rw (e, topup_round) (request_proof-IsReady device device_sk lock ks d k s h)
      ]

  after_round :
      (offered : List Keyset) (device device_sk : String) (lock : Option String) (plan : List ℕ)
      (k d value count : ℕ) (round : Round) (s : Session (env.World × List Event))
      → Rounded k round s
      → (IsReady k s
          → Outcome
              (λ (_ : ℕ × ℕ × Option VaultError) s'. IsOrdered s'.world.1)
              Ordered
              (topup_loop c
                (logged env)
                offered
                device
                device_sk
                lock
                plan
                (value + d)
                (count + 1)
                s))
      → Outcome
          (λ (_ : ℕ × ℕ × Option VaultError) s'. IsOrdered s'.world.1)
          Ordered
          (on_round
            (λ e. pure (value, count, some e))
            (topup_loop c (logged env) offered device device_sk lock plan (value + d) (count + 1))
            round
            s)
  after_round offered device device_sk lock plan k d value count (stop e) s h more = h
  after_round offered device device_sk lock plan k d value count go_on s h more = more h

  -- However the ATM answers and the storage fails, where the loop over a plan starts with as many unused
  -- numbers as the plan has denominations, every request it sends carries a number that a successful save
  -- has written before, and that is above those of all requests before it.
  pub topup_loop-IsOrdered :
      (offered : List Keyset) (device device_sk : String) (lock : Option String) (plan : List ℕ)
      (value count : ℕ) (s : Session (env.World × List Event))
      → IsReady (length plan) s
      → Outcome
          (λ (_ : ℕ × ℕ × Option VaultError) s'. IsOrdered s'.world.1)
          (λ e s'. IsOrdered s'.world.1)
          (topup_loop c (logged env) offered device device_sk lock plan value count s)
  unfolding topup_loop
  topup_loop-IsOrdered offered device device_sk lock [] value count s h = h.0
  topup_loop-IsOrdered offered device device_sk lock (d ∷ plan) value count s h =
      bind-Outcome (Rounded (length plan))
        (λ (_ : ℕ × ℕ × Option VaultError) s'. IsOrdered s'.world.1) Ordered
        (topup_round c (logged env) offered device device_sk lock d) _ s
        (topup_round-IsReady offered device device_sk lock d (length plan) s h)
        (λ round s1 h1.
          after_round offered device device_sk lock plan (length plan) d value count round s1 h1
            (topup_loop-IsOrdered offered device device_sk lock plan (value + d) (count + 1) s1))

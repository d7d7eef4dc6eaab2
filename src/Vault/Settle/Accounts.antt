-- ===== src/Vault/Settle/Accounts.antt =====
-- The accounts of a settling run, over a log of what the ATM was asked and said.
use fupi.Common.{
  ℕ, ◌+◌, ◌≡◌, refl, sym, ◌∙◌, ap, inl, inr, String, Bool, true, false, Option, none, some, List,
  [], ◌∷◌, ◌++◌, arith, All, str_eq, eq_iff, push, ltb, ◌==◌, Bool-cases, if◌then◌else◌,
}
use fupi.Common.Result.{Result, ok, err}
use fupi.Common.Sorting.{Pairwise}
use fupi.Types.{Proof}
use fupi.Denom.{proof_value}
use fupi.Crypto.{Crates}
use fupi.Vault.Errors.{VaultError, ClientError, http_status, transport, serialization}
use fupi.Vault.Environment.{Environment}
use fupi.Vault.Session.{Session}
use fupi.Vault.Session.Steps.{
  Result-cases, Outcome, Outcome-imp, bind-Outcome, lift-Outcome, require_client-Outcome,
}
use fupi.Vault.Coins.{token_value, balance}
use fupi.Vault.Receive.{with_claim}
use fupi.Vault.Receive.Distinct.{Differ}
use mathlib.Core.List.{append_assoc, append-nil}
use fupi.Vault.Settle.{
  without_secret, settled_state, settle_verdict, settle_answered, settle_loop, report_settled,
  settle_all,
}

Differ-from : (p q : Proof) → Differ p q → str_eq q.secret p.secret ≡ false
Differ-from p q d = elim (Bool-cases (str_eq q.secret p.secret)) [
  | inr e ↦ e
  | inl e ↦
      let same : p.secret ≡ q.secret = sym ((eq_iff q.secret p.secret).0 e) in
      cc (d, (eq_iff p.secret q.secret).1 same)
]

without_others :
    (p : Proof) (rest : List Proof) → All (Differ p) rest → without_secret p.secret rest ≡ rest
unfolding without_secret
without_others p [] d = refl
without_others p (q ∷ rest) d = rw (Differ-from p q d.0, without_others p rest d.1) refl

-- Among proofs with distinct secrets, settling the first one removes just that.
without_first :
    (p : Proof) (rest : List Proof)
    → All (Differ p) rest
    → without_secret p.secret (p ∷ rest) ≡ rest
unfolding without_secret
without_first p rest d = rw ((eq_iff p.secret p.secret).1 refl, without_others p rest d) refl

abbrev Answer : Type 0
Answer = Result ClientError (Bool × String)

-- The requests for settlement and their answers, the first one first.
abbrev pub Log : Type 0
Log = List (Proof × Answer)

-- An environment that keeps such a log.
abbrev pub answering : Environment → Environment
answering env = record {
  World = env.World × Log;
  save = λ state w. let (r, w') = env.save state w.0 in (r, (w', w.1));
  wipe = λ w. let (r, w') = env.wipe w.0 in (r, (w', w.1));
  get_keysets = λ w. let (r, w') = env.get_keysets w.0 in (r, (w', w.1));
  get_keyset = λ w. let (r, w') = env.get_keyset w.0 in (r, (w', w.1));
  blind_sign_device = λ blinded d device seq dsig w.
      let (r, w') = env.blind_sign_device blinded d device seq dsig w.0 in (r, (w', w.1));
  swap = λ inputs outputs w. let (r, w') = env.swap inputs outputs w.0 in (r, (w', w.1));
  settle_as =
      λ p merchant w. let (r, w') = env.settle_as p merchant w.0 in (r, (w', push w.1 (p, r)));
  secret_bytes = λ w. let (r, w') = env.secret_bytes w.0 in (r, (w', w.1));
  random_blinder = λ n w. let (r, w') = env.random_blinder n w.0 in (r, (w', w.1));
  key_bytes = λ w. let (r, w') = env.key_bytes w.0 in (r, (w', w.1));
  now = λ w. let (r, w') = env.now w.0 in (r, (w', w.1));
}

-- What an answer says of a proof: it is settled, or it is rejected, also by a status from below 500 that
-- is no conflict; or it says neither.
pub data Says : Bool → Answer → Type 0 where
  settled : (msg : String) → Says true (ok (true, msg))
  rejected : (msg : String) → Says false (ok (false, msg))
  refused :
      (code : ℕ) (body : String)
      → (code == 409) ≡ false
      → ltb code 500 ≡ true
      → Says false (err (http_status code body))

settle_verdict-Says :
    (answer : Answer) (done : Bool) (msg : String)
    → settle_verdict answer ≡ ok (done, msg)
    → Says done answer
unfolding settle_verdict
settle_verdict-Says (ok (true, m)) done msg h =
    let same : true ≡ done = cc h in rw (← same) (settled m)
settle_verdict-Says (ok (false, m)) done msg h =
    let same : false ≡ done = cc h in rw (← same) (rejected m)
settle_verdict-Says (err (http_status code body)) done msg h = elim (Bool-cases (code == 409)) [
  | inl conflict ↦ cc (rw (conflict, settle_verdict) at h)
  | inr other ↦ elim (Bool-cases (ltb code 500)) [
    | inl low ↦
        let no : false ≡ done = cc (rw (other, low, settle_verdict) at h) in
        rw (← no) (refused code body other low)
    | inr high ↦ cc (rw (other, high, settle_verdict) at h)
  ]
]
settle_verdict-Says (err (transport e)) done msg h = cc
settle_verdict-Says (err (serialization e)) done msg h = cc

module _ (c : Crates) (claim_key : Option String) where
  -- Each of the proofs was sent once, in their order and with its claim; the values of those that the
  -- answers call settled and rejected add up to these.
  pub data Answered : List Proof → Log → ℕ → ℕ → Type 0 where
    none_left : Answered [] [] 0 0
    pays :
        (p q : Proof) (answer : Answer) (ps : List Proof) (log : Log) (x y : ℕ)
        → with_claim c claim_key p ≡ ok q
        → Says true answer
        → Answered ps log x y
        → Answered (p ∷ ps) ((q, answer) ∷ log) (proof_value p + x) y
    rejects :
        (p q : Proof) (answer : Answer) (ps : List Proof) (log : Log) (x y : ℕ)
        → with_claim c claim_key p ≡ ok q
        → Says false answer
        → Answered ps log x y
        → Answered (p ∷ ps) ((q, answer) ∷ log) x (proof_value p + y)

  module _ (env : Environment) where
    -- All of the proofs have their verdict, and nothing is held.
    pub record Done (before : Log) (proofs : List Proof) (ok_v bad_v ok_v' bad_v' : ℕ)
        (s : Session (env.World × Log)) : Type 0 where
      pub log : Log
      pub paid : ℕ
      pub refused_value : ℕ
      pub answered : Answered proofs log paid refused_value
      pub logged : s.world.1 ≡ before ++ log
      pub ok_total : ok_v' ≡ ok_v + paid
      pub bad_total : bad_v' ≡ bad_v + refused_value
      pub gone : s.state.proofs ≡ []

    -- The first of the proofs have their verdict, and the others are held; at most one of these was sent.
    pub record Stopped (before : Log) (proofs : List Proof) (s : Session (env.World × Log))
        : Type 0 where
      pub finished : List Proof
      pub log : Log
      pub last_sent : Option (Proof × Answer)
      pub paid : ℕ
      pub refused_value : ℕ
      pub answered : Answered finished log paid refused_value
      pub logged : s.world.1 ≡ before ++ (log ++ elim last_sent [ none ↦ [] | some e ↦ e ∷ [] ])
      pub others : proofs ≡ finished ++ s.state.proofs

    abbrev StoppedAt : Log → List Proof → VaultError → Session (env.World × Log) → Type 0
    StoppedAt before proofs e s = Stopped before proofs s

    abbrev Settled :
        Log → List Proof → ℕ → ℕ → ℕ × ℕ × Option VaultError → Session (env.World × Log) → Type 0
    Settled before proofs ok_v bad_v (ok_v', bad_v', none) s =
        Done before proofs ok_v bad_v ok_v' bad_v' s
    Settled before proofs ok_v bad_v (ok_v', bad_v', some e) s = Stopped before proofs s

    -- A round in front of the others.
    module _ (before : Log) (p q : Proof) (answer : Answer) (ps : List Proof)
        (claimed : with_claim c claim_key p ≡ ok q) where
      Stopped-cons :
          (done : Bool) (s : Session (env.World × Log))
          → Says done answer
          → Stopped (push before (q, answer)) ps s
          → Stopped before (p ∷ ps) s
      Stopped-cons true s says h = record {
        finished = p ∷ h.finished;
        log = (q, answer) ∷ h.log;
        last_sent = h.last_sent;
        paid = proof_value p + h.paid;
        refused_value = h.refused_value;
        answered = pays p q answer h.finished h.log h.paid h.refused_value claimed says h.answered;
        logged = h.logged ∙ append_assoc before ((q, answer) ∷ []) _;
        others = ap (λ (l : List Proof). p ∷ l) h.others;
      }
      Stopped-cons false s says h = record {
        finished = p ∷ h.finished;
        log = (q, answer) ∷ h.log;
        last_sent = h.last_sent;
        paid = h.paid;
        refused_value = proof_value p + h.refused_value;
        answered =
            rejects p q answer h.finished h.log h.paid h.refused_value claimed says h.answered;
        logged = h.logged ∙ append_assoc before ((q, answer) ∷ []) _;
        others = ap (λ (l : List Proof). p ∷ l) h.others;
      }

      Settled-pays :
          (ok_v bad_v : ℕ) (r : ℕ × ℕ × Option VaultError) (s : Session (env.World × Log))
          → Says true answer
          → Settled (push before (q, answer)) ps (ok_v + proof_value p) bad_v r s
          → Settled before (p ∷ ps) ok_v bad_v r s
      Settled-pays ok_v bad_v (a, b, some e) s says h = Stopped-cons true s says h
      Settled-pays ok_v bad_v (a, b, none) s says h = record {
        log = (q, answer) ∷ h.log;
        paid = proof_value p + h.paid;
        refused_value = h.refused_value;
        answered = pays p q answer ps h.log h.paid h.refused_value claimed says h.answered;
        logged = h.logged ∙ append_assoc before ((q, answer) ∷ []) h.log;
        ok_total = omega (arith, h.ok_total);
        bad_total = h.bad_total;
        gone = h.gone;
      }

      Settled-rejects :
          (ok_v bad_v : ℕ) (r : ℕ × ℕ × Option VaultError) (s : Session (env.World × Log))
          → Says false answer
          → Settled (push before (q, answer)) ps ok_v (bad_v + proof_value p) r s
          → Settled before (p ∷ ps) ok_v bad_v r s
      Settled-rejects ok_v bad_v (a, b, some e) s says h = Stopped-cons false s says h
      Settled-rejects ok_v bad_v (a, b, none) s says h = record {
        log = (q, answer) ∷ h.log;
        paid = h.paid;
        refused_value = proof_value p + h.refused_value;
        answered = rejects p q answer ps h.log h.paid h.refused_value claimed says h.answered;
        logged = h.logged ∙ append_assoc before ((q, answer) ∷ []) h.log;
        ok_total = h.ok_total;
        bad_total = omega (arith, h.bad_total);
        gone = h.gone;
      }

      unsettled :
          (s : Session (env.World × Log))
          → s.state.proofs ≡ p ∷ ps
          → s.world.1 ≡ push before (q, answer)
          → Stopped before (p ∷ ps) s
      unsettled s held log = record {
        finished = [];
        log = [];
        last_sent = some (q, answer);
        paid = 0;
        refused_value = 0;
        answered = none_left;
        logged = log;
        others = sym held;
      }

      settle_answered-Settled :
          (ok_v bad_v : ℕ)
          (rest : ℕ
            → ℕ
            → Session (env.World × Log)
            → Result VaultError (ℕ × ℕ × Option VaultError) × Session (env.World × Log))
          → ((x y : ℕ) (s1 : Session (env.World × Log))
              → s1.state.proofs ≡ ps
              → s1.world.1 ≡ push before (q, answer)
              → Outcome
                  (Settled (push before (q, answer)) ps x y)
                  (StoppedAt (push before (q, answer)) ps)
                  (rest x y s1))
          → (s : Session (env.World × Log)) → Pairwise Differ (p ∷ ps)
          → s.state.proofs ≡ p ∷ ps
          → s.world.1 ≡ push before (q, answer)
          → Outcome
              (Settled before (p ∷ ps) ok_v bad_v)
              (StoppedAt before (p ∷ ps))
              (settle_answered c (answering env) p ok_v bad_v rest (settle_verdict answer) s)
      unfolding settle_answered settled_state
      settle_answered-Settled ok_v bad_v rest ih s d held log =
          elim (Result-cases (settle_verdict answer)) [
            | inr (e, stop) ↦ rw stop (unsettled s held log)
            | inl ((done, msg), went) ↦
                let says = settle_verdict-Says answer done msg went in
                let next = settled_state s.state p done msg in
                let left : next.proofs ≡ ps = rw held (without_first p ps d.0) in
                elim (Result-cases (env.save next s.world.0).0) [
                  | inr (e, failed) ↦ rw (went, failed) (unsettled _ held log)
                  | inl (u, saved) ↦
                      let s1 : Session (env.World × Log) = record s {
                        state = next;
                        world = ((env.save next s.world.0).1, s.world.1);
                      } in
                      rw (went, saved)
                        (elim done
                            as (λ b.
                              Says b answer
                              → Outcome (Settled before (p ∷ ps) ok_v bad_v)
                                  (StoppedAt before (p ∷ ps))
                                  ((if b
                                      then rest (ok_v + proof_value p) bad_v
                                      else rest ok_v (bad_v + proof_value p))
                                    s1)) [
                                      | true ↦ λ yes_says.
                                          Outcome-imp (rest (ok_v + proof_value p) bad_v s1)
                                            (λ r s2 h. Settled-pays ok_v bad_v r s2 yes_says h)
                                            (λ e2 s2 h. Stopped-cons true s2 yes_says h)
                                            (ih (ok_v + proof_value p) bad_v s1 left log)
                                      | false ↦ λ no_says.
                                          Outcome-imp (rest ok_v (bad_v + proof_value p) s1)
                                            (λ r s2 h. Settled-rejects ok_v bad_v r s2 no_says h)
                                            (λ e2 s2 h. Stopped-cons false s2 no_says h)
                                            (ih ok_v (bad_v + proof_value p) s1 left log)
                                    ]
                          says)
                ]
          ]

    settle_loop-Settled :
        (before : Log) (proofs : List Proof) (ok_v bad_v : ℕ) (s : Session (env.World × Log))
        → Pairwise Differ proofs
        → s.state.proofs ≡ proofs
        → s.world.1 ≡ before
        → Outcome
            (Settled before proofs ok_v bad_v)
            (StoppedAt before proofs)
            (settle_loop c (answering env) claim_key proofs ok_v bad_v s)
    unfolding settle_loop
    settle_loop-Settled before [] ok_v bad_v s d held log = record {
      log = [];
      paid = 0;
      refused_value = 0;
      answered = none_left;
      logged = log ∙ sym (append-nil before);
      ok_total = omega arith;
      bad_total = omega arith;
      gone = held;
    }
    settle_loop-Settled before (p ∷ ps) ok_v bad_v s d held log =
        lift-Outcome (Settled before (p ∷ ps) ok_v bad_v) (StoppedAt before (p ∷ ps))
          (with_claim c claim_key p) _ s
          (λ e failed. record {
            finished = [];
            log = [];
            last_sent = none;
            paid = 0;
            refused_value = 0;
            answered = none_left;
            logged = log ∙ sym (append-nil before);
            others = sym held;
          })
          (λ q claimed.
            let (answer, w) = env.settle_as q s.merchant s.world.0 in
            settle_answered-Settled before p q answer ps claimed ok_v bad_v
              (settle_loop c (answering env) claim_key ps)
              (λ x y s1 left log1.
                settle_loop-Settled (push before (q, answer)) ps x y s1 d.1 left log1)
              (record s { world = (w, push s.world.1 (q, answer)) }) d held (rw log refl))

    -- A report on these proofs: the values that the answers call settled and rejected.
    pub record Reported (proofs : List Proof) (report : ℕ × ℕ × ℕ) (s : Session (env.World × Log))
        : Type 0 where
      pub answered : Answered proofs s.world.1 report.0 report.1
      pub gone : s.state.proofs ≡ []
      pub nothing_held : report.2 ≡ 0

    abbrev pub Unreported : List Proof → VaultError → Session (env.World × Log) → Type 0
    Unreported proofs e s = Stopped [] proofs s

    report_settled-Reported :
        (proofs : List Proof) (ok_v bad_v : ℕ) (error : Option VaultError)
        (s : Session (env.World × Log))
        → Settled [] proofs 0 0 (ok_v, bad_v, error) s
        → Outcome
            (Reported proofs)
            (Unreported proofs)
            (report_settled c (answering env) ok_v bad_v error s)
    unfolding report_settled balance token_value
    report_settled-Reported proofs ok_v bad_v (some e) s h = h
    report_settled-Reported proofs ok_v bad_v none s h =
        let ok_same : ok_v ≡ h.paid = omega (arith, h.ok_total) in
        let bad_same : bad_v ≡ h.refused_value = omega (arith, h.bad_total) in
        record {
          answered = rw (h.logged, ok_same, bad_same) h.answered;
          gone = h.gone;
          nothing_held = rw (h.gone) refl;
        }

    -- From a vault whose secrets are distinct, with an empty log: a run of `settle_all` that returns has
    -- sent every proof once, in their order and with its claim, and each has an answer that settles or
    -- rejects it; what is reported as settled and as rejected are the values of these two kinds, and
    -- nothing is held. Behind a run that fails, the first of the proofs have such answers and the others
    -- are held, all of them unchanged and at most one of them sent.
    pub settle_all-accounts :
        (s : Session (env.World × Log))
        → Pairwise Differ s.state.proofs
        → s.world.1 ≡ []
        → Outcome
            (Reported s.state.proofs)
            (Unreported s.state.proofs)
            (settle_all c (answering env) claim_key s)
    unfolding settle_all
    settle_all-accounts s d log =
        let P = Reported s.state.proofs in
        let Q = Unreported s.state.proofs in
        require_client-Outcome P Q _ s
          (record {
            finished = [];
            log = [];
            last_sent = none;
            paid = 0;
            refused_value = 0;
            answered = none_left;
            logged = log;
            others = refl;
          })
          (bind-Outcome (Settled [] s.state.proofs 0 0) P Q
            (settle_loop c (answering env) claim_key s.state.proofs 0 0) _ s
            (settle_loop-Settled [] s.state.proofs 0 0 s d refl log)
            (λ r s1 h. report_settled-Reported s.state.proofs r.0 r.1 r.2 s1 h))

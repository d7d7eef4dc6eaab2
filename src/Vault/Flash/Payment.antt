-- ===== src/Vault/Flash/Payment.antt =====
-- A payment on a device that may fail or lose its power at any point of any file operation: the money is
-- in the vault, or in a token of the outbox.
use fupi.Common.{
  ℕ, ◌+◌, ◌≡◌, refl, ◌⊎◌, inl, inr, String, Bool, ◌==◌, ltb, Option, none, some, List, push, arith,
  Bool-cases, if◌then◌else◌,
}
use fupi.Common.Result.{Result, ok, err}
use fupi.Types.{Proof, FlashState}
use fupi.Denom.{max_exact_target, proof_value}
use fupi.Crypto.{Crates}
use fupi.Storage.{Codec}
use fupi.Storage.Load.{IsLawful, Holds, Loads, load_primary}
use fupi.Storage.Remnants.{AllLeft}
use fupi.Storage.Durable.{Held, Survives, Durable-Survives, kept}
use fupi.Vault.Errors.{VaultError}
use fupi.Vault.Environment.{Environment, TokenCodec}
use fupi.Vault.Session.{Session, ◌>>◌}
use fupi.Vault.Session.Steps.{Result-cases, Outcome, Outcome-imp, bind-Outcome}
use fupi.Vault.Coins.{balance, chosen_at, token_value}
use fupi.Vault.Coins.Removal.{sum-remove_all}
use fupi.Vault.Payment.{wanted_lock, select_coins, spent_state, token_of, make_payment}
use fupi.Vault.Payment.Conserves.{IsSelection, select_coins-IsSelection}
use fupi.Vault.Swap.{recover, make_change, needs_change, pay}
use fupi.Vault.Swap.Balance.{IsBalanced, Conserves, holdings, holdings-slot}
use fupi.Vault.Flash.{Power, device_of, on_flash}
use fupi.Vault.Flash.Steps.{Survivors, Written, commit-OnFlash}
use fupi.Vault.Flash.Swap.{Safe, Idle, recover-Safe}
use fupi.Vault.Flash.Change.{make_change-Safe}

module _ (codec : Codec) (lawful : IsLawful codec) (has_parent : Bool) (env : Environment)
    (c : Crates) (t : TokenCodec) (amount : ℕ) (before : FlashState) where
  abbrev pub flash : Environment
  flash = on_flash codec has_parent env

  -- The amount has left the vault as a token of coins worth just that, and the token is the last of the
  -- outbox; no swap is unfinished.
  pub record IsSpent (token : String) (st : FlashState) : Type 0 where
    pub chosen : List Proof
    pub printed : token_of c t flash chosen ≡ ok token
    pub worth : token_value chosen ≡ amount
    pub earlier : List String
    pub queued : st.outbox ≡ push earlier token
    pub idle : st.pending_swap ≡ none
    pub value : holdings before ≡ amount + holdings st

  -- Nothing has left the vault, or the amount has, with its token in the outbox.
  abbrev pub IsAccounted : FlashState → Type 0
  IsAccounted st = Conserves before st ⊎ ((token : String) × IsSpent token st)

  abbrev unmoved : (st : FlashState) → Conserves before st → IsAccounted st
  unmoved st h = inl h

  abbrev SafeNow : Session (env.World × Power) → Type 0
  SafeNow s = Safe codec lawful has_parent env c before IsAccounted unmoved s

  abbrev IdleNow : {A : Type 0} → A → Session (env.World × Power) → Type 0
  IdleNow a s = Idle codec lawful has_parent env c before IsAccounted unmoved a s

  -- The token is out, and the flash holds the state that goes with it.
  abbrev pub Spent : String → Session (env.World × Power) → Type 0
  Spent token s = IsSpent token s.state × Written codec lawful has_parent IsAccounted env s.state s

  abbrev pub Unspent : VaultError → Session (env.World × Power) → Type 0
  Unspent e s = SafeNow s

  spent_state-IsSpent :
      (state : FlashState) (want : Option (List ℕ)) (idx : List ℕ) (token : String)
      → Conserves before state
      → state.pending_swap ≡ none
      → IsSelection state.proofs want amount idx
      → token_of c t flash (chosen_at idx state.proofs) ≡ ok token
      → IsSpent token (spent_state state idx token amount)
  unfolding spent_state balance token_value
  spent_state-IsSpent state want idx token held idle selection printed = record {
    chosen = chosen_at idx state.proofs;
    printed = printed;
    worth = selection.exact;
    earlier = state.outbox;
    queued = refl;
    idle = idle;
    value = omega (
      arith,
      held.1,
      selection.exact,
      sum-remove_all proof_value idx state.proofs selection.rising selection.valid,
      holdings-slot state none idle,
      holdings-slot (spent_state state idx token amount) none idle,
    );
  }

  make_payment-Spent :
      (lock : Option String) (s : Session (env.World × Power))
      → s.state.pending_swap ≡ none
      → SafeNow s
      → Outcome Spent (λ e s'. IdleNow e s') (make_payment c t flash amount lock s)
  unfolding make_payment
  make_payment-Spent lock s idle h = elim (Bool-cases (amount == 0)) [
    | inl nothing ↦ rw nothing (idle, h)
    | inr positive ↦ elim (Result-cases (wanted_lock lock)) [
      | inr (e, no_key) ↦ rw (positive, no_key) (idle, h)
      | inl (want, wanted) ↦ elim (Bool-cases (ltb max_exact_target amount)) [
        | inl over ↦ rw (positive, wanted, over) (idle, h)
        | inr within ↦ elim (Result-cases (select_coins s.state.proofs want amount)) [
          | inr (e, no_coins) ↦ rw (positive, wanted, within, no_coins) (idle, h)
          | inl (idx, selected) ↦
              elim (Result-cases (token_of c t flash (chosen_at idx s.state.proofs))) [
                | inr (e, no_token) ↦ rw (positive, wanted, within, selected, no_token) (idle, h)
                | inl (token, printed) ↦
                    let next = spent_state s.state idx token amount in
                    let spent : IsSpent token next =
                      spent_state-IsSpent s.state want idx token h.0 idle
                        (select_coins-IsSelection s.state.proofs want amount idx selected)
                        printed in
                    rw (positive, wanted, within, selected, printed)
                      (commit-OnFlash codec lawful has_parent IsAccounted env Spent
                        (λ e s'. IdleNow e s') next _ s (inr (token, spent)) h.1
                        (λ e s' same disk. (rw same idle, (rw same h.0, disk)))
                        (λ s' after written. (rw after spent, rw after written)))
              ]
        ]
      ]
    ]
  ]

  retried_Spent :
      (lock : Option String) (r : Result VaultError String) (s : Session (env.World × Power))
      → Outcome Spent (λ e s'. IdleNow e s') (r, s)
      → Outcome Spent Unspent (
          if needs_change c flash t lock r
          then (make_change c flash amount >> make_payment c t flash amount none) s
          else (r, s))
  retried_Spent (some key) (ok token) s h = h
  retried_Spent none (ok token) s h = h
  retried_Spent lock (err e) s h = elim (Bool-cases (needs_change c flash t lock (err e))) [
    | inr done ↦ rw done (h.1)
    | inl more ↦ rw more (
        bind-Outcome (λ (a : Unit {0}) s1. IdleNow a s1) Spent Unspent (make_change c flash amount)
          _ s
          (make_change-Safe codec lawful has_parent env c before IsAccounted unmoved amount s h.0
            h.1)
          (λ done s1 (idle, safe).
            Outcome-imp (make_payment c t flash amount none s1) (λ token s2 spent. spent)
              (λ e2 s2 k. k.1) (make_payment-Spent none s1 idle safe)))
  ]

  pay-Spent :
      (lock : Option String) (s : Session (env.World × Power))
      → SafeNow s
      → Outcome Spent Unspent (pay c flash t amount lock s)
  unfolding pay
  pay-Spent lock s h =
      bind-Outcome (λ (a : Bool) s1. IdleNow a s1) Spent Unspent (recover c flash) _ s
        (recover-Safe codec lawful has_parent env c before IsAccounted unmoved s h)
        (λ _ s1 (idle, safe).
          retried_Spent lock (make_payment c t flash amount lock s1).0
            (make_payment c t flash amount lock s1).1 (make_payment-Spent lock s1 idle safe))

module _ (codec : Codec) (lawful : IsLawful codec) (has_parent : Bool) (env : Environment)
    (c : Crates) (t : TokenCodec) (amount : ℕ) (lock : Option String)
    (s : Session (env.World × Power)) where
  abbrev Good : FlashState → Type 0
  Good = IsAccounted codec lawful has_parent env c t amount s.state

  -- The flash, read after a restart of the program, is in the state `st`.
  abbrev pub Restarts : Session (env.World × Power) → FlashState → Type 0
  Restarts s' st = Loads codec (device_of s'.world.1) st

  restarts :
      (s' : Session (env.World × Power)) (st : FlashState)
      → Holds codec (device_of s'.world.1).primary_file st
      → Restarts s' st
  restarts s' st h =
      let d = device_of s'.world.1 in load_primary codec d.primary_file d.tmp_file d.bak_file st h

  -- Whatever a loss of power leaves of the files, a load from it finds the money.
  abbrev pub Accountable : Session (env.World × Power) → Type 0
  Accountable s' = Survives codec Good (device_of s'.world.1)

  accountable :
      (s' : Session (env.World × Power))
      → Survivors codec lawful has_parent Good (device_of s'.world.1)
      → Accountable s'
  accountable s' f = Durable-Survives codec Good (device_of s'.world.1) (kept f)

  -- What `pay` leaves on the flash where it returns, and where it fails or power is lost.
  abbrev pub Delivered : String → Session (env.World × Power) → Type 0
  Delivered token s' =
      IsSpent codec lawful has_parent env c t amount s.state token s'.state
      × Restarts s' s'.state
      × Accountable s'

  abbrev pub Accounted : VaultError → Session (env.World × Power) → Type 0
  Accounted e s' = ((st : FlashState) × Restarts s' st × Good st) × Accountable s'

  -- A payment from a balanced state that the flash holds, where any file operation may fail or lose
  -- power, at any byte, a loss of power may undo what was not synced, and the ATM may answer anything.
  -- Of what a loss of power may leave before, all holds as much as that state. Where the payment
  -- returns a token, the flash holds the state behind it: coins worth the amount have left, and their
  -- token is the last of the outbox. Where it stops at an error, a restart finds a state that holds as
  -- much as before, or one from which just the amount has left, as a token in the outbox; and so does
  -- a restart from whatever a loss of power leaves then, in both cases.
  pub pay-Accounted :
      IsBalanced s.state.pending_swap
      → Holds codec (device_of s.world.1).primary_file s.state
      → AllLeft (Held codec (Conserves s.state)) (device_of s.world.1).primary_left
      → Outcome Delivered Accounted (pay c (on_flash codec has_parent env) t amount lock s)
  pay-Accounted b held left_over =
      let start : Conserves s.state s.state = (b, refl) in
      let survivors : Survivors codec lawful has_parent Good (device_of s.world.1) = record {
        of_primary = λ f m. let (st, holds, same) = left_over f m in (st, holds, inl same);
        of_tmp = λ f m. tt;
        of_bak = λ f m. tt;
      } in
      Outcome-imp (pay c (on_flash codec has_parent env) t amount lock s)
        (λ token s' (k : Spent codec lawful has_parent env c t amount s.state token s').
          (k.0, restarts s' s'.state (k.1.0), accountable s' (k.1.1)))
        (λ e s' (k : Unspent codec lawful has_parent env c t amount s.state e s').
          let ((st, written, accounted), f) = k.1 in
          ((st, restarts s' st written, accounted), accountable s' f))
        (pay-Spent codec lawful has_parent env c t amount s.state lock s
          (start, ((s.state, held, inl start), survivors)))

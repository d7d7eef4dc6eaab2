-- ===== src/Vault/Flash/Change.antt =====
-- What the flash holds while a swap is made.
use fupi.Common.{◌≡◌, refl, inl, inr, Bool, true, none, List, [], ◌∷◌, ℕ}
use fupi.Types.{FlashState, PendingOut, Keyset}
use fupi.Crypto.{Crates}
use fupi.Storage.{Codec}
use fupi.Storage.Load.{IsLawful}
use fupi.Vault.Errors.{VaultError}
use fupi.Vault.Environment.{Environment}
use fupi.Vault.Session.{Session}
use fupi.Vault.Session.Steps.{
  Result-cases, Outcome, Outcome-imp, Outcome-both, bind-Outcome, require_client-Outcome,
}
use fupi.Vault.Keysets.{pinned_keysets}
use fupi.Vault.Issue.{keyset_for, modulus_of}
use fupi.Denom.{keyset_id_for}
use fupi.Vault.Swap.{plan_swap, prepare_output, prepare_outputs, pending_state, make_change}
use fupi.Vault.Swap.Balance.{Conserves}
use fupi.Vault.Swap.Change.{Conserves-trans, pending_state-Conserves}
use fupi.Vault.Swap.Plan.{plan_swap-IsPlan}
use fupi.Vault.Swap.Outputs.{AllPrepared, prepare_outputs-AllPrepared}
use fupi.Vault.Flash.{Power, on_flash}
use fupi.Vault.Flash.Steps.{Written-OnFlash, commit-OnFlash}
use fupi.Vault.Flash.Swap.{Safe, Idle, complete_pending_swap-Safe}

module _ (codec : Codec) (lawful : IsLawful codec) (has_parent : Bool) (env : Environment)
    (c : Crates) (before : FlashState) (P : FlashState → Type 0)
    (safe : (st : FlashState) → Conserves before st → P st) where
  abbrev flash : Environment
  flash = on_flash codec has_parent env

  abbrev SafeNow : Session (env.World × Power) → Type 0
  SafeNow = Safe codec lawful has_parent env c before P safe

  abbrev Stopped : VaultError → Session (env.World × Power) → Type 0
  Stopped e s = SafeNow s

  abbrev IdleNow : {A : Type 0} → A → Session (env.World × Power) → Type 0
  IdleNow a s = Idle codec lawful has_parent env c before P safe a s

  prepare_output-SameDisk :
      (pinned : List Keyset) (d : ℕ) (w : Power) (s : Session (env.World × Power))
      → s.world.1 ≡ w
      → Outcome
          (λ (_ : PendingOut) s'. s'.world.1 ≡ w)
          (λ e s'. s'.world.1 ≡ w)
          (prepare_output c flash pinned d s)
  unfolding prepare_output
  prepare_output-SameDisk pinned d w s same =
      elim (Result-cases (keyset_for "(not pinned)" (keyset_id_for d) pinned)) [
        | inr (_, e1) ↦ rw e1 same
        | inl (ks, e1) ↦ elim (Result-cases (modulus_of c ks)) [
          | inr (_, e2) ↦ rw (e1, e2) same
          | inl (n, e2) ↦ rw (e1, e2) same
        ]
      ]

  prepare_outputs-SameDisk :
      (pinned : List Keyset) (amounts : List ℕ) (w : Power) (s : Session (env.World × Power))
      → s.world.1 ≡ w
      → Outcome
          (λ (_ : List PendingOut) s'. s'.world.1 ≡ w)
          (λ e s'. s'.world.1 ≡ w)
          (prepare_outputs c flash pinned amounts s)
  unfolding prepare_outputs
  prepare_outputs-SameDisk pinned [] w s same = same
  prepare_outputs-SameDisk pinned (d ∷ amounts) w s same =
      bind-Outcome (λ (_ : PendingOut) s'. s'.world.1 ≡ w)
        (λ (_ : List PendingOut) s'. s'.world.1 ≡ w) (λ e s'. s'.world.1 ≡ w)
        (prepare_output c flash pinned d) _ s (prepare_output-SameDisk pinned d w s same)
        (λ o s1 same1.
          bind-Outcome (λ (_ : List PendingOut) s'. s'.world.1 ≡ w)
            (λ (_ : List PendingOut) s'. s'.world.1 ≡ w) (λ e s'. s'.world.1 ≡ w)
            (prepare_outputs c flash pinned amounts) _ s1
            (prepare_outputs-SameDisk pinned amounts w s1 same1) (λ outs s2 same2. same2))

  pub make_change-Safe :
      (amount : ℕ) (s : Session (env.World × Power))
      → s.state.pending_swap ≡ none
      → SafeNow s
      → Outcome IdleNow Stopped (make_change c flash amount s)
  unfolding make_change
  make_change-Safe amount s idle (kept, disk) =
      require_client-Outcome IdleNow Stopped _ s (kept, disk)
        (elim (Result-cases (plan_swap s.state amount)) [
          | inr (_, e1) ↦ rw e1 (kept, disk)
          | inl ((idx, amounts), e1) ↦
              let plan = plan_swap-IsPlan s.state amount idx amounts e1 in
              let pinned = pinned_keysets s.state in
              let outputs = prepare_outputs c flash pinned amounts in
              let both =
                Outcome-both (AllPrepared c flash pinned s.state amounts)
                  (λ _ s1. s1.world.1 ≡ s.world.1) (λ e s1. s1.state ≡ s.state)
                  (λ e s1. s1.world.1 ≡ s.world.1) (outputs s)
                  (prepare_outputs-AllPrepared c flash pinned s.state amounts s
                    plan.outputs.denominations refl)
                  (prepare_outputs-SameDisk pinned amounts s.world.1 s refl) in
              rw e1 (
                bind-Outcome
                  (λ outs s'.
                    AllPrepared c flash pinned s.state amounts outs s' × (s'.world.1 ≡ s.world.1))
                  IdleNow Stopped outputs _ s
                  (Outcome-imp (outputs s) (λ outs s1 h. h)
                    (λ e s1 (h : (s1.state ≡ s.state) × (s1.world.1 ≡ s.world.1)).
                      (rw (h.0) kept, rw (h.1) disk))
                    both)
                  (λ outs s1 ((all, values, same1), same_disk).
                    let next = pending_state s.state idx outs in
                    let pending : Conserves before next = Conserves-trans before s.state next kept (
                      pending_state-Conserves s.state amount idx amounts outs idle plan all
                        values) in
                    commit-OnFlash codec lawful has_parent P env IdleNow Stopped next _ s1
                      (safe next pending) (rw same_disk disk)
                      (λ e s2 same2 disk2. (rw (same2, same1) kept, disk2))
                      (λ s2 after written.
                        complete_pending_swap-Safe codec lawful has_parent env c before P safe true
                          s2
                          (
                            rw after pending,
                            Written-OnFlash codec lawful has_parent P env next s2
                                (safe next pending) written,
                          ))))
        ])

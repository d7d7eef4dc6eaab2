-- ===== src/Vault/Flash/Swap.antt =====
-- What the flash holds while a swap is completed or given up.
use fupi.Common.{
  ◌≡◌, refl, inl, inr, String, Bool, true, false, ◌==◌, ==_iff, Option, none, some, List, length,
  Bool-cases, is_none, if◌then◌else◌,
}
use fupi.Common.Result.{Result, ok, err}
use fupi.Types.{FlashState, PendingSwap}
use fupi.Crypto.{Crates}
use fupi.Storage.{Codec}
use fupi.Storage.Load.{IsLawful}
use fupi.Vault.Errors.{VaultError, ClientError, client, http_status, transport, serialization}
use fupi.Vault.Environment.{Environment}
use fupi.Vault.Session.{Session, pure, throw, commit, ◌>>◌}
use fupi.Vault.Session.Steps.{
  Result-cases, Outcome, Outcome-imp, bind-Outcome, require_client-Outcome,
}
use fupi.Vault.Keysets.{pinned_keysets}
use fupi.Vault.Issue.{finish_outputs}
use fupi.Vault.Swap.{
  give_up, abandon_pending, swap_answer, swap_request, store_signatures, complete_swap,
  finish_pending, complete_pending_swap, recover, restored_state, swapped_state,
}
use fupi.Vault.Swap.Holdings.{finish_outputs-AllIssued}
use fupi.Vault.Swap.Balance.{
  IsBalanced, Conserves, restored_state-Conserves, swapped_state-Conserves,
}
use fupi.Vault.Swap.Change.{Conserves-trans}
use fupi.Vault.Flash.{Power, on_flash}
use fupi.Vault.Flash.Steps.{Written, Written-OnFlash, OnFlashOf, committed-OnFlash, commit-OnFlash}

module _ (codec : Codec) (lawful : IsLawful codec) (has_parent : Bool) (env : Environment)
    (c : Crates) (before : FlashState) (P : FlashState → Type 0)
    (safe : (st : FlashState) → Conserves before st → P st) where
  abbrev pub flash : Environment
  flash = on_flash codec has_parent env

  -- A state of which `P` holds is on the flash.
  abbrev pub OnDisk : Session (env.World × Power) → Type 0
  OnDisk = OnFlashOf codec lawful has_parent P env

  -- The vault holds what it held before, and so does a state on the flash, or `P` of that one.
  abbrev pub Safe : Session (env.World × Power) → Type 0
  Safe s = Conserves before s.state × OnDisk s

  abbrev pub SafeError : VaultError → Session (env.World × Power) → Type 0
  SafeError e s = Safe s

  -- Safe, with no swap unfinished.
  abbrev pub Idle : {A : Type 0} → A → Session (env.World × Power) → Type 0
  Idle a s = (s.state.pending_swap ≡ none) × Safe s

  give_up-Safe :
      (slot : Option PendingSwap) (s : Session (env.World × Power))
      → s.state.pending_swap ≡ slot
      → Safe s
      → Outcome (λ (_ : Bool) s'. Safe s') SafeError (give_up c flash slot s)
  unfolding give_up
  give_up-Safe none s pending h = h
  give_up-Safe (some p) s pending (kept, disk) =
      let restored : Conserves before (restored_state s.state p) =
        Conserves-trans before s.state (restored_state s.state p) kept
          (restored_state-Conserves s.state p pending) in
      commit-OnFlash codec lawful has_parent P env (λ (_ : Bool) s'. Safe s') SafeError
        (restored_state s.state p) _ s (safe (restored_state s.state p) restored) disk
        (λ e s' same disk'. (rw same kept, disk'))
        (λ s' after written. (
          rw after restored,
          Written-OnFlash codec lawful has_parent P env _ s' (safe _ restored) written,
        ))

  swap_answer-Safe :
      (first_attempt : Bool) (answer : Result ClientError (List String))
      (s : Session (env.World × Power))
      → Safe s
      → Outcome
          (λ (_ : List String) s'. (s'.state ≡ s.state) × Safe s')
          SafeError
          (swap_answer c flash first_attempt answer s)
  unfolding swap_answer abandon_pending
  swap_answer-Safe first_attempt (ok sigs) s h = (refl, h)
  swap_answer-Safe true (err (http_status code body)) s h =
      bind-Outcome (λ (_ : Bool) s'. Safe s')
        (λ (_ : List String) s'. (s'.state ≡ s.state) × Safe s') SafeError (abandon_pending c flash)
        (λ _. throw (client (http_status code body))) s (give_up-Safe s.state.pending_swap s refl h)
        (λ _ s1 h1. h1)
  swap_answer-Safe false (err (http_status code body)) s h = h
  swap_answer-Safe true (err (transport e)) s h = h
  swap_answer-Safe false (err (transport e)) s h = h
  swap_answer-Safe true (err (serialization e)) s h = h
  swap_answer-Safe false (err (serialization e)) s h = h

  store_signatures-Safe :
      (p : PendingSwap) (sigs : List String) (s : Session (env.World × Power))
      → s.state.pending_swap ≡ some p
      → IsBalanced (some p)
      → Safe s
      → Outcome Idle SafeError (store_signatures c flash p sigs s)
  unfolding store_signatures
  store_signatures-Safe p sigs s pending b (kept, disk) =
      elim (Bool-cases (length sigs == length p.outputs)) [
        | inr other ↦ rw other (kept, disk)
        | inl equal ↦
            elim (Result-cases (finish_outputs c (pinned_keysets s.state) p.outputs sigs)) [
              | inr (_, e) ↦ rw (equal, e) (kept, disk)
              | inl (fresh, e) ↦
                  let all =
                    finish_outputs-AllIssued c (pinned_keysets s.state) p.outputs sigs fresh
                      ((==_iff _ _).0 equal) e in
                  let next = swapped_state s.state p fresh in
                  let swapped : Conserves before next =
                    Conserves-trans before s.state next kept
                      (swapped_state-Conserves c s.state p fresh pending b all) in
                  rw (equal, e)
                    (Outcome-imp (commit flash next s)
                      (λ _ s'
                          (k : (s'.state ≡ next) × Written codec lawful has_parent P env next s').
                        (
                          rw (k.0) (unfold swapped_state in refl),
                          (
                            rw (k.0) swapped,
                            Written-OnFlash codec lawful has_parent P env next s'
                                (safe next swapped) (k.1),
                          ),
                        ))
                      (λ e s' (k : (s'.state ≡ s.state) × OnDisk s'). (rw (k.0) kept, k.1))
                      (committed-OnFlash codec lawful has_parent P env next s (safe next swapped)
                        disk))
            ]
      ]

  module _ (first_attempt : Bool) where
    complete_swap-Safe :
        (p : PendingSwap) (s : Session (env.World × Power))
        → s.state.pending_swap ≡ some p
        → IsBalanced (some p)
        → Safe s
        → Outcome Idle SafeError (complete_swap c flash p first_attempt s)
    unfolding complete_swap
    complete_swap-Safe p s pending b h =
        let (answer, w) = env.swap p.inputs (swap_request p.outputs) s.world.0 in
        let s1 : Session (env.World × Power) = record s { world = (w, s.world.1) } in
        require_client-Outcome Idle SafeError _ s h (
          bind-Outcome (λ (_ : List String) s'. (s'.state ≡ s.state) × Safe s') Idle SafeError
            (swap_answer c flash first_attempt answer) (store_signatures c flash p) s1
            (swap_answer-Safe first_attempt answer s1 h)
            (λ sigs s2 (same, h2). store_signatures-Safe p sigs s2 (rw same pending) b h2))

    finish_pending-Safe :
        (slot : Option PendingSwap) (s : Session (env.World × Power))
        → s.state.pending_swap ≡ slot
        → IsBalanced slot
        → Safe s
        → Outcome Idle SafeError (finish_pending c flash first_attempt slot s)
    unfolding finish_pending
    finish_pending-Safe none s pending b h = (pending, h)
    finish_pending-Safe (some p) s pending b h = complete_swap-Safe p s pending b h

    pub complete_pending_swap-Safe :
        (s : Session (env.World × Power))
        → Safe s
        → Outcome Idle SafeError (complete_pending_swap c flash first_attempt s)
    unfolding complete_pending_swap
    complete_pending_swap-Safe s h = finish_pending-Safe s.state.pending_swap s refl h.0.0 h

  recover_slot-Safe :
      (slot : Option PendingSwap) (s : Session (env.World × Power))
      → s.state.pending_swap ≡ slot
      → Safe s
      → Outcome Idle SafeError (
          (if is_none slot then pure false else (complete_pending_swap c flash false >> pure true))
            s)
  recover_slot-Safe none s pending h = (pending, h)
  recover_slot-Safe (some p) s pending h =
      bind-Outcome Idle Idle SafeError (complete_pending_swap c flash false) _ s
        (complete_pending_swap-Safe false s h) (λ _ s' done. done)

  pub recover-Safe :
      (s : Session (env.World × Power)) → Safe s → Outcome Idle SafeError (recover c flash s)
  unfolding recover
  recover-Safe s h = recover_slot-Safe s.state.pending_swap s refl h

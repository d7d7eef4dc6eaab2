-- ===== src/Vault/Swap/Balance.antt =====
-- What the vault holds, with the inputs of an unfinished swap, is the same behind every step of a swap.
use fupi.Common.{
  ℕ, ◌+◌, ◌≡◌, refl, inl, inr, Bool, true, false, Option, none, some, List, arith, All, is_none,
  if◌then◌else◌,
}
use fupi.Common.Sums.{sum-map_append}
use fupi.Types.{Proof, FlashState, PendingSwap}
use fupi.Denom.{proof_value}
use fupi.Crypto.{Crates}
use fupi.Vault.Errors.{VaultError}
use fupi.Vault.Environment.{Environment}
use fupi.Vault.Session.{Session, ◌>>◌, pure}
use fupi.Vault.Session.Steps.{Outcome, Outcome-imp, bind-Outcome}
use fupi.Vault.Keysets.{pinned_keysets}
use fupi.Vault.Coins.{token_value, balance}
use fupi.Vault.Swap.{
  output_value, swapped_state, restored_state, complete_swap, finish_pending, complete_pending_swap,
  recover,
}
use fupi.Vault.Swap.Holdings.{IsPrepared, AllIssued, AllIssued-value}
use fupi.Vault.Swap.Completion.{complete_swap_outcome}

-- The value of the inputs that an unfinished swap holds back.
abbrev pub held_back : Option PendingSwap → ℕ
held_back none = 0
held_back (some p) = token_value p.inputs

-- All that the vault can still spend or get back.
abbrev pub holdings : FlashState → ℕ
holdings state = balance state + held_back state.pending_swap

-- The outputs of an unfinished swap are well formed, and worth its inputs.
abbrev pub IsBalanced : Option PendingSwap → Type 0
IsBalanced none = Unit
IsBalanced (some p) = All IsPrepared p.outputs × (output_value p ≡ token_value p.inputs)

-- From one state to another: the swap is balanced, and nothing is lost or made.
abbrev pub Conserves : FlashState → FlashState → Type 0
Conserves before after = IsBalanced after.pending_swap × (holdings after ≡ holdings before)

pub holdings-slot :
    (state : FlashState) (slot : Option PendingSwap)
    → state.pending_swap ≡ slot
    → holdings state ≡ balance state + held_back slot
holdings-slot state slot e = rw e refl

pub restored_state-Conserves :
    (state : FlashState) (p : PendingSwap)
    → state.pending_swap ≡ some p
    → Conserves state (restored_state state p)
unfolding restored_state balance token_value
restored_state-Conserves state p e = (
  tt,
  omega (arith, sum-map_append proof_value state.proofs p.inputs, holdings-slot state (some p) e),
)

-- The proofs that a balanced swap brings are worth its inputs.
pub swapped_state-Conserves :
    (c : Crates) (state : FlashState) (p : PendingSwap) (fresh : List Proof)
    → state.pending_swap ≡ some p
    → IsBalanced (some p)
    → AllIssued c (pinned_keysets state) p.outputs fresh
    → Conserves state (swapped_state state p fresh)
unfolding swapped_state balance token_value output_value
swapped_state-Conserves c state p fresh pending (prepared, worth) issued = (
  tt,
  omega (
    arith,
    worth,
    sum-map_append proof_value state.proofs fresh,
    AllIssued-value c (pinned_keysets state) p.outputs fresh prepared issued,
    holdings-slot state (some p) pending,
  ),
)

module _ (c : Crates) (env : Environment) (first_attempt : Bool) where
  abbrev pub Finished : FlashState → Unit {0} → Session env.World → Type 0
  Finished before done s = (s.state.pending_swap ≡ none) × Conserves before s.state

  abbrev pub Unfinished : FlashState → VaultError → Session env.World → Type 0
  Unfinished before e s = Conserves before s.state

  complete_swap-Conserves :
      (p : PendingSwap) (s : Session env.World)
      → s.state.pending_swap ≡ some p
      → IsBalanced (some p)
      → Outcome (Finished s.state) (Unfinished s.state) (complete_swap c env p first_attempt s)
  complete_swap-Conserves p s pending b =
      Outcome-imp (complete_swap c env p first_attempt s)
        (λ done s' w. rw (w.after) (
          unfold swapped_state in refl,
          swapped_state-Conserves c s.state p w.fresh pending b w.issued,
        ))
        (λ e s' h. elim h [
          | inl kept ↦ rw (kept.0) (rw (pending, IsBalanced) b, refl)
          | inr refused ↦
              let (q, pending', after) = refused.abandoned in
              rw after (restored_state-Conserves s.state q pending')
        ])
        (complete_swap_outcome c env p first_attempt s)

  finish_pending-Conserves :
      (slot : Option PendingSwap) (s : Session env.World)
      → s.state.pending_swap ≡ slot
      → IsBalanced slot
      → Outcome (Finished s.state) (Unfinished s.state) (finish_pending c env first_attempt slot s)
  unfolding finish_pending
  finish_pending-Conserves none s pending b = (pending, (rw pending tt, refl))
  finish_pending-Conserves (some p) s pending b = complete_swap-Conserves p s pending b

  -- Completing the swap of a balanced state keeps what the vault holds, on every branch; where it
  -- returns, no swap is left.
  pub complete_pending_swap-Conserves :
      (s : Session env.World)
      → IsBalanced s.state.pending_swap
      → Outcome
          (Finished s.state)
          (Unfinished s.state)
          (complete_pending_swap c env first_attempt s)
  unfolding complete_pending_swap
  complete_pending_swap-Conserves s b = finish_pending-Conserves s.state.pending_swap s refl b

module _ (c : Crates) (env : Environment) (s : Session env.World)
    (b : IsBalanced s.state.pending_swap) where
  recover_slot :
      (idle : Bool)
      → (idle ≡ true → s.state.pending_swap ≡ none)
      → Outcome
          (λ (_ : Bool) s'. (s'.state.pending_swap ≡ none) × Conserves s.state s'.state)
          (λ e s'. Conserves s.state s'.state)
          ((if idle then pure false else (complete_pending_swap c env false >> pure true)) s)
  recover_slot true h = (h refl, (b, refl))
  recover_slot false h =
      bind-Outcome (Finished c env false s.state)
        (λ (_ : Bool) s'. (s'.state.pending_swap ≡ none) × Conserves s.state s'.state)
        (λ e s'. Conserves s.state s'.state) (complete_pending_swap c env false) _ s
        (complete_pending_swap-Conserves c env false s b) (λ _ s' finished. finished)

  is_none→none : (slot : Option PendingSwap) → is_none slot ≡ true → slot ≡ none
  is_none→none none h = refl
  is_none→none (some p) h = cc

  -- Recovery keeps what the vault holds; where it returns, no swap is left.
  pub recover-Conserves :
      Outcome
        (λ (_ : Bool) s'. (s'.state.pending_swap ≡ none) × Conserves s.state s'.state)
        (λ e s'. Conserves s.state s'.state)
        (recover c env s)
  unfolding recover
  recover-Conserves =
      recover_slot (is_none s.state.pending_swap) (is_none→none s.state.pending_swap)

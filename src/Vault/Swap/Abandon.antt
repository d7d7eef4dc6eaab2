-- ===== src/Vault/Swap/Abandon.antt =====
-- Nothing is lost between the write-ahead of a swap and its abandonment.
use fupi.Common.{ℕ, ◌+◌, ◌<◌, ◌≡◌, refl, some, List, map, arith, All}
use fupi.Common.Sums.{sum, sum-map_append}
use fupi.Common.Sorting.{Pairwise}
use fupi.Types.{Proof, FlashState, PendingOut, PendingSwap}
use fupi.Vault.Coins.{chosen_at, remove_all}
use fupi.Vault.Coins.Removal.{IsIndex, sum-remove_all}
use fupi.Vault.Swap.{pending_state, restored_state}

-- The write-ahead state holds back just the inputs of the swap, and abandoning it brings the proofs
-- back to what they were, by every weight on proofs, for strictly rising indices of proofs.
restored_state-pending_state :
    (f : Proof → ℕ) (state : FlashState) (idx : List ℕ) (outputs : List PendingOut)
    → Pairwise ◌<◌ idx
    → All (IsIndex state.proofs) idx
    → (p : PendingSwap) × ((pending_state state idx outputs).pending_swap ≡ some p)
      × (p.outputs ≡ outputs)
      × (sum (map f (pending_state state idx outputs).proofs) + sum (map f p.inputs)
          ≡ sum (map f state.proofs))
      × (sum (map f (restored_state (pending_state state idx outputs) p).proofs)
          ≡ sum (map f state.proofs))
unfolding pending_state restored_state
restored_state-pending_state f state idx outputs rising valid =
    let moved = sum-remove_all f idx state.proofs rising valid in
    (
      record { inputs = chosen_at idx state.proofs; outputs = outputs },
      refl,
      refl,
      omega (arith, moved),
      omega (
        arith,
        moved,
        sum-map_append f (remove_all idx state.proofs) (chosen_at idx state.proofs),
      ),
    )

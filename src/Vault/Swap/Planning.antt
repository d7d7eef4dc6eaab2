-- ===== src/Vault/Swap/Planning.antt =====
-- What a swap takes in and asks for: the first part of `make_change`.
use fupi.Common.{
  ℕ, zero, suc, ◌+◌, ◌-◌, ◌<>◌, Option, none, some, List, [], ◌∷◌, ◌++◌, map, reverse, ltb, leb,
  if◌then◌else◌, filter_map,
}
use fupi.Common.Result.{Result, ok, err}
use fupi.Common.Text.{show}
use fupi.Common.Sums.{sum}
use fupi.Common.Sorting.{sort_by}
use fupi.Types.{Keyset, FlashState}
use fupi.Denom.{denomination_of, split_amount}
use fupi.Vault.Errors.{VaultError, insufficient_funds, unsupported_amount}
use fupi.Vault.Keysets.{pinned_keysets}
use fupi.Vault.Coins.{candidates, total_of, index_at, ascending}

-- The denominations of a list of keysets.
unfoldable pub denominations_of : List Keyset → List ℕ
denominations_of = filter_map (λ k. denomination_of k.keyset_id)

-- `cand.iter().position(|c| c.1 > target)`, from a first index
unfoldable pub position_above : ℕ → ℕ → List (ℕ × ℕ) → Option ℕ
position_above target i [] = none
position_above target i (c ∷ cand) =
    let later = position_above target (suc i) cand in if ltb target c.1 then some i else later

-- The loop from the largest coin down: positions, until their values reach the target. The list is
-- the candidates with their positions, largest first.
unfoldable pub gather : ℕ → ℕ → List (ℕ × ℕ) → List ℕ
gather target sum_ [] = []
gather target sum_ ((pos, value) ∷ rest) =
    let more = gather target (sum_ + value) rest in
    if leb target (sum_ + value) then pos ∷ [] else pos ∷ more

-- Positions with their values.
unfoldable pub positions : ℕ → List (ℕ × ℕ) → List (ℕ × ℕ)
positions i [] = []
positions i (c ∷ cand) = (i, c.1) ∷ positions (suc i) cand

-- The smallest single coin above the target, or the largest coins until they reach it: positions in
-- the candidates, which are in ascending order.
unfoldable pub choose_inputs : ℕ → List (ℕ × ℕ) → List ℕ
unfolding position_above gather positions
choose_inputs target cand = elim (position_above target 0 cand) [
  | some pos ↦ pos ∷ []
  | none ↦ gather target 0 (reverse (positions 0 cand))
]

-- `cand[p].1`
unfoldable pub amount_at : List (ℕ × ℕ) → ℕ → ℕ
amount_at [] p = 0
amount_at (c ∷ cand) zero = c.1
amount_at (c ∷ cand) (suc p) = amount_at cand p

-- `cand.sort_by_key(|c| c.1)`
unfoldable pub smallest_first : List (ℕ × ℕ) → List (ℕ × ℕ)
unfolding sort_by
smallest_first = sort_by (λ a b. ltb b.1 a.1)

-- The amounts of the new proofs: the target, then the change.
unfoldable pub output_amounts : ℕ → ℕ → List ℕ → Result VaultError (List ℕ)
output_amounts target in_total avail = elim (split_amount target avail) [
  | none ↦ err (unsupported_amount (show target <> " cannot be made from pinned denominations"))
  | some amounts ↦
      if ltb target in_total
      then (elim (split_amount (in_total - target) avail) [
        | none ↦ err (unsupported_amount "change cannot be made from pinned denominations")
        | some change ↦ ok (amounts ++ change)
      ])
      else ok amounts
]

-- What a swap takes in and what it asks for.
unfoldable pub plan_swap : FlashState → ℕ → Result VaultError (List ℕ × List ℕ)
unfolding candidates total_of smallest_first choose_inputs output_amounts denominations_of ascending
plan_swap state target =
    let cand = candidates none state.proofs in
    let sorted = smallest_first cand in
    let chosen = choose_inputs target sorted in
    let in_total = sum (map (λ p. amount_at sorted p) chosen) in
    if ltb (total_of cand) target
    then err (insufficient_funds (total_of cand) target)
    else (elim (output_amounts target in_total (denominations_of (pinned_keysets state))) [
      | err e ↦ err e
      | ok amounts ↦ ok (ascending (map (λ p. index_at sorted p) chosen), amounts)
    ])

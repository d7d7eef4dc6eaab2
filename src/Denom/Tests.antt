-- ===== src/Denom/Tests.antt =====
-- The denominations at work, and the theorems about them at concrete inputs.
use fupi.Common.{ℕ, ◌≤◌, ◌≡◌, refl, inl, inr, none, some, List, [], ◌∷◌, arith, All, length}
use fupi.Common.Sums.{sum}
use fupi.Denom.{denominations, split_amount, max_split_proofs, exact_subset}
use fupi.Denom.Split.{IsOffered, split_amount_sound, split_amount_total}
use fupi.Denom.Reach.{IsFalling, total_at}
use fupi.Denom.Subset.{exact_subset_sound, exact_subset_complete}

split_1288 :
    split_amount 1288 denominations ≡ some (500 ∷ 500 ∷ 200 ∷ 50 ∷ 20 ∷ 10 ∷ 5 ∷ 2 ∷ 1 ∷ [])
unfolding split_amount
split_1288 = refl

-- A greedy split gives up although 2 + 2 + 2 would do.
split_6 : split_amount 6 (5 ∷ 2 ∷ []) ≡ none
unfolding split_amount
split_6 = refl

abbrev coins : List ℕ
coins = 50 ∷ 20 ∷ 20 ∷ 5 ∷ []

subset_45 : exact_subset coins 45 ≡ some (3 ∷ 2 ∷ 1 ∷ [])
unfolding exact_subset
subset_45 = refl

subset_30 : exact_subset coins 30 ≡ none
unfolding exact_subset
subset_30 = refl

exact_subset_sound_example :
    IsFalling (length coins) (3 ∷ 2 ∷ 1 ∷ []) × (total_at coins (3 ∷ 2 ∷ 1 ∷ []) ≡ 45)
exact_subset_sound_example = exact_subset_sound coins 45 (3 ∷ 2 ∷ 1 ∷ []) subset_45

exact_subset_complete_example : (idx : List ℕ) × (exact_subset coins 25 ≡ some idx)
exact_subset_complete_example =
    exact_subset_complete coins 25 (inl (inr (omega arith, inl (inr (omega arith, refl)))))
      (omega arith)

abbrev eight : List ℕ
eight = 5 ∷ 2 ∷ 1 ∷ []

split_amount_sound_example :
    (sum eight ≡ 8) × (length eight ≤ max_split_proofs) × All (IsOffered denominations) eight
unfolding split_amount
split_amount_sound_example = split_amount_sound 8 denominations eight refl

split_amount_total_example : (out : List ℕ) × (split_amount 288 denominations ≡ some out)
split_amount_total_example = split_amount_total 288 denominations refl (omega arith)

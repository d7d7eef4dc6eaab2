-- ===== src/Vault/Payment/Complete.antt =====
-- When a payment finds its coins.
use fupi.Common.{
  ℕ, ◌-◌, ◌≤◌, ◌≡◌, refl, Bool, false, inl, inr, Option, List, [], ◌∷◌, map, arith, Bool-cases, ltb,
}
use fupi.Common.Result.{ok}
use fupi.Common.Sums.{sum}
use fupi.Common.Sorting.{insert_by, sort_by}
use fupi.Types.{Proof}
use fupi.Denom.{max_exact_target}
use fupi.Denom.Fill.{IsSubsetSum}
use fupi.Denom.Subset.{exact_subset_complete}
use fupi.Vault.Coins.{candidates, total_of, index_at, ascending}
use fupi.Vault.Payment.{largest_first, pick_from, select_coins}

IsSubsetSum-sum : (vs : List ℕ) (t : ℕ) → IsSubsetSum vs t → t ≤ sum vs
IsSubsetSum-sum [] t h = omega (arith, h)
IsSubsetSum-sum (v ∷ vs) t (inl without) = omega (arith, IsSubsetSum-sum vs t without)
IsSubsetSum-sum (v ∷ vs) t (inr (le, using)) = omega (arith, le, IsSubsetSum-sum vs (t - v) using)

swap_front :
    (v w : ℕ) (vs : List ℕ) (t : ℕ) → IsSubsetSum (v ∷ w ∷ vs) t → IsSubsetSum (w ∷ v ∷ vs) t
swap_front v w vs t (inl (inl h)) = inl (inl h)
swap_front v w vs t (inl (inr (le, h))) = inr (le, inl h)
swap_front v w vs t (inr (le, inl h)) = inl (inr (le, h))
swap_front v w vs t (inr (le, inr (le2, h))) =
    let e : t - v - w ≡ t - w - v = omega arith in inr (omega arith, inr (omega arith, rw e at h))

module _ (after : ℕ × ℕ → ℕ × ℕ → Bool) where
  insert_by-IsSubsetSum :
      (x : ℕ × ℕ) (xs : List (ℕ × ℕ)) (t : ℕ)
      → IsSubsetSum (map (λ c. c.1) (x ∷ xs)) t
      → IsSubsetSum (map (λ c. c.1) (insert_by after x xs)) t
  unfolding insert_by
  insert_by-IsSubsetSum x [] t h = h
  insert_by-IsSubsetSum x (y ∷ ys) t h = elim (Bool-cases (after x y)) [
    | inr e ↦ rw e h
    | inl e ↦ rw e (elim (swap_front x.1 y.1 (map (λ c. c.1) ys) t h) [
      | inl without ↦ inl (insert_by-IsSubsetSum x ys t without)
      | inr (le, using) ↦ inr (le, insert_by-IsSubsetSum x ys (t - y.1) using)
    ])
  ]

  sort_by-IsSubsetSum :
      (xs : List (ℕ × ℕ)) (t : ℕ)
      → IsSubsetSum (map (λ c. c.1) xs) t
      → IsSubsetSum (map (λ c. c.1) (sort_by after xs)) t
  unfolding sort_by
  sort_by-IsSubsetSum [] t h = h
  sort_by-IsSubsetSum (x ∷ xs) t h = insert_by-IsSubsetSum x (sort_by after xs) t (elim h [
    | inl without ↦ inl (sort_by-IsSubsetSum xs t without)
    | inr (le, using) ↦ inr (le, sort_by-IsSubsetSum xs (t - x.1) using)
  ])

-- The selection finds coins whenever some of the coins with the wanted lock add up to the amount, and
-- the amount is within the limit of a payment.
pub select_coins_complete :
    (proofs : List Proof) (want : Option (List ℕ)) (amount : ℕ)
    → IsSubsetSum (map (λ c. c.1) (candidates want proofs)) amount
    → amount ≤ max_exact_target
    → (idx : List ℕ) × (select_coins proofs want amount ≡ ok idx)
unfolding select_coins largest_first total_of
select_coins_complete proofs want amount sub le =
    let cand = candidates want proofs in
    let sorted = sort_by (λ (a : ℕ × ℕ) (b : ℕ × ℕ). ltb a.1 b.1) cand in
    let room = IsSubsetSum-sum _ amount sub in
    let enough : ltb (total_of cand) amount ≡ false = ground arith in
    let (pick, found) =
      exact_subset_complete (map (λ c. c.1) sorted) amount (sort_by-IsSubsetSum _ cand amount sub)
        le in
    (ascending (map (λ j. index_at sorted j) pick), rw (enough, found, pick_from) refl)

-- ===== src/Vault/Payment/Conserves.antt =====
-- What a payment takes from the vault: distinct coins with the wanted lock, worth exactly the amount.
use fupi.Common.{
  ℕ, zero, suc, ◌<◌, ◌≤◌, ◌≡◌, refl, ◌≢◌, true, inl, inr, Option, none, some, List, [], ◌∷◌, map,
  arith, All, All-imp, get_elem?, length, length-map, Bool-cases, Option-cases, sym, ltb,
}
use fupi.Common.Result.{ok}
use fupi.Common.Sums.{sum}
use fupi.Common.Sorting.{
  Pairwise, sort_by, All-sort_by, Pairwise-sort_by, Pairwise-lt-sort_by, sum-sort_by,
}
use fupi.Types.{Proof}
use fupi.Denom.{proof_value, exact_subset}
use fupi.Denom.Reach.{IsFalling, total_at, value_at}
use fupi.Denom.Subset.{exact_subset_sound}
use fupi.Vault.Coins.{
  lock_or_none, lock_eq, candidates, index_at, chosen_at, total_of, token_value, ascending,
}
use fupi.Vault.Coins.Candidates.{IsCandidate, Distinct, candidates-Distinct, candidates-All}
use fupi.Vault.Coins.Removal.{IsIndex, sum-chosen_at, All-chosen_at}
use fupi.Vault.Payment.{largest_first, pick_from, select_coins}

index_at-holds :
    (P : ℕ × ℕ → Type 0) (cand : List (ℕ × ℕ)) (j : ℕ)
    → j < length cand
    → All P cand
    → P (index_at cand j, value_at (map (λ c. c.1) cand) j)
unfolding index_at
index_at-holds P [] j lt h = absurd (omega arith)
index_at-holds P (c ∷ cand) zero lt h = h.0
index_at-holds P (c ∷ cand) (suc j) lt h = index_at-holds P cand j (omega arith) h.1

index_at-Distinct :
    (cand : List (ℕ × ℕ)) (i j : ℕ)
    → j < i
    → i < length cand
    → Distinct cand
    → index_at cand i ≢ index_at cand j
unfolding index_at
index_at-Distinct [] i j lt le h = absurd (omega arith)
index_at-Distinct (c ∷ cand) zero j lt le h = absurd (omega arith)
index_at-Distinct (c ∷ cand) (suc i) zero lt le h =
    λ e. index_at-holds (λ d. c.0 ≢ d.0) cand i (omega arith) h.0 (sym e)
index_at-Distinct (c ∷ cand) (suc i) (suc j) lt le h =
    index_at-Distinct cand i j (omega arith) (omega arith) h.1

module _ (cand : List (ℕ × ℕ)) where
  picked-holds :
      (P : ℕ → Type 0) (b : ℕ) (pick : List ℕ)
      → IsFalling b pick
      → ((j : ℕ) → j < b → P (index_at cand j))
      → All P (map (λ j. index_at cand j) pick)
  picked-holds P b [] f h = tt
  picked-holds P b (i ∷ is) f h =
      (h i f.0, picked-holds P i is f.1 (λ j lt. h j (omega (arith, f.0))))

  picked-Distinct :
      (b : ℕ) (pick : List ℕ)
      → IsFalling b pick
      → b ≤ length cand
      → Distinct cand
      → Pairwise (λ x y. x ≢ y) (map (λ j. index_at cand j) pick)
  picked-Distinct b [] f le d = tt
  picked-Distinct b (i ∷ is) f le d =
      let inside : i < length cand = omega (arith, f.0) in
      (
        picked-holds (λ x. index_at cand i ≢ x) i is f.1
            (λ j lt. index_at-Distinct cand i j lt inside d),
        picked-Distinct i is f.1 (omega arith) d,
      )

  picked-sum :
      (g : ℕ → ℕ) (b : ℕ) (pick : List ℕ)
      → IsFalling b pick
      → b ≤ length cand
      → All (λ (c : ℕ × ℕ). g c.0 ≡ c.1) cand
      → sum (map g (map (λ j. index_at cand j) pick)) ≡ total_at (map (λ c. c.1) cand) pick
  picked-sum g b [] f le h = refl
  picked-sum g b (i ∷ is) f le h =
      let here = index_at-holds (λ c. g c.0 ≡ c.1) cand i (omega (arith, f.0)) h in
      omega (arith, here, picked-sum g i is f.1 (omega (arith, f.0)) h)

-- Proofs at strictly rising places, all with the wanted lock, and worth the amount together.
pub record IsSelection (proofs : List Proof) (want : Option (List ℕ)) (amount : ℕ) (idx : List ℕ)
    : Type 0 where
  pub rising : Pairwise ◌<◌ idx
  pub valid : All (IsIndex proofs) idx
  pub exact : token_value (chosen_at idx proofs) ≡ amount
  pub locked : All (λ p. lock_eq (lock_or_none p) want ≡ true) (chosen_at idx proofs)

abbrev value_of : List Proof → ℕ → ℕ
value_of proofs i = elim (get_elem? proofs i) [ none ↦ 0 | some p ↦ proof_value p ]

module _ (proofs : List Proof) (want : Option (List ℕ)) where
  value_of-worth : (e : ℕ × ℕ) → IsCandidate want proofs e → value_of proofs e.0 ≡ e.1
  value_of-worth e c = rw (c.found, value_of) c.worth

  value_of-found :
      (i : ℕ) (p : Proof) → get_elem? proofs i ≡ some p → proof_value p ≡ value_of proofs i
  value_of-found i p found = rw (found, value_of) refl

  -- Distinct places of candidates, in rising order, are a selection worth their values.
  pub candidates-IsSelection :
      (cand : List (ℕ × ℕ)) (amount : ℕ) (pick : List ℕ)
      → Distinct cand
      → All (IsCandidate want proofs) cand
      → IsFalling (length cand) pick
      → total_at (map (λ c. c.1) cand) pick ≡ amount
      → IsSelection proofs want amount (ascending (map (λ j. index_at cand j) pick))
  unfolding ascending token_value
  candidates-IsSelection cand amount pick d a falling adds =
      let idx = map (λ j. index_at cand j) pick in
      let sorted = sort_by (λ (x : ℕ) (y : ℕ). ltb y x) idx in
      let P : ℕ → Type 0 =
        λ i. (p : Proof) × (get_elem? proofs i ≡ some p) × (proof_value p ≡ value_of proofs i) in
      let Q : ℕ → Type 0 =
        λ i. (p : Proof) × (get_elem? proofs i ≡ some p) × (lock_eq (lock_or_none p) want ≡ true) in
      let found : All Q idx = picked-holds cand Q (length cand) pick falling (λ j lt.
        let c = index_at-holds (IsCandidate want proofs) cand j lt a in
        (c.proof, c.found, c.locked)) in
      let placed : All Q sorted = All-sort_by (λ x y. ltb y x) Q idx found in
      let worth =
        sum-chosen_at proof_value (value_of proofs) sorted proofs
          (All-imp Q P sorted (λ i q. (q.0, q.1, value_of-found i q.0 q.1)) placed) in
      let same = sum-sort_by (λ x y. ltb y x) (value_of proofs) idx in
      let picked = picked-sum cand (value_of proofs) (length cand) pick falling (omega arith) (
        All-imp (IsCandidate want proofs) (λ c. value_of proofs c.0 ≡ c.1) cand value_of-worth a) in
      record {
        rising =
            Pairwise-lt-sort_by idx
              (picked-Distinct cand (length cand) pick falling (omega arith) d);
        valid = All-imp Q (IsIndex proofs) sorted (λ i q. (q.0, q.1)) placed;
        exact = omega (arith, worth, same, picked, adds);
        locked = All-chosen_at (λ p. lock_eq (lock_or_none p) want ≡ true) sorted proofs placed;
      }

  pick_from-IsSelection :
      (cand : List (ℕ × ℕ)) (total amount : ℕ) (idx : List ℕ)
      → Distinct cand
      → All (IsCandidate want proofs) cand
      → pick_from cand total amount ≡ ok idx
      → IsSelection proofs want amount idx
  unfolding pick_from
  pick_from-IsSelection cand total amount idx d a h =
      let values = map (λ (c : ℕ × ℕ). c.1) cand in
      elim (Option-cases (exact_subset values amount)) [
        | inl none_found ↦ cc (rw (none_found, pick_from) at h)
        | inr (pick, found) ↦
            let (falling, adds) = exact_subset_sound values amount pick found in
            let e : ascending (map (λ j. index_at cand j) pick) ≡ idx =
              cc (rw (found, pick_from) at h) in
            rw (← e) (
              candidates-IsSelection cand amount pick d a
                (rw (length-map (λ (c : ℕ × ℕ). c.1) cand) at falling) adds)
      ]

  -- What the selection returns are distinct places of proofs with the wanted lock and the right sum.
  pub select_coins-IsSelection :
      (amount : ℕ) (idx : List ℕ)
      → select_coins proofs want amount ≡ ok idx
      → IsSelection proofs want amount idx
  unfolding select_coins largest_first
  select_coins-IsSelection amount idx h =
      let cand = candidates want proofs in
      elim (Bool-cases (ltb (total_of cand) amount)) [
        | inl short ↦ cc (rw short at h)
        | inr enough ↦
            pick_from-IsSelection (largest_first cand) (total_of cand) amount idx
              (Pairwise-sort_by _ (λ a b. a.0 ≢ b.0) (λ a b ne e. ne (sym e)) cand
                (candidates-Distinct want proofs))
              (All-sort_by _ (IsCandidate want proofs) cand (candidates-All want proofs))
              (rw enough at h)
      ]

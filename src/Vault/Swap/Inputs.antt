-- ===== src/Vault/Swap/Inputs.antt =====
-- The inputs that a swap takes: each coin once, and enough of them.
use fupi.Common.{
  ℕ, zero, suc, ◌+◌, ◌≤◌, ◌<◌, ◌≡◌, refl, inl, inr, some, List, [], ◌∷◌, ◌++◌, map, reverse, arith,
  length, All, All-append, ltb, leb, ltb→lt, leb→le, Bool-cases, Option-cases,
}
use mathlib.Core.List.{reverse-cons}
use fupi.Common.Sums.{sum, sum-map_append}
use fupi.Denom.Reach.{IsFalling, IsFalling-le, value_at, total_at}
use fupi.Vault.Swap.{position_above, gather, positions, choose_inputs, amount_at}

amount_at-value_at :
    (cand : List (ℕ × ℕ)) (p : ℕ) → amount_at cand p ≡ value_at (map (λ c. c.1) cand) p
unfolding amount_at
amount_at-value_at [] p = refl
amount_at-value_at (c ∷ cand) zero = refl
amount_at-value_at (c ∷ cand) (suc p) = amount_at-value_at cand p

-- The value of what is chosen, as the source sums it.
abbrev pub amounts_at : List (ℕ × ℕ) → List ℕ → ℕ
amounts_at cand chosen = sum (map (λ p. amount_at cand p) chosen)

pub amounts_at-total_at :
    (cand : List (ℕ × ℕ)) (chosen : List ℕ)
    → amounts_at cand chosen ≡ total_at (map (λ c. c.1) cand) chosen
amounts_at-total_at cand [] = refl
amounts_at-total_at cand (p ∷ chosen) =
    omega (arith, amount_at-value_at cand p, amounts_at-total_at cand chosen)

position_above-some :
    (target i : ℕ) (cand : List (ℕ × ℕ)) (pos : ℕ)
    → position_above target i cand ≡ some pos
    → (k : ℕ) × (pos ≡ i + k) × (k < length cand) × (target < amount_at cand k)
unfolding position_above amount_at
position_above-some target i [] pos h = cc
position_above-some target i (c ∷ cand) pos h = elim (Bool-cases (ltb target c.1)) [
  | inl above ↦
      let e : i ≡ pos = cc (rw (above, position_above) at h) in
      (0, omega arith, omega arith, ltb→lt target c.1 above)
  | inr below ↦
      let (k, e, lt, more) =
        position_above-some target (suc i) cand pos (rw (below, position_above) at h) in
      (suc k, omega arith, omega arith, more)
]

-- Positions from the last to the first, in falling order, with the value at each.
abbrev first_of : List (ℕ × ℕ) → List ℕ
first_of = map (λ e. e.0)

IsFalling-push :
    (b i : ℕ) (xs : List (ℕ × ℕ)) (v : ℕ)
    → IsFalling b (first_of xs)
    → All (λ (e : ℕ × ℕ). i < e.0) xs
    → i < b
    → IsFalling b (first_of (xs ++ ((i, v) ∷ [])))
IsFalling-push b i [] v f a lt = (lt, tt)
IsFalling-push b i (x ∷ xs) v f a lt = (f.0, IsFalling-push x.0 i xs v f.1 a.1 a.0)

later_positions :
    (i j : ℕ) (cand : List (ℕ × ℕ))
    → i < j
    → All (λ (e : ℕ × ℕ). i < e.0) (reverse (positions j cand))
unfolding positions
later_positions i j [] lt = tt
later_positions i j (c ∷ cand) lt = rw (reverse-cons (j, c.1) (positions (suc j) cand)) (
    All-append (λ (e : ℕ × ℕ). i < e.0) _ _ (later_positions i (suc j) cand (omega arith)) (lt, tt))

positions-IsFalling :
    (i : ℕ) (cand : List (ℕ × ℕ))
    → IsFalling (i + length cand) (first_of (reverse (positions i cand)))
unfolding positions
positions-IsFalling i [] = tt
positions-IsFalling i (c ∷ cand) =
    let ih = positions-IsFalling (suc i) cand in
    let e : suc i + length cand ≡ i + suc (length cand) = omega arith in
    rw (reverse-cons (i, c.1) (positions (suc i) cand)) (
      IsFalling-push (i + suc (length cand)) i (reverse (positions (suc i) cand)) c.1 (rw e at ih)
        (later_positions i (suc i) cand (omega arith)) (omega arith))

gather-IsFalling :
    (target sum_ b : ℕ) (xs : List (ℕ × ℕ))
    → IsFalling b (first_of xs)
    → IsFalling b (gather target sum_ xs)
unfolding gather
gather-IsFalling target sum_ b [] f = tt
gather-IsFalling target sum_ b ((pos, value) ∷ xs) f =
    elim (Bool-cases (leb target (sum_ + value))) [
      | inl done ↦ rw done (f.0, tt)
      | inr more ↦ rw more (f.0, gather-IsFalling target (sum_ + value) pos xs f.1)
    ]

gather-covers :
    (g : ℕ → ℕ) (target sum_ : ℕ) (xs : List (ℕ × ℕ))
    → All (λ (e : ℕ × ℕ). g e.0 ≡ e.1) xs
    → target ≤ sum_ + sum (map (λ (e : ℕ × ℕ). e.1) xs)
    → target ≤ sum_ + sum (map g (gather target sum_ xs))
unfolding gather
gather-covers g target sum_ [] a le = le
gather-covers g target sum_ ((pos, value) ∷ xs) a le =
    elim (Bool-cases (leb target (sum_ + value))) [
      | inl done ↦ rw done (omega (arith, a.0, leb→le target (sum_ + value) done))
      | inr more ↦
          let rest = gather-covers g target (sum_ + value) xs a.1 (omega (arith, le)) in
          rw more (omega (arith, a.0, rest))
    ]

positions-values :
    (g : ℕ → ℕ) (i : ℕ) (cand : List (ℕ × ℕ))
    → ((k : ℕ) → g (i + k) ≡ amount_at cand k)
    → All (λ (e : ℕ × ℕ). g e.0 ≡ e.1) (reverse (positions i cand))
unfolding positions amount_at
positions-values g i [] h = tt
positions-values g i (c ∷ cand) h =
    let here : i + 0 ≡ i = omega arith in
    rw (reverse-cons (i, c.1) (positions (suc i) cand)) (
      All-append (λ (e : ℕ × ℕ). g e.0 ≡ e.1) _ _
        (positions-values g (suc i) cand
          (λ k. let e : i + suc k ≡ suc i + k = omega arith in rw e at (h (suc k))))
        (rw here at (h 0), tt))

positions-sum :
    (i : ℕ) (cand : List (ℕ × ℕ))
    → sum (map (λ (e : ℕ × ℕ). e.1) (reverse (positions i cand)))
      ≡ sum (map (λ (e : ℕ × ℕ). e.1) cand)
unfolding positions
positions-sum i [] = refl
positions-sum i (c ∷ cand) = rw (reverse-cons (i, c.1) (positions (suc i) cand)) (
    omega (
      arith,
      sum-map_append (λ (e : ℕ × ℕ). e.1) (reverse (positions (suc i) cand)) ((i, c.1) ∷ []),
      positions-sum (suc i) cand,
    ))

module _ (target : ℕ) (cand : List (ℕ × ℕ)) where
  -- No coin is chosen twice.
  pub choose_inputs-IsFalling : IsFalling (length cand) (choose_inputs target cand)
  unfolding choose_inputs
  choose_inputs-IsFalling = elim (Option-cases (position_above target 0 cand)) [
    | inr (pos, above) ↦
        let (k, e, lt, more) = position_above-some target 0 cand pos above in
        rw (above, choose_inputs) (omega arith, tt)
    | inl none_above ↦
        let falling = positions-IsFalling 0 cand in
        rw (none_above, choose_inputs)
          (gather-IsFalling target 0 (length cand) _
            (IsFalling-le (0 + length cand) (length cand) _ (omega arith) falling))
  ]

  -- What is chosen covers the target, if all the candidates do.
  pub choose_inputs-covers :
      target ≤ sum (map (λ (e : ℕ × ℕ). e.1) cand)
      → target ≤ amounts_at cand (choose_inputs target cand)
  unfolding choose_inputs
  choose_inputs-covers le = elim (Option-cases (position_above target 0 cand)) [
    | inr (pos, above) ↦
        let (k, e, lt, more) = position_above-some target 0 cand pos above in
        let same : pos ≡ k = omega arith in rw (above, same, choose_inputs) (omega arith)
    | inl none_above ↦
        let all =
          positions-values (amount_at cand) 0 cand
            (λ k. let e : 0 + k ≡ k = omega arith in rw e refl) in
        let covered =
          gather-covers (amount_at cand) target 0 (reverse (positions 0 cand)) all
            (omega (arith, le, positions-sum 0 cand)) in
        rw (none_above, choose_inputs) (omega (arith, covered))
  ]

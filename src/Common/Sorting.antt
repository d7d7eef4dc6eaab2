-- ===== src/Common/Sorting.antt =====
-- The standard library's sorts, as a stable insertion sort by a Boolean comparison, and what a sort
-- leaves alone.
use Prim.Native.Nat.{ℕ, ◌+◌, ◌<◌}
use mathlib.Core.Path.{◌≡◌, refl}
use mathlib.Core.Logic.{◌≢◌, inl, inr}
use mathlib.Core.Bool.{Bool}
use mathlib.Core.List.{List, [], ◌∷◌, map}
use native.Mathlib.Omega.{arith}
use fupi.Common.Tests.{if◌then◌else◌, Bool-cases, ltb, ltb→lt, ltb→le}
use fupi.Common.Lists.{All, All-imp}
use fupi.Common.Sums.{sum}

-- Every two elements, the earlier one first.
abbrev pub Pairwise {ℓ κ} : {A : Type ℓ} → (A → A → Type κ) → List A → Type κ
Pairwise R [] = Unit
Pairwise R (x ∷ xs) = All (R x) xs × Pairwise R xs

module _ {ℓ} {A : Type ℓ} (after : A → A → Bool) where
  -- `x` goes behind every element that it must come strictly after.
  unfoldable pub insert_by : A → List A → List A
  insert_by x [] = x ∷ []
  insert_by x (y ∷ ys) = let rest = insert_by x ys in if after x y then y ∷ rest else x ∷ y ∷ ys

  -- `sort_by`, where `after x y` is `cmp(x, y) == Greater`
  unfoldable pub sort_by : List A → List A
  unfolding insert_by
  sort_by [] = []
  sort_by (x ∷ xs) = insert_by x (sort_by xs)

  pub All-insert_by {κ} :
      (P : A → Type κ) (x : A) (xs : List A) → P x → All P xs → All P (insert_by x xs)
  unfolding insert_by
  All-insert_by P x [] p h = (p, tt)
  All-insert_by P x (y ∷ ys) p h = elim (Bool-cases (after x y)) [
    | inl e ↦ rw e (h.0, All-insert_by P x ys p h.1)
    | inr e ↦ rw e (p, h)
  ]

  pub All-sort_by {κ} : (P : A → Type κ) (xs : List A) → All P xs → All P (sort_by xs)
  unfolding sort_by
  All-sort_by P [] h = tt
  All-sort_by P (x ∷ xs) h = All-insert_by P x (sort_by xs) h.0 (All-sort_by P xs h.1)

  sum-insert_by :
      (f : A → ℕ) (x : A) (xs : List A) → sum (map f (insert_by x xs)) ≡ f x + sum (map f xs)
  unfolding insert_by
  sum-insert_by f x [] = refl
  sum-insert_by f x (y ∷ ys) = elim (Bool-cases (after x y)) [
    | inl e ↦ rw e (omega (arith, sum-insert_by f x ys))
    | inr e ↦ rw e refl
  ]

  pub sum-sort_by : (f : A → ℕ) (xs : List A) → sum (map f (sort_by xs)) ≡ sum (map f xs)
  unfolding sort_by
  sum-sort_by f [] = refl
  sum-sort_by f (x ∷ xs) = omega (arith, sum-insert_by f x (sort_by xs), sum-sort_by f xs)

  module _ {κ} (R : A → A → Type κ) (symmetric : (x y : A) → R x y → R y x) where
    Pairwise-insert_by :
        (x : A) (xs : List A) → All (R x) xs → Pairwise R xs → Pairwise R (insert_by x xs)
    unfolding insert_by
    Pairwise-insert_by x [] a p = (tt, tt)
    Pairwise-insert_by x (y ∷ ys) a p = elim (Bool-cases (after x y)) [
      | inl e ↦
          rw e (All-insert_by (R y) x ys (symmetric x y a.0) p.0, Pairwise-insert_by x ys a.1 p.1)
      | inr e ↦ rw e (a, p)
    ]

    -- A symmetric relation between every two elements does not depend on the order.
    pub Pairwise-sort_by : (xs : List A) → Pairwise R xs → Pairwise R (sort_by xs)
    unfolding sort_by
    Pairwise-sort_by [] p = tt
    Pairwise-sort_by (x ∷ xs) p =
        Pairwise-insert_by x (sort_by xs) (All-sort_by (R x) xs p.0) (Pairwise-sort_by xs p.1)

-- Distinct numbers rise strictly once they are sorted.
abbrev rising_order : ℕ → ℕ → Bool
rising_order a b = ltb b a

Pairwise-lt-insert_by :
    (x : ℕ) (xs : List ℕ)
    → All (λ y. x ≢ y) xs
    → Pairwise ◌<◌ xs
    → Pairwise ◌<◌ (insert_by rising_order x xs)
unfolding insert_by
Pairwise-lt-insert_by x [] a p = (tt, tt)
Pairwise-lt-insert_by x (y ∷ ys) a p = elim (Bool-cases (ltb y x)) [
  | inl e ↦ rw e (
    All-insert_by rising_order (λ z. y < z) x ys (ltb→lt y x e) p.0,
    Pairwise-lt-insert_by x ys a.1 p.1,
  )
  | inr e ↦
      let below : x < y = omega (arith, a.0, ltb→le y x e) in
      rw e ((below, All-imp (λ z. y < z) (λ z. x < z) ys (λ z l. omega arith) p.0), p)
]

pub Pairwise-lt-sort_by :
    (xs : List ℕ) → Pairwise (λ x y. x ≢ y) xs → Pairwise ◌<◌ (sort_by rising_order xs)
unfolding sort_by
Pairwise-lt-sort_by [] p = tt
Pairwise-lt-sort_by (x ∷ xs) p =
    Pairwise-lt-insert_by x (sort_by rising_order xs) (All-sort_by rising_order (λ y. x ≢ y) xs p.0)
      (Pairwise-lt-sort_by xs p.1)

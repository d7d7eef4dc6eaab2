-- ===== src/Common/Sums.antt =====
-- Sums of lists of numbers, and their laws.
use Prim.Native.Nat.{ℕ, ◌+◌}
use mathlib.Core.Path.{◌≡◌}
use mathlib.Core.List.{List, [], ◌∷◌, ◌++◌, map}
use native.Mathlib.Omega.{arith}

abbrev pub sum : List ℕ → ℕ
sum [] = 0
sum (x ∷ xs) = x + sum xs

pub sum-append : (xs ys : List ℕ) → sum (xs ++ ys) ≡ sum xs + sum ys
sum-append [] ys = omega arith
sum-append (x ∷ xs) ys = omega (arith, sum-append xs ys)

pub sum-map_append {ℓ} :
    {A : Type ℓ} (f : A → ℕ) (xs ys : List A)
    → sum (map f (xs ++ ys)) ≡ sum (map f xs) + sum (map f ys)
sum-map_append f [] ys = omega arith
sum-map_append f (x ∷ xs) ys = omega (arith, sum-map_append f xs ys)

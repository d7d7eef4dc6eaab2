-- ===== src/Vault/Coins/Removal.antt =====
-- Removal by index: the chosen coins and the rest are together the coins that there were.
use fupi.Common.{
  ℕ, zero, suc, ◌+◌, ◌<◌, ◌≡◌, refl, some, List, [], ◌∷◌, map, arith, All, remove_at, get_elem?,
  filter_map,
}
use fupi.Common.Sums.{sum}
use fupi.Common.Sorting.{Pairwise}
use fupi.Types.{Proof}
use fupi.Vault.Coins.{chosen_at, remove_all}

module _ {A : Type 0} where
  get_elem?-remove_at :
      (xs : List A) (i j : ℕ) → i < j → get_elem? (remove_at j xs) i ≡ get_elem? xs i
  get_elem?-remove_at [] i j h = refl
  get_elem?-remove_at (x ∷ xs) i zero h = absurd (omega arith)
  get_elem?-remove_at (x ∷ xs) zero (suc j) h = refl
  get_elem?-remove_at (x ∷ xs) (suc i) (suc j) h = get_elem?-remove_at xs i j (omega arith)

  sum-remove_at :
      (f : A → ℕ) (xs : List A) (i : ℕ) (x : A)
      → get_elem? xs i ≡ some x
      → sum (map f xs) ≡ f x + sum (map f (remove_at i xs))
  sum-remove_at f [] i x h = cc
  sum-remove_at f (y ∷ ys) zero x h = ground arith
  sum-remove_at f (y ∷ ys) (suc i) x h = omega (arith, sum-remove_at f ys i x h)

-- There is a proof at the index.
abbrev pub IsIndex : List Proof → ℕ → Type 0
IsIndex proofs i = (p : Proof) × (get_elem? proofs i ≡ some p)

get_elem?-remove_all :
    (idx : List ℕ) (proofs : List Proof) (i : ℕ)
    → All (λ j. i < j) idx
    → get_elem? (remove_all idx proofs) i ≡ get_elem? proofs i
unfolding remove_all
get_elem?-remove_all [] proofs i h = refl
get_elem?-remove_all (j ∷ idx) proofs i h =
    rw (get_elem?-remove_at (remove_all idx proofs) i j h.0) (get_elem?-remove_all idx proofs i h.1)

chosen_at-cons :
    (i : ℕ) (idx : List ℕ) (proofs : List Proof) (p : Proof)
    → get_elem? proofs i ≡ some p
    → chosen_at (i ∷ idx) proofs ≡ p ∷ chosen_at idx proofs
unfolding chosen_at
chosen_at-cons i idx proofs p h = rw (h, filter_map) refl

remove_all-cons :
    (i : ℕ) (idx : List ℕ) (proofs : List Proof)
    → remove_all (i ∷ idx) proofs ≡ remove_at i (remove_all idx proofs)
unfolding remove_all
remove_all-cons i idx proofs = refl

-- For every weight, at strictly rising indices: nothing is lost and nothing is made.
pub sum-remove_all :
    (f : Proof → ℕ) (idx : List ℕ) (proofs : List Proof)
    → Pairwise ◌<◌ idx
    → All (IsIndex proofs) idx
    → sum (map f proofs) ≡ sum (map f (chosen_at idx proofs)) + sum (map f (remove_all idx proofs))
sum-remove_all f [] proofs rising valid = unfold chosen_at remove_all in (omega arith)
sum-remove_all f (i ∷ idx) proofs rising valid =
    let (p, found) = valid.0 in
    let kept = get_elem?-remove_all idx proofs i rising.0 in
    let here = sum-remove_at f (remove_all idx proofs) i p (rw kept found) in
    let rest = sum-remove_all f idx proofs rising.1 valid.1 in
    rw (chosen_at-cons i idx proofs p found, remove_all-cons i idx proofs) (omega arith)

-- The value of the chosen coins, from the value at each index.
pub sum-chosen_at :
    (f : Proof → ℕ) (g : ℕ → ℕ) (idx : List ℕ) (proofs : List Proof)
    → All (λ i. (p : Proof) × (get_elem? proofs i ≡ some p) × (f p ≡ g i)) idx
    → sum (map f (chosen_at idx proofs)) ≡ sum (map g idx)
sum-chosen_at f g [] proofs h = unfold chosen_at in refl
sum-chosen_at f g (i ∷ idx) proofs h =
    let (p, found, value) = h.0 in
    rw (chosen_at-cons i idx proofs p found) (omega (arith, sum-chosen_at f g idx proofs h.1))

pub All-chosen_at :
    (P : Proof → Type 0) (idx : List ℕ) (proofs : List Proof)
    → All (λ i. (p : Proof) × (get_elem? proofs i ≡ some p) × P p) idx
    → All P (chosen_at idx proofs)
All-chosen_at P [] proofs h = unfold chosen_at in tt
All-chosen_at P (i ∷ idx) proofs h =
    let (p, found, holds) = h.0 in
    rw (chosen_at-cons i idx proofs p found) (holds, All-chosen_at P idx proofs h.1)

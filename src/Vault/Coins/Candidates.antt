-- ===== src/Vault/Coins/Candidates.antt =====
-- The candidates of a payment: distinct indices of proofs that carry the wanted lock, each with the
-- face value of its proof.
use fupi.Common.{
  ℕ, suc, ◌+◌, ◌<◌, ◌≡◌, refl, ◌≢◌, Bool, true, inl, inr, Option, some, List, [], ◌∷◌, map, arith,
  All, All-imp, get_elem?, keep, enumerate, Bool-cases,
}
use fupi.Common.Sorting.{Pairwise}
use fupi.Types.{Proof}
use fupi.Denom.{proof_value}
use fupi.Vault.Coins.{lock_or_none, lock_eq, candidates}

-- A candidate stands for a proof with the wanted lock.
pub record IsCandidate (want : Option (List ℕ)) (proofs : List Proof) (e : ℕ × ℕ) : Type 0 where
  pub proof : Proof
  pub found : get_elem? proofs e.0 ≡ some proof
  pub worth : proof_value proof ≡ e.1
  pub locked : lock_eq (lock_or_none proof) want ≡ true

module _ {A : Type 0} where
  All-keep :
      (P : A → Type 0) (p : A → Bool) (xs : List A)
      → All P xs
      → All (λ x. P x × (p x ≡ true)) (keep p xs)
  All-keep P p [] h = tt
  All-keep P p (x ∷ xs) h = elim (Bool-cases (p x)) [
    | inl e ↦ rw e ((h.0, e), All-keep P p xs h.1)
    | inr e ↦ rw e (All-keep P p xs h.1)
  ]

  All-of-keep : (P : A → Type 0) (p : A → Bool) (xs : List A) → All P xs → All P (keep p xs)
  All-of-keep P p [] h = tt
  All-of-keep P p (x ∷ xs) h = elim (Bool-cases (p x)) [
    | inl e ↦ rw e (h.0, All-of-keep P p xs h.1)
    | inr e ↦ rw e (All-of-keep P p xs h.1)
  ]

  Pairwise-keep :
      (R : A → A → Type 0) (p : A → Bool) (xs : List A) → Pairwise R xs → Pairwise R (keep p xs)
  Pairwise-keep R p [] h = tt
  Pairwise-keep R p (x ∷ xs) h = elim (Bool-cases (p x)) [
    | inl e ↦ rw e (All-of-keep (R x) p xs h.0, Pairwise-keep R p xs h.1)
    | inr e ↦ rw e (Pairwise-keep R p xs h.1)
  ]

  -- Where a numbered element stands, `offset` places into `all`.
  All-enumerate :
      (P : ℕ × A → Type 0) (i : ℕ) (xs : List A)
      → ((k : ℕ) (x : A) → get_elem? xs k ≡ some x → P (i + k, x))
      → All P (enumerate i xs)
  All-enumerate P i [] h = tt
  All-enumerate P i (x ∷ xs) h =
      let here : i + 0 ≡ i = omega arith in
      (
        rw here at (h 0 x refl),
        All-enumerate P (suc i) xs (λ k y found.
            let e : i + suc k ≡ suc i + k = omega arith in rw e at (h (suc k) y found)),
      )

  enumerate-later : (i j : ℕ) (xs : List A) → i < j → All (λ (e : ℕ × A). i ≢ e.0) (enumerate j xs)
  enumerate-later i j [] h = tt
  enumerate-later i j (x ∷ xs) h = (omega arith, enumerate-later i (suc j) xs (omega arith))

  enumerate-distinct :
      (i : ℕ) (xs : List A) → Pairwise (λ (a b : ℕ × A). a.0 ≢ b.0) (enumerate i xs)
  enumerate-distinct i [] = tt
  enumerate-distinct i (x ∷ xs) =
      (enumerate-later i (suc i) xs (omega arith), enumerate-distinct (suc i) xs)

module _ {A B : Type 0} where
  All-map : (f : A → B) (P : B → Type 0) (xs : List A) → All (λ x. P (f x)) xs → All P (map f xs)
  All-map f P [] h = tt
  All-map f P (x ∷ xs) h = (h.0, All-map f P xs h.1)

  Pairwise-map :
      (f : A → B) (R : B → B → Type 0) (xs : List A)
      → Pairwise (λ x y. R (f x) (f y)) xs
      → Pairwise R (map f xs)
  Pairwise-map f R [] h = tt
  Pairwise-map f R (x ∷ xs) h = (All-map f (R (f x)) xs h.0, Pairwise-map f R xs h.1)

abbrev pub Distinct : List (ℕ × ℕ) → Type 0
Distinct = Pairwise (λ (a b : ℕ × ℕ). a.0 ≢ b.0)

pub candidates-Distinct :
    (want : Option (List ℕ)) (proofs : List Proof) → Distinct (candidates want proofs)
unfolding candidates
candidates-Distinct want proofs =
    Pairwise-map (λ e. (e.0, proof_value e.1)) (λ a b. a.0 ≢ b.0) _
      (Pairwise-keep (λ a b. a.0 ≢ b.0) (λ e. lock_eq (lock_or_none e.1) want) (enumerate 0 proofs)
        (enumerate-distinct 0 proofs))

pub candidates-All :
    (want : Option (List ℕ)) (proofs : List Proof)
    → All (IsCandidate want proofs) (candidates want proofs)
unfolding candidates
candidates-All want proofs =
    All-map (λ e. (e.0, proof_value e.1)) (IsCandidate want proofs) _
      (All-imp (λ e. (get_elem? proofs e.0 ≡ some e.1) × (lock_eq (lock_or_none e.1) want ≡ true))
        (λ e. IsCandidate want proofs (e.0, proof_value e.1)) _
        (λ e h. record { proof = e.1; found = h.0; worth = refl; locked = h.1 })
        (All-keep (λ e. get_elem? proofs e.0 ≡ some e.1) (λ e. lock_eq (lock_or_none e.1) want)
          (enumerate 0 proofs)
          (All-enumerate (λ e. get_elem? proofs e.0 ≡ some e.1) 0 proofs
            (λ k x found. let e : 0 + k ≡ k = omega arith in rw e found))))

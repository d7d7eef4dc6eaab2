-- ===== src/Vault/Coins.antt =====
-- Coins of the vault: their value, the candidates of a payment, and their removal by index.
pub mod Removal
pub mod Candidates
use fupi.Common.{
  ℕ, zero, suc, ◌+◌, String, Bool, true, false, ◌&&◌, Option, none, some, List, [], ◌∷◌, map,
  reverse, foldl, ltb, ◌==◌, if◌then◌else◌, keep, enumerate, remove_at, get_elem?, filter_map, push,
  unwrap_or,
}
use fupi.Common.Result.{Result, ok, err}
use fupi.Common.Sums.{sum}
use fupi.Common.Sorting.{sort_by}
use fupi.Types.{Proof, FlashState}
use fupi.Denom.{proof_value}
use fupi.Crypto.{lock_of}

-- `token_value`; also `balance`, of the proofs held.
unfoldable pub token_value : List Proof → ℕ
token_value proofs = sum (map proof_value proofs)

-- The balance and the sums of the source are `u64`s; each coin is worth at most 500.
unfoldable pub balance : FlashState → ℕ
unfolding token_value
balance state = token_value state.proofs

-- Equality of byte lists, such as keys.
unfoldable pub bytes_eq : List ℕ → List ℕ → Bool
bytes_eq [] [] = true
bytes_eq [] (y ∷ ys) = false
bytes_eq (x ∷ xs) [] = false
bytes_eq (x ∷ xs) (y ∷ ys) = x == y && bytes_eq xs ys

abbrev pub lock_eq : Option (List ℕ) → Option (List ℕ) → Bool
lock_eq none none = true
lock_eq none (some k) = false
lock_eq (some k) none = false
lock_eq (some k) (some l) = bytes_eq k l

-- `lock_of(&p.secret).ok().flatten()`: a malformed lock counts as none.
unfoldable pub lock_or_none : Proof → Option (List ℕ)
unfolding lock_of
lock_or_none p = elim (lock_of p.secret) [ ok lock ↦ lock | err _ ↦ none ]

-- (index, face value) of every proof that carries exactly the wanted lock.
unfoldable pub candidates : Option (List ℕ) → List Proof → List (ℕ × ℕ)
unfolding lock_or_none bytes_eq
candidates want proofs =
    map (λ e. (e.0, proof_value e.1))
      (keep (λ e. lock_eq (lock_or_none e.1) want) (enumerate 0 proofs))

-- The sum of the candidates' values.
unfoldable pub total_of : List (ℕ × ℕ) → ℕ
total_of cand = sum (map (λ c. c.1) cand)

-- `cand[j].0`, for an index `j` that the selection returned.
unfoldable pub index_at : List (ℕ × ℕ) → ℕ → ℕ
index_at [] j = 0
index_at (c ∷ cand) zero = c.0
index_at (c ∷ cand) (suc j) = index_at cand j

-- `sort_unstable` of indices
unfoldable pub ascending : List ℕ → List ℕ
unfolding sort_by
ascending = sort_by (λ a b. ltb b a)

-- `idx.iter().map(|&i| proofs[i].clone())`
unfoldable pub chosen_at : List ℕ → List Proof → List Proof
chosen_at idx proofs = filter_map (λ i. get_elem? proofs i) idx

-- `for &i in idx.iter().rev() { proofs.remove(i); }`
unfoldable pub remove_all : List ℕ → List Proof → List Proof
remove_all [] proofs = proofs
remove_all (i ∷ idx) proofs = remove_at i (remove_all idx proofs)

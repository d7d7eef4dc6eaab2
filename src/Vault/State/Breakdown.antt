-- ===== src/Vault/State/Breakdown.antt =====
-- The breakdown by face value accounts for the whole balance.
use fupi.Common.{
  ℕ, ◌+◌, ◌*◌, ◌≡◌, ◌==◌, ==_iff, ltb, inl, inr, List, [], ◌∷◌, map, arith, Bool-cases,
}
use native.Mathlib.Nat.{mul-add, mul-one}
use fupi.Common.Sums.{sum}
use fupi.Types.{Proof, FlashState}
use fupi.Denom.{proof_value}
use fupi.Vault.Coins.{balance, token_value}
use fupi.Vault.State.{count_one, tally, breakdown}

-- The value that the pairs stand for.
abbrev pub worth : List (ℕ × ℕ) → ℕ
worth m = sum (map (λ (e : ℕ × ℕ). e.0 * e.1) m)

mul_add_one : (a b : ℕ) → a * (b + 1) ≡ a * b + a
mul_add_one a b = omega (arith, mul-add a b 1, mul-one a)

worth-count_one : (d : ℕ) (m : List (ℕ × ℕ)) → worth (count_one d m) ≡ d + worth m
unfolding count_one
worth-count_one d [] = omega (arith, mul-one d)
worth-count_one d (e ∷ m) = elim (Bool-cases (d == e.0)) [
  | inl same ↦
      let eq : d ≡ e.0 = (==_iff d e.0).0 same in
      rw same (rw eq (omega (arith, mul_add_one e.0 e.1)))
  | inr other ↦ elim (Bool-cases (ltb e.0 d)) [
    | inl above ↦ rw (other, above) (omega (arith, mul-one d))
    | inr below ↦ rw (other, below) (omega (arith, worth-count_one d m))
  ]
]

worth-tally :
    (proofs : List Proof) (m : List (ℕ × ℕ)) → worth (tally proofs m) ≡ token_value proofs + worth m
unfolding tally token_value
worth-tally [] m = omega arith
worth-tally (p ∷ proofs) m =
    omega
      (arith, worth-tally proofs (count_one (proof_value p) m), worth-count_one (proof_value p) m)

-- The face values of the breakdown times their counts add up to the balance.
worth-breakdown : (state : FlashState) → worth (breakdown state) ≡ balance state
unfolding breakdown balance
worth-breakdown state = omega (arith, worth-tally state.proofs [])

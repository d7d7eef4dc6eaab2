-- ===== src/Denom/Ids.antt =====
-- Keyset ids and the face values that they stand for.
use fupi.Common.{
  ℕ, ◌≤◌, ◌≡◌, refl, true, inl, inr, some, List, [], ◌∷◌, arith, any, All, subst, ◌==◌, ==_iff,
  Bool-cases, Option-cases, String,
}
use fupi.Types.{Proof}
use fupi.Denom.{denominations, keyset_id_for, denomination_of, proof_value}

abbrev pub IsDenomination : ℕ → Type 0
IsDenomination d = any (λ x. x == d) denominations ≡ true

any_elim {ℓ} : (P : ℕ → Type ℓ) (d : ℕ) (xs : List ℕ) → All P xs → any (λ x. x == d) xs ≡ true → P d
any_elim P d [] ps h = cc
any_elim P d (x ∷ xs) ps h = elim (Bool-cases (x == d)) [
  | inl e ↦ subst P ((==_iff x d).0 e) ps.0
  | inr ne ↦ any_elim P d xs ps.1 (rw ne at h)
]

-- A face value of the kiosk survives the trip through its keyset id.
pub denomination_of-keyset_id_for :
    (d : ℕ) → IsDenomination d → denomination_of (keyset_id_for d) ≡ some d
unfolding denomination_of keyset_id_for
denomination_of-keyset_id_for d h =
    any_elim (λ d. denomination_of (keyset_id_for d) ≡ some d) d denominations
      (refl, (refl, (refl, (refl, (refl, (refl, (refl, (refl, (refl, tt))))))))) h

pub denomination_of-IsDenomination :
    (kid : String) (d : ℕ) → denomination_of kid ≡ some d → IsDenomination d
unfolding denomination_of
denomination_of-IsDenomination kid d h = ground arith

pub IsDenomination-bounds : (d : ℕ) → IsDenomination d → (1 ≤ d) × (d ≤ 500)
IsDenomination-bounds d h = ground arith

pub proof_value_bounds : (p : Proof) → (1 ≤ proof_value p) × (proof_value p ≤ 500)
unfolding proof_value
proof_value_bounds p = elim (Option-cases p.keyset_id) [
  | inl missing ↦ rw missing (omega arith)
  | inr (kid, named) ↦ elim (Option-cases (denomination_of kid)) [
    | inl unknown ↦ rw (named, unknown) (omega arith)
    | inr (d, known) ↦
        rw (named, known) (IsDenomination-bounds d (denomination_of-IsDenomination kid d known))
  ]
]

-- ===== src/Vault/Keysets/Pinned.antt =====
-- What is found by name behind a change of the pinned keysets.
use fupi.Common.{
  ◌≡◌, refl, String, true, false, inl, inr, some, List, [], ◌∷◌, str_eq, eq_iff, Bool-cases,
  if◌then◌else◌,
}
use fupi.Types.{Keyset}
use fupi.Vault.Keysets.{find_keyset, upsert}

str_eq-subst : (x y z : String) → str_eq x y ≡ true → str_eq x z ≡ str_eq y z
str_eq-subst x y z h = let same : x ≡ y = (eq_iff x y).0 h in rw same refl

-- A pinned keyset replaces the first one of its name, or is added behind the others: by its name it is
-- found, and by any other name what was found before.
pub find_keyset-upsert :
    (list : List Keyset) (k : Keyset) (kid : String)
    → find_keyset kid (upsert list k)
      ≡ (if str_eq k.keyset_id kid then some k else find_keyset kid list)
unfolding find_keyset upsert
find_keyset-upsert [] k kid = refl
find_keyset-upsert (x ∷ list) k kid = elim (Bool-cases (str_eq x.keyset_id k.keyset_id)) [
  | inl named ↦ elim (Bool-cases (str_eq k.keyset_id kid)) [
    | inl mine ↦ rw (named, mine) refl
    | inr other ↦
        let skipped : str_eq x.keyset_id kid ≡ false =
          rw other at (str_eq-subst x.keyset_id k.keyset_id kid named) in
        rw (named, other, skipped) refl
  ]
  | inr unnamed ↦ elim (Bool-cases (str_eq x.keyset_id kid)) [
    | inl front ↦ elim (Bool-cases (str_eq k.keyset_id kid)) [
      | inl mine ↦
          let same_kid : k.keyset_id ≡ kid = (eq_iff k.keyset_id kid).0 mine in
          cc (same_kid, unnamed, front)
      | inr other ↦ rw (unnamed, front, other) refl
    ]
    | inr behind ↦ rw (unnamed, behind) (find_keyset-upsert list k kid)
  ]
]

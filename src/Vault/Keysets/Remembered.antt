-- ===== src/Vault/Keysets/Remembered.antt =====
-- A set of keysets that passed the check does not change a keyset that was pinned before.
use fupi.Common.{
  ◌≡◌, refl, sym, ap, ◌∙◌, inl, inr, String, true, false, ◌==◌, ==_iff, some, List, [], ◌∷◌, All,
  any, str_eq, eq_iff, Bool-cases, push, Option-cases,
}
use fupi.Common.Result.{ok}
use fupi.Types.{Keyset, FlashState}
use fupi.Vault.Keysets.{
  same_keyset, find_keyset, upsert, pin_keyset, pin_all, pinned_keysets, is_empty, check_keyset_set,
}
use fupi.Vault.Keysets.Trust.{IsPinned, check_keyset_set_closed}
use fupi.Vault.Keysets.Pinned.{find_keyset-upsert}

same_keyset-eq : (a b : Keyset) → same_keyset a b ≡ true → a ≡ b
unfolding same_keyset
same_keyset-eq a b h = elim (Bool-cases (str_eq a.keyset_id b.keyset_id)) [
  | inr e1 ↦ cc (rw e1 at h)
  | inl e1 ↦ elim (Bool-cases (str_eq a.n b.n)) [
    | inr e2 ↦ cc (rw (e1, e2) at h)
    | inl e2 ↦
        let e3 : (a.e == b.e) ≡ true = rw (e1, e2) at h in
        let same_id : a.keyset_id ≡ b.keyset_id = (eq_iff a.keyset_id b.keyset_id).0 e1 in
        let same_n : a.n ≡ b.n = (eq_iff a.n b.n).0 e2 in
        let same_e : a.e ≡ b.e = (==_iff a.e b.e).0 e3 in
        λ i. record { keyset_id = same_id i; n = same_n i; e = same_e i }
  ]
]

find_keyset-push :
    (kid : String) (list : List Keyset) (t k : Keyset)
    → find_keyset kid list ≡ some k
    → find_keyset kid (push list t) ≡ some k
unfolding find_keyset
find_keyset-push kid [] t k h = cc
find_keyset-push kid (x ∷ list) t k h = elim (Bool-cases (str_eq x.keyset_id kid)) [
  | inl e ↦ rw e (rw e at h)
  | inr e ↦ rw e (find_keyset-push kid list t k (rw e at h))
]

find_keyset-pinned :
    (kid : String) (state : FlashState) (k : Keyset)
    → find_keyset kid state.keysets ≡ some k
    → find_keyset kid (pinned_keysets state) ≡ some k
unfolding pinned_keysets
find_keyset-pinned kid state k h = elim (Option-cases state.trusted_keyset) [
  | inl e ↦ rw (e, pinned_keysets) h
  | inr (t, e) ↦
      elim (Bool-cases (any (λ (x : Keyset). str_eq x.keyset_id t.keyset_id) state.keysets)) [
        | inl listed ↦ rw (e, listed, pinned_keysets) h
        | inr unlisted ↦ rw (e, unlisted, pinned_keysets) (find_keyset-push kid state.keysets t k h)
      ]
]

-- One of the offered keysets, which is the pinned one of its name.
find_keyset-upsert_pinned :
    (state : FlashState) (o : Keyset) (kid : String) (k : Keyset)
    → IsPinned (pinned_keysets state) o
    → (list : List Keyset) → find_keyset kid state.keysets ≡ some k
    → find_keyset kid list ≡ some k
    → find_keyset kid (upsert list o) ≡ some k
find_keyset-upsert_pinned state o kid k (p, found, same) list before h =
    find_keyset-upsert list o kid ∙ (elim (Bool-cases (str_eq o.keyset_id kid)) [
      | inr other ↦ rw other h
      | inl mine ↦
          let named : o.keyset_id ≡ kid = (eq_iff o.keyset_id kid).0 mine in
          let pinned : find_keyset kid (pinned_keysets state) ≡ some p = rw named at found in
          let it : p ≡ k = cc (pinned, find_keyset-pinned kid state k before) in
          rw (mine) (ap (λ (x : Keyset). some x) (sym (same_keyset-eq p o same) ∙ it))
    ])

find_keyset-pin_all :
    (state : FlashState) (kid : String) (k : Keyset)
    → find_keyset kid state.keysets ≡ some k
    → (os : List Keyset) (now : FlashState) → All (IsPinned (pinned_keysets state)) os
    → find_keyset kid now.keysets ≡ some k
    → find_keyset kid (pin_all os now).keysets ≡ some k
unfolding pin_all pin_keyset
find_keyset-pin_all state kid k before [] now all h = h
find_keyset-pin_all state kid k before (o ∷ os) now all h =
    find_keyset-pin_all state kid k before os (pin_keyset now o) all.1
      (find_keyset-upsert_pinned state o kid k all.0 now.keysets before h)

some-listed :
    (list : List Keyset) (kid : String) (k : Keyset)
    → find_keyset kid list ≡ some k
    → is_empty list ≡ false
unfolding find_keyset
some-listed [] kid k h = cc
some-listed (x ∷ list) kid k h = refl

pinned_keysets-some :
    (state : FlashState) (kid : String) (k : Keyset)
    → find_keyset kid state.keysets ≡ some k
    → is_empty (pinned_keysets state) ≡ false
pinned_keysets-some state kid k h =
    some-listed (pinned_keysets state) kid k (find_keyset-pinned kid state k h)

-- A set that passes without new names allowed leaves each pinned keyset as it is.
pub check_keyset_set-remembered :
    (state : FlashState) (offered : List Keyset) (kid : String) (k : Keyset)
    → check_keyset_set (pinned_keysets state) offered false ≡ ok tt
    → find_keyset kid state.keysets ≡ some k
    → find_keyset kid (pin_all offered state).keysets ≡ some k
check_keyset_set-remembered state offered kid k passed before =
    find_keyset-pin_all state kid k before offered state
      (check_keyset_set_closed (pinned_keysets state) offered
        (pinned_keysets-some state kid k before) passed)
      before

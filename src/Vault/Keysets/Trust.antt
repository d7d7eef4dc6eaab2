-- ===== src/Vault/Keysets/Trust.antt =====
-- Once keysets are pinned, only these are accepted.
use fupi.Common.{
  ◌≡◌, refl, Bool, true, false, not, ◌&&◌, inl, inr, ◌⊎◌, none, some, List, [], ◌∷◌, All, All-imp,
  str_eq, Bool-cases, ◌↔◌, Option-cases,
}
use fupi.Common.Result.{ok}
use fupi.Types.{Keyset}
use fupi.Vault.Session.Steps.{Result-cases}
use fupi.Vault.Keysets.{
  same_keyset, find_keyset, bad_exponent, check_keyset_pin, check_offer, check_offers,
  check_keyset_set, is_empty,
}

-- An offered keyset that is pinned: the first one of its name has its modulus and exponent.
abbrev pub IsPinned : List Keyset → Keyset → Type 0
IsPinned pinned o =
    (p : Keyset) × (find_keyset o.keyset_id pinned ≡ some p) × (same_keyset p o ≡ true)

abbrev pub IsNew : List Keyset → Keyset → Type 0
IsNew pinned o = find_keyset o.keyset_id pinned ≡ none

-- What an accepted offer is.
abbrev pub IsSafe : List Keyset → Bool → Keyset → Type 0
IsSafe pinned allow_new o =
    (bad_exponent o.e ≡ false)
    × (IsPinned pinned o ⊎ (IsNew pinned o × ((not (is_empty pinned) && not allow_new) ≡ false)))

module _ (pinned : List Keyset) (allow_new : Bool) where
  check_offer-IsSafe :
      (o : Keyset) → check_offer pinned allow_new o ≡ ok tt → IsSafe pinned allow_new o
  unfolding check_offer check_keyset_pin
  check_offer-IsSafe o h = elim (Bool-cases (bad_exponent o.e)) [
    | inl bad ↦ elim (Option-cases (find_keyset o.keyset_id pinned)) [
      | inl new ↦ cc (rw (new, bad, check_offer, check_keyset_pin) at h)
      | inr (p, found) ↦ cc (rw (found, bad, check_offer, check_keyset_pin) at h)
    ]
    | inr good ↦ elim (Option-cases (find_keyset o.keyset_id pinned)) [
      | inl new ↦ elim (Bool-cases (not (is_empty pinned) && not allow_new)) [
        | inl closed ↦ cc (rw (new, good, closed, check_offer, check_keyset_pin) at h)
        | inr open_ ↦ (good, inr (new, open_))
      ]
      | inr (p, found) ↦ elim (Bool-cases (same_keyset p o)) [
        | inl same ↦ (good, inl (p, found, same))
        | inr other ↦ elim (Bool-cases (str_eq p.keyset_id o.keyset_id)) [
          | inl named ↦ cc (rw (found, good, other, named, check_offer, check_keyset_pin) at h)
          | inr unnamed ↦ cc (rw (found, good, other, unnamed, check_offer, check_keyset_pin) at h)
        ]
      ]
    ]
  ]

  IsSafe-check_offer :
      (o : Keyset) → IsSafe pinned allow_new o → check_offer pinned allow_new o ≡ ok tt
  unfolding check_offer check_keyset_pin
  IsSafe-check_offer o (good, inl (p, found, same)) =
      rw (found, good, same, check_offer, check_keyset_pin) refl
  IsSafe-check_offer o (good, inr (new, open_)) =
      rw (new, good, open_, check_offer, check_keyset_pin) refl

  check_offers-All :
      (os : List Keyset)
      → check_offers pinned allow_new os ≡ ok tt
      → All (IsSafe pinned allow_new) os
  unfolding check_offers
  check_offers-All [] h = tt
  check_offers-All (o ∷ os) h = elim (Result-cases (check_offer pinned allow_new o)) [
    | inr (_, e) ↦ cc (rw (e, check_offers) at h)
    | inl (_, e) ↦ (check_offer-IsSafe o e, check_offers-All os (rw (e, check_offers) at h))
  ]

  All-check_offers :
      (os : List Keyset)
      → All (IsSafe pinned allow_new) os
      → check_offers pinned allow_new os ≡ ok tt
  unfolding check_offers
  All-check_offers [] h = refl
  All-check_offers (o ∷ os) h =
      rw (IsSafe-check_offer o h.0, check_offers) (All-check_offers os h.1)

  -- A set of offered keysets passes exactly if it is not empty, none has a bad exponent, and each is
  -- the pinned one of its name, or has a new name where new names are allowed: with nothing pinned, or
  -- on demand.
  pub check_keyset_set_iff :
      (offered : List Keyset)
      → (check_keyset_set pinned offered allow_new ≡ ok tt)
        ↔ ((is_empty offered ≡ false) × All (IsSafe pinned allow_new) offered)
  unfolding check_keyset_set
  check_keyset_set_iff [] = (λ h. cc, λ (e, _). cc)
  check_keyset_set_iff (o ∷ os) =
      (λ h. (refl, check_offers-All (o ∷ os) h), λ (_, all). All-check_offers (o ∷ os) all)

-- With keysets pinned and no new ones allowed, every keyset of a set that passes is the pinned one of
-- its name, with the same modulus and exponent.
pub check_keyset_set_closed :
    (pinned offered : List Keyset)
    → is_empty pinned ≡ false
    → check_keyset_set pinned offered false ≡ ok tt
    → All (IsPinned pinned) offered
check_keyset_set_closed pinned offered some_pinned h =
    All-imp (IsSafe pinned false) (IsPinned pinned) offered
      (λ o (good, way). elim way [
        | inl known ↦ known
        | inr (new, open_) ↦ cc (rw some_pinned at open_)
      ])
      ((check_keyset_set_iff pinned false offered).0 h).1

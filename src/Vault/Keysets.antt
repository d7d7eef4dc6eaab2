-- ===== src/Vault/Keysets.antt =====
-- Pinned keysets: trust on first use, and refusal of any later change.
pub mod Trust
pub mod Pinned
pub mod Remembered
use fupi.Common.{
  ℕ, ◌%◌, String, ◌<>◌, Bool, true, false, ◌&&◌, ◌||◌, not, Option, none, some, List, [], ◌∷◌, ltb,
  ◌==◌, str_eq, if◌then◌else◌, any, find, push, is_some,
}
use fupi.Common.Result.{Result, ok, err}
use fupi.Types.{Keyset, FlashState}
use fupi.Denom.{legacy_keyset_id}
use fupi.Vault.Errors.{VaultError, ClientError, client, verification_failed, keyset_mismatch}
use fupi.Vault.Environment.{Environment}
use fupi.Vault.Session.{
  Method, ◌>>=◌, ◌>>◌, pure, lift, get_state, set_state, try_call, call_or, require_client,
  save_state,
}

unfoldable pub same_keyset : Keyset → Keyset → Bool
same_keyset a b = str_eq a.keyset_id b.keyset_id && str_eq a.n b.n && a.e == b.e

unfoldable pub find_keyset : String → List Keyset → Option Keyset
find_keyset kid = find (λ k. str_eq k.keyset_id kid)

unfoldable pub upsert : List Keyset → Keyset → List Keyset
upsert [] k = k ∷ []
upsert (x ∷ list) k = if str_eq x.keyset_id k.keyset_id then k ∷ list else x ∷ upsert list k

unfoldable pub pinned_keysets : FlashState → List Keyset
pinned_keysets state = elim state.trusted_keyset [
  | none ↦ state.keysets
  | some t ↦
      if any (λ k. str_eq k.keyset_id t.keyset_id) state.keysets
      then state.keysets
      else push state.keysets t
]

-- One step of the loop in `cache_keysets`.
unfoldable pub pin_keyset : FlashState → Keyset → FlashState
unfolding upsert
pin_keyset state k = record state {
  keysets = upsert state.keysets k;
  trusted_keyset = if str_eq k.keyset_id legacy_keyset_id then some k else state.trusted_keyset;
}

unfoldable pub pin_all : List Keyset → FlashState → FlashState
unfolding pin_keyset
pin_all [] state = state
pin_all (k ∷ ks) state = pin_all ks (pin_keyset state k)

-- `e < 3 || e % 2 == 0`
unfoldable pub bad_exponent : ℕ → Bool
bad_exponent e = ltb e 3 || e % 2 == 0

unfoldable pub check_keyset_pin : Option Keyset → Keyset → Result VaultError (Unit {0})
unfolding bad_exponent same_keyset
check_keyset_pin pinned offered =
    if bad_exponent offered.e
    then err (verification_failed "keyset has an invalid public exponent")
    else (elim pinned [
      | none ↦ ok tt
      | some p ↦
          if same_keyset p offered
          then ok tt
          else if not (str_eq p.keyset_id offered.keyset_id)
          then err (keyset_mismatch p.keyset_id offered.keyset_id)
          else err (
              verification_failed
                "ATM keyset modulus changed since it was pinned; refusing. Verify the new fingerprint out-of-band, then run `pin --force`")
    ])

-- `is_empty`
abbrev pub is_empty {ℓ} : {A : Type ℓ} → List A → Bool
is_empty [] = true
is_empty (x ∷ xs) = false

-- One offered keyset against the pinned list.
unfoldable pub check_offer : List Keyset → Bool → Keyset → Result VaultError (Unit {0})
unfolding check_keyset_pin find_keyset
check_offer pinned allow_new o = elim (find_keyset o.keyset_id pinned) [
  | some p ↦ check_keyset_pin (some p) o
  | none ↦ elim (check_keyset_pin none o) [
    | err e ↦ err e
    | ok _ ↦
        if not (is_empty pinned) && not allow_new
        then err (
            verification_failed (
              "ATM offered keyset '"
              <> (o.keyset_id
                  <> "' that is not pinned; verify it out-of-band, then run `pin --force`")))
        else ok tt
  ]
]

unfoldable pub check_offers : List Keyset → Bool → List Keyset → Result VaultError (Unit {0})
unfolding check_offer
check_offers pinned allow_new [] = ok tt
check_offers pinned allow_new (o ∷ offered) =
    let rest = check_offers pinned allow_new offered in
    elim (check_offer pinned allow_new o) [ err e ↦ err e | ok _ ↦ rest ]

unfoldable pub check_keyset_set : List Keyset → List Keyset → Bool → Result VaultError (Unit {0})
unfolding check_offers
check_keyset_set pinned offered allow_new =
    if is_empty offered
    then err (verification_failed "ATM offered no keysets")
    else check_offers pinned allow_new offered

module _ (env : Environment) where
  -- The change is made in memory before it is saved.
  unfoldable pub cache_keyset : Keyset → Method env.World (Unit {0})
  unfolding upsert
  cache_keyset keyset = do
    state ← get_state
    let next : FlashState = record state {
      keysets = upsert state.keysets keyset;
      trusted_keyset = some keyset;
    }
    set_state next
    save_state env next

  unfoldable pub cache_keysets : List Keyset → Method env.World (Unit {0})
  unfolding pin_all
  cache_keysets ks = do
    state ← get_state
    set_state (pin_all ks state)
    save_state env (pin_all ks state)

  -- The one keyset of an older ATM.
  unfoldable pub fetch_single : Method env.World (List Keyset)
  fetch_single = do k ← call_or client env.get_keyset; pure (k ∷ [])

  -- `match client.get_keysets()`
  unfoldable pub offered_keysets : Result ClientError (List Keyset) → Method env.World (List Keyset)
  unfolding fetch_single
  offered_keysets (ok (k ∷ ks)) = pure (k ∷ ks)
  offered_keysets (ok []) = fetch_single
  offered_keysets (err e) = fetch_single

  unfoldable pub fetch_keysets : Method env.World (List Keyset)
  unfolding offered_keysets
  fetch_keysets = do require_client; answer ← try_call env.get_keysets; offered_keysets answer

-- ===== src/Vault/Flash/Tests.antt =====
-- A payment that loses power and a sale that does not, over flash storage.
use fupi.Common.{
  ℕ, zero, suc, ◌<◌, ◌≡◌, refl, true, false, Option, none, some, String, str_eq, eq_iff, Bool-cases,
  ◌⊎◌, inl, inr, List, [], ◌∷◌, arith, take, length,
}
use fupi.Common.Text.{trim}
use fupi.Types.{Keyset, Proof, Receipt, PendingOut, PendingSwap, FlashState}
use native.Mathlib.Decide.{ℕ_discrete}
use fupi.Crypto.Tests.{toy_crates}
use fupi.Storage.{Codec, Device, disk, fine, cut, is_blank}
use fupi.Storage.Load.{parse, IsLawful, Holds}
use fupi.Storage.Remnants.{AllLeft}
use fupi.Storage.Durable.{Held}
use fupi.Vault.Swap.Balance.{Conserves}
use fupi.Vault.Session.{Session}
use fupi.Vault.Session.Steps.{Outcome}
use fupi.Vault.Payment.{spent_state}
use fupi.Vault.Swap.{pay}
use fupi.Vault.Flash.{Power, on, on_flash}
use fupi.Vault.Flash.Sale.{Recorded, Unrecorded, accept_payment-Recorded}
use fupi.Vault.Merchant.{accept_payment}
use fupi.Vault.Flash.Payment.{Delivered, Accounted, pay-Accounted}
use fupi.Vault.Tests.{sold, state, toy_env, toy_codec}

String-discrete : Discrete String
String-discrete s t = elim (Bool-cases (str_eq s t)) [
  | inl e ↦ yes ((eq_iff s t).0 e)
  | inr e ↦ no (λ p. cc (e, (eq_iff s t).1 p))
]

Keyset-discrete : Discrete Keyset
Keyset-discrete = hlevel (String-discrete, ℕ_discrete)

Proof-discrete : Discrete Proof
Proof-discrete = hlevel (String-discrete, ℕ_discrete)

Receipt-discrete : Discrete Receipt
Receipt-discrete = hlevel (String-discrete, ℕ_discrete)

PendingOut-discrete : Discrete PendingOut
PendingOut-discrete = hlevel (String-discrete, ℕ_discrete)

PendingSwap-discrete : Discrete PendingSwap
PendingSwap-discrete = hlevel (Proof-discrete, PendingOut-discrete)

FlashState-discrete : Discrete FlashState
FlashState-discrete = hlevel (
  String-discrete, ℕ_discrete, Keyset-discrete, Proof-discrete, Receipt-discrete,
  PendingSwap-discrete,
)

-- The state behind the payment of one coin.
abbrev spent : FlashState
spent = spent_state state (0 ∷ []) "7" 5

module _ (other : FlashState) where
  -- This state and another one are written as one byte, and no further state can be written.
  encode_state : FlashState → Option (List ℕ)
  encode_state s = elim (FlashState-discrete s state) [
    | yes e ↦ some (1 ∷ [])
    | no n ↦ elim (FlashState-discrete s other) [ yes e ↦ some (2 ∷ []) | no m ↦ none ]
  ]

  decode_state : List ℕ → Option FlashState
  decode_state (suc zero ∷ []) = some state
  decode_state (suc (suc zero) ∷ []) = some other
  decode_state _ = none

  abbrev flash_codec : Codec
  flash_codec = record {
    encode = encode_state;
    encode_error = λ _. "not known";
    decode = decode_state;
    decode_error = λ _. "not known";
    from_utf8 = some;
  }

  -- What is written is the one byte of a known state.
  encode_state-known :
      (s : FlashState) (b : List ℕ)
      → encode_state s ≡ some b
      → ((s ≡ state) × (b ≡ 1 ∷ [])) ⊎ ((s ≡ other) × (b ≡ 2 ∷ []))
  unfolding encode_state
  encode_state-known s b h =
      elim (FlashState-discrete s state)
          as (λ d.
            (elim d [
              | yes e ↦ some (1 ∷ [])
              | no n ↦ elim (FlashState-discrete s other) [ yes e ↦ some (2 ∷ []) | no m ↦ none ]
            ])
              ≡ some b
            → ((s ≡ state) × (b ≡ 1 ∷ [])) ⊎ ((s ≡ other) × (b ≡ 2 ∷ []))) [
              | yes e ↦ λ k. inl (e, cc k)
              | no n ↦ λ k.
                  elim (FlashState-discrete s other)
                      as (λ d.
                        (elim d as (λ _. Option (List ℕ)) [ yes e ↦ some (2 ∷ []) | no m ↦ none ])
                          ≡ some b
                        → ((s ≡ state) × (b ≡ 1 ∷ [])) ⊎ ((s ≡ other) × (b ≡ 2 ∷ []))) [
                          | yes e ↦ λ q. inr (e, cc q)
                          | no m ↦ λ q. cc q
                        ]
                    k
            ]
        h

  flash_codec-readable :
      (s : FlashState) (b : List ℕ)
      → ((s ≡ state) × (b ≡ 1 ∷ [])) ⊎ ((s ≡ other) × (b ≡ 2 ∷ []))
      → (t : List ℕ) × (some b ≡ some t) × (is_blank t ≡ false) × (decode_state t ≡ some s)
  unfolding is_blank trim decode_state
  flash_codec-readable s b (inl (e, f)) = (1 ∷ [], rw f refl, refl, rw e refl)
  flash_codec-readable s b (inr (e, f)) = (2 ∷ [], rw f refl, refl, rw e refl)

  flash_codec-truncated :
      (b : List ℕ) (k : ℕ)
      → (b ≡ 1 ∷ []) ⊎ (b ≡ 2 ∷ [])
      → k < length b
      → parse flash_codec (some (take k b)) ≡ none
  unfolding decode_state
  flash_codec-truncated b zero one h = refl
  flash_codec-truncated b (suc k) (inl e) h = absurd (omega (arith, rw e at h))
  flash_codec-truncated b (suc k) (inr e) h = absurd (omega (arith, rw e at h))

  known_bytes :
      (s : FlashState) (b : List ℕ)
      → ((s ≡ state) × (b ≡ 1 ∷ [])) ⊎ ((s ≡ other) × (b ≡ 2 ∷ []))
      → (b ≡ 1 ∷ []) ⊎ (b ≡ 2 ∷ [])
  known_bytes s b (inl (e, f)) = inl f
  known_bytes s b (inr (e, f)) = inr f

  flash_codec-IsLawful : IsLawful flash_codec
  unfolding decode_state
  flash_codec-IsLawful = record {
    readable = λ s b h. flash_codec-readable s b (encode_state-known s b h);
    truncated = λ s b k h short.
        flash_codec-truncated b k (known_bytes s b (encode_state-known s b h)) short;
    empty = refl;
  }

-- The flash holds the state, and power is lost a byte into the temporary file.
abbrev failing : Device
failing = record (disk (some (1 ∷ [])) none none) { script = fine ∷ cut 0 ∷ [] }

one-Holds : (other : FlashState) → Holds (flash_codec other) (some (1 ∷ [])) state
unfolding is_blank trim decode_state
one-Holds other = record {
  bytes = 1 ∷ [];
  text = 1 ∷ [];
  there = refl;
  decoded = refl;
  not_blank = refl;
  parsed = refl;
}

one_left :
    (other : FlashState) → AllLeft (λ f. Holds (flash_codec other) f state) failing.primary_left
one_left other f (inl e) = rw e (one-Holds other)
one_left other f (inr nothing) = absurd nothing

conserved_left : AllLeft (Held (flash_codec spent) (Conserves state)) failing.primary_left
conserved_left f m = (state, one_left spent f m, (tt, refl))

abbrev on_failing : Session (ℕ × Power)
on_failing = record { state = state; has_client = true; merchant = none; world = (1, on failing) }

pay-Accounted_example :
    Outcome
      (Delivered
        (flash_codec spent)
        (flash_codec-IsLawful spent)
        false
        toy_env
        toy_crates
        toy_codec
        5
        none
        on_failing)
      (Accounted
        (flash_codec spent)
        (flash_codec-IsLawful spent)
        false
        toy_env
        toy_crates
        toy_codec
        5
        none
        on_failing)
      (pay toy_crates (on_flash (flash_codec spent) false toy_env) toy_codec 5 none on_failing)
pay-Accounted_example =
    pay-Accounted (flash_codec spent) (flash_codec-IsLawful spent) false toy_env toy_crates
      toy_codec 5 none on_failing tt (one-Holds spent) conserved_left

-- The state behind the sale of a token with one coin, which reaches the flash.
abbrev sold_state : FlashState
sold_state = sold.state

abbrev lasting : Session (ℕ × Power)
lasting = record on_failing { world = (1, on (disk (some (1 ∷ [])) none none)) }

accept_payment-Recorded_example :
    Outcome
      (Recorded
        (flash_codec sold_state)
        (flash_codec-IsLawful sold_state)
        false
        toy_env
        toy_crates
        toy_codec
        "9"
        none
        (some 5)
        lasting)
      (Unrecorded
        (flash_codec sold_state)
        (flash_codec-IsLawful sold_state)
        false
        toy_env
        toy_crates
        toy_codec
        "9"
        none
        (some 5)
        lasting)
      (accept_payment toy_crates toy_codec
        (on_flash (flash_codec sold_state) false toy_env)
        "9"
        none
        (some 5)
        lasting)
accept_payment-Recorded_example =
    accept_payment-Recorded (flash_codec sold_state) (flash_codec-IsLawful sold_state) false toy_env
      toy_crates toy_codec "9" none (some 5) lasting (one-Holds sold_state) (one_left sold_state)

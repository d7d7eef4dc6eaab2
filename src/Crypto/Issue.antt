-- ===== src/Crypto/Issue.antt =====
-- A blinding factor from `random_blinder` of vault-rust/src/crypto.rs: the exchange of a blind signature
-- comes to its end.
use native.Mathlib.Nat.{mod-lt}
use fupi.Common.{
  false, ℕ, ◌+◌, ◌-◌, ◌*◌, ◌%◌, ◌↔◌, ◌≤◌, ◌<◌, ◌≡◌, refl, sym, ◌∙◌, inl, inr, true, some, List, [],
  ◌∷◌, String, All, length, leb, ◌==◌, ==_iff, Bool-cases, leb→le, arith,
}
use fupi.Common.Result.{ok}
use fupi.Common.Text.{as_bytes}
use fupi.Crypto.{
  Crates, IsLawful, reduced, modinv, random_blinder, hash_to_scalar, blind, unblind, verify,
  generate_claim_keypair, public_key_of, claim_signature, hex_encode, hex_key,
}
use fupi.Crypto.Hex.{hex_decode-hex_encode}
use fupi.Crypto.Blind.{unblind_iff, hash_to_scalar_bounds}

module _ (c : Crates) (lawful : IsLawful c) (n : ℕ) (big : 2 < n) where
  -- A factor in range, without a common factor with the modulus.
  abbrev pub IsBlinder : ℕ → Type 0
  IsBlinder r = (2 ≤ r) × (r < n) × ((c.extended_gcd r n).gcd ≡ 1)

  large : leb n 2 ≡ false
  large = elim (Bool-cases (leb n 2)) [ inr e ↦ e | inl e ↦ absurd (omega (arith, leb→le n 2 e)) ]

  random_blinder-IsBlinder :
      (bufs : List (List ℕ)) (r : ℕ) → random_blinder c n bufs ≡ some r → IsBlinder r
  unfolding random_blinder
  random_blinder-IsBlinder [] r h = cc
  random_blinder-IsBlinder (buf ∷ bufs) r h =
      let candidate = c.from_bytes_be buf % (n - 2) + 2 in
      elim (Bool-cases (c.gcd candidate n == 1)) [
        | inr shared ↦ random_blinder-IsBlinder bufs r (rw (large, shared, random_blinder) at h)
        | inl coprime ↦
            let it : candidate ≡ r = cc (rw (large, coprime, random_blinder) at h) in
            let small : c.from_bytes_be buf % (n - 2) < n - 2 = mod-lt _ (omega arith) in
            let one : c.gcd candidate n ≡ 1 = (==_iff (c.gcd candidate n) 1).0 coprime in
            rw (← it) (omega arith, omega arith, sym (lawful.gcd_lem candidate n) ∙ one)
      ]

  modinv-IsBlinder : (r : ℕ) → IsBlinder r → modinv c r n ≡ ok (reduced (c.extended_gcd r n).x n)
  unfolding modinv
  modinv-IsBlinder r (low, high, coprime) = elim (Bool-cases (leb n 1)) [
    | inl small ↦ absurd (omega (arith, leb→le n 1 small))
    | inr e ↦ rw (e, coprime) refl
  ]

  -- For a modulus above two and a blinding factor that `random_blinder` has drawn: every answer of the ATM
  -- can be unblinded, and it signs the blinded hash of a secret exactly if what comes of it signs the hash.
  pub random_blinder-unblind :
      (bufs : List (List ℕ)) (secret : List ℕ) (r e s : ℕ)
      → random_blinder c n bufs ≡ some r
      → let m = hash_to_scalar c secret n in
        (sig : ℕ) × (unblind c s r n ≡ ok sig)
        × ((verify c (blind c m r e n) s e n ≡ true) ↔ (verify c m sig e n ≡ true))
  unfolding unblind
  random_blinder-unblind bufs secret r e s drawn =
      let i = reduced (c.extended_gcd r n).x n in
      let inverse = modinv-IsBlinder r (random_blinder-IsBlinder bufs r drawn) in
      let done : unblind c s r n ≡ ok (s * i % n) = rw (inverse, unblind) refl in
      (
        s * i % n,
        done,
        unblind_iff c lawful (hash_to_scalar c secret n) r e n s (s * i % n)
            (hash_to_scalar_bounds c lawful secret n big).1 done,
      )

-- The pair that `keygen` prints belongs together: from 32 random bytes, the secret key's text is one whose
-- public key `public_key_of` finds to be the other text, and with which every text can be signed.
pub generate_claim_keypair-public_key_of :
    (c : Crates) (random : List ℕ) (message : String)
    → length random ≡ 32
    → All (λ b. b < 256) random
    → let (sk, pk) = generate_claim_keypair c random in
      (public_key_of c sk ≡ ok pk)
      × (claim_signature c sk message ≡ ok (hex_encode (c.ed25519_sign random (as_bytes message))))
unfolding generate_claim_keypair public_key_of claim_signature
generate_claim_keypair-public_key_of c random message full bytes =
    let decoded = hex_decode-hex_encode random bytes in
    let whole : (length random == 32) ≡ true = (==_iff (length random) 32).1 full in
    rw (decoded, whole, hex_key) (refl, refl)

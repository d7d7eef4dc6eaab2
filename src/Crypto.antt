-- ===== src/Crypto.antt =====
-- vault-rust/src/crypto.rs: texts and numbers, blind RSA signatures, the lock inside a secret, and
-- ed25519 claims. A `BigUint` is a natural number, whose `+ * % < ==` are the mathematical ones; the
-- other functions of third-party crates are the fields of `Crates`.
mod Secrets
pub mod Tests
pub mod Blind
pub mod Digits
pub mod Hex
pub mod Lock
pub mod Issue
use fupi.Common.{
  ℕ, suc, ◌+◌, ◌-◌, ◌*◌, ◌/◌, ◌%◌, ◌^◌, ◌≡◌, ◌<◌, String, ◌<>◌, Bool, true, false, ◌&&◌, ◌||◌, not,
  Option, none, some, List, [], ◌∷◌, length, any, ltb, leb, ◌==◌, if◌then◌else◌,
}
use fupi.Common.Result.{Result, ok, err, ◌>>=◌, ok_or}
use fupi.Common.Text.{codes, trim, trim_end_matches, as_bytes, show}
unfoldable pub use Secrets.*

-- A signed `BigInt`; `negsuc n` is -(n + 1).
pub data ℤ : Type 0 where
  pos : ℕ → ℤ
  negsuc : ℕ → ℤ

abbrev pub pos_part : ℤ → ℕ
pos_part (pos n) = n
pos_part (negsuc n) = 0

abbrev pub neg_part : ℤ → ℕ
neg_part (pos n) = 0
neg_part (negsuc n) = suc n

-- What the crates base64, num-bigint, num-integer, sha2 and ed25519-dalek are called for. Decoders
-- take the code points of a text; `std_decode` is the last one tried, whose error text is reported.
pub record Crates : Type 0 where
  pub url_no_pad_encode : List ℕ → String
  pub url_no_pad_decode : List ℕ → Option (List ℕ)
  pub url_decode : List ℕ → Option (List ℕ)
  pub std_no_pad_decode : List ℕ → Option (List ℕ)
  pub std_decode : List ℕ → Option (List ℕ)
  pub std_decode_error : List ℕ → String
  pub from_bytes_be : List ℕ → ℕ
  pub to_bytes_be : ℕ → List ℕ
  pub modpow : ℕ → ℕ → ℕ → ℕ
  pub extended_gcd : ℕ → ℕ → record { gcd : ℕ; x : ℤ; y : ℤ }
  pub gcd : ℕ → ℕ → ℕ
  pub sha256 : List ℕ → List ℕ
  pub ed25519_sign : List ℕ → List ℕ → List ℕ
  pub ed25519_public : List ℕ → List ℕ

-- The documented behaviour of the arithmetic: powers modulo a positive number, Bézout's identity
-- `a * x + b * y = gcd`, written without subtraction, and that both ways to the divisor agree.
pub record IsLawful (c : Crates) : Type 0 where
  pub modpow_lem : (b e n : ℕ) → 0 < n → c.modpow b e n ≡ b ^ e % n
  pub bezout :
      (a b : ℕ)
      → let r = c.extended_gcd a b in
        a * pos_part r.x + b * pos_part r.y ≡ r.gcd + a * neg_part r.x + b * neg_part r.y
  pub gcd_lem : (a b : ℕ) → c.gcd a b ≡ (c.extended_gcd a b).gcd

-- `ext.x % m` keeps the sign of `ext.x`, so that a negative remainder is raised by `m`.
unfoldable pub reduced : ℤ → ℕ → ℕ
reduced (pos x) m = x % m
reduced (negsuc x) m = let rem = suc x % m in if ltb 0 rem then m - rem else 0

module _ (c : Crates) where
  unfoldable pub b64_encode : List ℕ → String
  b64_encode = c.url_no_pad_encode

  -- The four alphabets and paddings are tried in turn, on the code points of a text.
  unfoldable pub b64_decode_codes : List ℕ → Result CryptoError (List ℕ)
  b64_decode_codes s =
      let clean = trim s in
      let unpadded = trim_end_matches b'=' clean in
      elim (c.url_no_pad_decode unpadded) [
        | some bytes ↦ ok bytes
        | none ↦ elim (c.url_decode clean) [
          | some bytes ↦ ok bytes
          | none ↦ elim (c.std_no_pad_decode unpadded) [
            | some bytes ↦ ok bytes
            | none ↦ ok_or (c.std_decode clean) (base64_decode_error (c.std_decode_error clean))
          ]
        ]
      ]

  unfoldable pub b64_decode : String → Result CryptoError (List ℕ)
  unfolding b64_decode_codes
  b64_decode s = b64_decode_codes (codes s)

  unfoldable pub biguint_to_b64 : ℕ → String
  unfolding b64_encode
  biguint_to_b64 val = b64_encode (c.to_bytes_be val)

  unfoldable pub b64_to_biguint : String → Result CryptoError ℕ
  unfolding b64_decode
  b64_to_biguint s = do bytes ← b64_decode s; ok (c.from_bytes_be bytes)

  unfoldable pub hash_to_scalar : List ℕ → ℕ → ℕ
  hash_to_scalar secret n =
      let m = c.from_bytes_be (c.sha256 secret) % n in if ltb m 2 then 2 else m

  unfoldable pub modinv : ℕ → ℕ → Result CryptoError ℕ
  unfolding reduced
  modinv a m =
      if leb m 1
      then err no_modular_inverse
      else (let ext = c.extended_gcd a m in
          if ext.gcd == 1 then ok (reduced ext.x m) else err no_modular_inverse)

  -- The loop of `random_blinder` over the buffers that the generator fills, each as long as the modulus;
  -- nothing comes of it where no buffer gives a number without a common factor, or the modulus is too
  -- small for one.
  unfoldable pub random_blinder : ℕ → List (List ℕ) → Option ℕ
  random_blinder n [] = none
  random_blinder n (buf ∷ bufs) =
      let rest = random_blinder n bufs in
      let candidate = c.from_bytes_be buf % (n - 2) + 2 in
      if leb n 2 then none else if c.gcd candidate n == 1 then some candidate else rest

  unfoldable pub blind : ℕ → ℕ → ℕ → ℕ → ℕ
  blind m r e n = m * c.modpow r e n % n

  unfoldable pub unblind : ℕ → ℕ → ℕ → Result CryptoError ℕ
  unblind s_blind r n = do r_inv ← modinv r n; ok (s_blind * r_inv % n)

  unfoldable pub verify : ℕ → ℕ → ℕ → ℕ → Bool
  verify m sig e n = c.modpow sig e n == m

module _ (c : Crates) where
  unfoldable pub sign_bytes : String → List ℕ → Result CryptoError String
  unfolding hex_decode
  sign_bytes secret_key_hex msg = do
    sk ← ok_or (hex_key secret_key_hex) (invalid_lock "key must be 32 bytes of hex")
    ok (hex_encode (c.ed25519_sign sk msg))

  unfoldable pub claim_signature : String → String → Result CryptoError String
  unfolding sign_bytes
  claim_signature secret_key_hex secret = sign_bytes secret_key_hex (as_bytes secret)

  unfoldable pub public_key_of : String → Result CryptoError String
  unfolding hex_decode
  public_key_of secret_key_hex = do
    sk ← ok_or (hex_key secret_key_hex) (invalid_lock "key must be 32 bytes of hex")
    ok (hex_encode (c.ed25519_public sk))

  -- `SigningKey::generate`, of the 32 bytes that the operating system's generator returns: the secret
  -- and the public key.
  unfoldable pub generate_claim_keypair : List ℕ → String × String
  generate_claim_keypair random = (hex_encode random, hex_encode (c.ed25519_public random))

unfoldable pub device_sign_message : String → ℕ → ℕ → String → String
device_sign_message device_hex seq amount blinded_b64 =
    "fupi-blind-sign-v1|"
    <> (device_hex <> ("|" <> (show seq <> ("|" <> (show amount <> ("|" <> blinded_b64))))))

-- What a human compares before a keyset is pinned.
unfoldable pub modulus_fingerprint : Crates → String → Result CryptoError String
unfolding b64_decode
modulus_fingerprint c n_b64 = do bytes ← b64_decode c n_b64; ok (hex_encode (c.sha256 bytes))

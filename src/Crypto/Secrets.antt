-- ===== src/Crypto/Secrets.antt =====
-- Hexadecimal texts, and secrets with the lock that they may carry.
use fupi.Common.{
  ℕ, ◌+◌, ◌-◌, ◌*◌, ◌/◌, ◌%◌, String, ◌<>◌, ◌&&◌, ◌||◌, not, Option, none, some, List, [], ◌∷◌,
  length, any, ltb, leb, ◌==◌, if◌then◌else◌,
}
use fupi.Common.Result.{Result, ok, err, ◌>>=◌, ok_or}
use fupi.Common.Text.{codes, trim, show}

pub data CryptoError : Type 0 where
  base64_decode_error : String → CryptoError
  no_modular_inverse verification_failed invalid_exponent : CryptoError
  invalid_lock : String → CryptoError

-- `CryptoError::to_string`
unfoldable pub crypto_error_text : CryptoError → String
crypto_error_text (base64_decode_error e) = "Base64 decode error: " <> e
crypto_error_text no_modular_inverse = "No modular inverse exists (gcd != 1)"
crypto_error_text verification_failed = "Signature verification failed"
crypto_error_text invalid_exponent = "Invalid RSA public exponent"
crypto_error_text (invalid_lock e) = "Invalid P2PK lock: " <> e

-- A lower-case hexadecimal digit.
abbrev pub hex_digit_text : ℕ → String
hex_digit_text d =
    if ltb d 10
    then show d
    else if d == 10
    then "a"
    else if d == 11
    then "b"
    else if d == 12
    then "c"
    else if d == 13
    then "d"
    else if d == 14
    then "e"
    else "f"

unfoldable pub hex_encode : List ℕ → String
hex_encode [] = ""
hex_encode (b ∷ bytes) = hex_digit_text (b / 16) <> (hex_digit_text (b % 16) <> hex_encode bytes)

unfoldable pub hex_digit : ℕ → Option ℕ
hex_digit c =
    if leb b'0' c && leb c b'9'
    then some (c - 48)
    else if leb b'a' c && leb c b'f'
    then some (c - 87)
    else if leb b'A' c && leb c b'F'
    then some (c - 55)
    else none

-- `u8::from_str_radix` of two characters, the first of which may be a plus sign.
unfoldable pub byte_of : ℕ → ℕ → Option ℕ
unfolding hex_digit
byte_of hi lo = if hi == b'+' then hex_digit lo else (elim (hex_digit hi) [
  | none ↦ none
  | some h ↦ elim (hex_digit lo) [ none ↦ none | some l ↦ some (h * 16 + l) ]
])

unfoldable pub bytes_of_pairs : List ℕ → Option (List ℕ)
unfolding byte_of
bytes_of_pairs [] = some []
bytes_of_pairs (c ∷ []) = none
bytes_of_pairs (c ∷ d ∷ cs) = elim (byte_of c d) [
  | none ↦ none
  | some b ↦ elim (bytes_of_pairs cs) [ none ↦ none | some bytes ↦ some (b ∷ bytes) ]
]

-- Takes the code points of a text. An ASCII text has as many bytes as code points.
unfoldable pub hex_decode : List ℕ → Option (List ℕ)
unfolding bytes_of_pairs
hex_decode s =
    let t = trim s in
    if not (length t % 2 == 0) || any (λ c. leb 128 c) t then none else bytes_of_pairs t

abbrev pub lock_mark : String
lock_mark = "|lock="

unfoldable pub strip_prefix : List ℕ → List ℕ → Option (List ℕ)
strip_prefix [] cs = some cs
strip_prefix (p ∷ ps) [] = none
strip_prefix (p ∷ ps) (c ∷ cs) = let rest = strip_prefix ps cs in if p == c then rest else none

-- What stands behind the first occurrence of a mark: `secret.find(LOCK_MARK)` and the slice.
unfoldable pub after_mark : List ℕ → List ℕ → Option (List ℕ)
unfolding strip_prefix
after_mark mark [] = strip_prefix mark []
after_mark mark (c ∷ cs) =
    let later = after_mark mark cs in
    elim (strip_prefix mark (c ∷ cs)) [ some rest ↦ some rest | none ↦ later ]

-- `bytes.try_into()` into 32 bytes
abbrev pub as_key : List ℕ → Option (List ℕ)
as_key bytes = if length bytes == 32 then some bytes else none

unfoldable pub lock_of : String → Result CryptoError (Option (List ℕ))
unfolding after_mark hex_decode
lock_of secret = elim (after_mark (codes lock_mark) (codes secret)) [
  | none ↦ ok none
  | some rest ↦ elim (hex_decode rest) [
    | none ↦ err (invalid_lock "not hex")
    | some bytes ↦ elim (as_key bytes) [
      | none ↦ err (invalid_lock "pubkey must be 32 bytes")
      | some key ↦ ok (some key)
    ]
  ]
]

-- `generate_secret`, of the sixteen bytes that the operating system's generator returns.
unfoldable pub generate_secret : List ℕ → String
unfolding hex_encode
generate_secret random = "fupi-" <> hex_encode random

-- `hex_decode(…).filter(|b| b.len() == 32)`
abbrev pub hex_key : String → Option (List ℕ)
hex_key s = elim (hex_decode (codes s)) [ none ↦ none | some bytes ↦ as_key bytes ]

unfoldable pub generate_locked_secret : List ℕ → String → Result CryptoError String
unfolding generate_secret
generate_locked_secret random lock_pub_hex = do
  key ← ok_or (hex_key lock_pub_hex) (invalid_lock "pubkey must be 32 bytes of hex")
  ok (generate_secret random <> (lock_mark <> hex_encode key))

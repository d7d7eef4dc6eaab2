-- ===== src/Crypto/Hex.antt =====
-- Hexadecimal texts: what is printed is read back.
use fupi.Common.{
  ℕ, ◌+◌, ◌*◌, ◌%◌, ◌<◌, ◌==◌, ◌≡◌, refl, true, false, ◌||◌, not, some, List, [], ◌∷◌, arith, All,
  length, ==_iff, any, leb, inl, inr, Bool-cases, Option-cases,
}
use fupi.Common.Text.{codes, trim, trim_start, trim_end}
use fupi.Crypto.{hex_digit, hex_encode, byte_of, bytes_of_pairs, hex_decode}
use fupi.Crypto.Digits.{ArePlain, is_plain_lem, pair}

pub hex_encode-ArePlain :
    (bytes : List ℕ) → All (λ b. b < 256) bytes → ArePlain (codes (hex_encode bytes))
unfolding hex_encode
hex_encode-ArePlain [] small = tt
hex_encode-ArePlain (b ∷ bytes) small =
    let p = pair b bytes small.0 in
    rw p.printed (p.hi_plain, (p.lo_plain, hex_encode-ArePlain bytes small.1))

bytes_of_pairs-hex_encode :
    (bytes : List ℕ)
    → All (λ b. b < 256) bytes
    → bytes_of_pairs (codes (hex_encode bytes)) ≡ some bytes
unfolding hex_encode bytes_of_pairs
bytes_of_pairs-hex_encode [] small = refl
bytes_of_pairs-hex_encode (b ∷ bytes) small =
    let p = pair b bytes small.0 in
    rw (p.printed, bytes_of_pairs, p.read, bytes_of_pairs-hex_encode bytes small.1) refl

pub length-hex_encode :
    (bytes : List ℕ)
    → All (λ b. b < 256) bytes
    → length (codes (hex_encode bytes)) ≡ 2 * length bytes
unfolding hex_encode
length-hex_encode [] small = refl
length-hex_encode (b ∷ bytes) small =
    let p = pair b bytes small.0 in rw p.printed (omega (arith, length-hex_encode bytes small.1))

trim_start-ArePlain : (cs : List ℕ) → ArePlain cs → trim_start cs ≡ cs
unfolding trim_start
trim_start-ArePlain [] plain = refl
trim_start-ArePlain (c ∷ cs) plain = rw (is_plain_lem c plain.0).no_space refl

trim_end-ArePlain : (cs : List ℕ) → ArePlain cs → trim_end cs ≡ cs
unfolding trim_end
trim_end-ArePlain [] plain = refl
trim_end-ArePlain (c ∷ []) plain = rw (is_plain_lem c plain.0).no_space refl
trim_end-ArePlain (c ∷ d ∷ cs) plain = rw (trim_end-ArePlain (d ∷ cs) plain.1) refl

ArePlain-ascii : (cs : List ℕ) → ArePlain cs → any (λ c. leb 128 c) cs ≡ false
ArePlain-ascii [] plain = refl
ArePlain-ascii (c ∷ cs) plain = rw (is_plain_lem c plain.0).ascii (ArePlain-ascii cs plain.1)

even_test : (n : ℕ) → ((2 * n) % 2 == 0) ≡ true
even_test n = (==_iff ((2 * n) % 2) 0).1 (omega arith)

hex_digit_bound : (c d : ℕ) → hex_digit c ≡ some d → d < 16
unfolding hex_digit
hex_digit_bound c d h = ground arith

byte_of_bound : (hi lo b : ℕ) → byte_of hi lo ≡ some b → b < 256
unfolding byte_of
byte_of_bound hi lo b h = elim (Bool-cases (hi == b'+')) [
  | inl e1 ↦ omega (arith, hex_digit_bound lo b (rw e1 at h))
  | inr e1 ↦ elim (Option-cases (hex_digit hi)) [
    | inl e2 ↦ cc (rw (e1, e2) at h)
    | inr (x, e2) ↦ elim (Option-cases (hex_digit lo)) [
      | inl e3 ↦ cc (rw (e1, e2, e3) at h)
      | inr (y, e3) ↦
          let same : x * 16 + y ≡ b = cc (rw (e1, e2, e3) at h) in
          omega (arith, same, hex_digit_bound hi x e2, hex_digit_bound lo y e3)
    ]
  ]
]

bytes_of_pairs_bound :
    (cs bytes : List ℕ) → bytes_of_pairs cs ≡ some bytes → All (λ b. b < 256) bytes
unfolding bytes_of_pairs
bytes_of_pairs_bound [] [] h = tt
bytes_of_pairs_bound [] (b ∷ bytes) h = cc
bytes_of_pairs_bound (c ∷ []) bytes h = cc
bytes_of_pairs_bound (c ∷ d ∷ cs) bytes h = elim (Option-cases (byte_of c d)) [
  | inl e1 ↦ cc (rw (e1, bytes_of_pairs) at h)
  | inr (b, e1) ↦ elim (Option-cases (bytes_of_pairs cs)) [
    | inl e2 ↦ cc (rw (e1, e2, bytes_of_pairs) at h)
    | inr (rest, e2) ↦
        let same : b ∷ rest ≡ bytes = cc (rw (e1, e2, bytes_of_pairs) at h) in
        rw (← same) (byte_of_bound c d b e1, bytes_of_pairs_bound cs rest e2)
  ]
]

-- What is read from hexadecimal digits are bytes.
pub hex_decode_bound : (cs bytes : List ℕ) → hex_decode cs ≡ some bytes → All (λ b. b < 256) bytes
unfolding hex_decode
hex_decode_bound cs bytes h =
    elim (Bool-cases (not (length (trim cs) % 2 == 0) || any (λ c. leb 128 c) (trim cs))) [
      | inl e ↦ cc (rw e at h)
      | inr e ↦ bytes_of_pairs_bound (trim cs) bytes (rw e at h)
    ]

-- What is printed as hexadecimal digits is read back as the same bytes.
pub hex_decode-hex_encode :
    (bytes : List ℕ) → All (λ b. b < 256) bytes → hex_decode (codes (hex_encode bytes)) ≡ some bytes
unfolding hex_decode trim
hex_decode-hex_encode bytes small =
    let text = codes (hex_encode bytes) in
    let plain = hex_encode-ArePlain bytes small in
    rw
      (
        trim_start-ArePlain text plain,
        trim_end-ArePlain text plain,
        length-hex_encode bytes small,
        even_test (length bytes),
        ArePlain-ascii text plain,
        bytes_of_pairs-hex_encode bytes small,
      )
      refl

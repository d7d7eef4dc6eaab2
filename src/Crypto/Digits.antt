-- ===== src/Crypto/Digits.antt =====
-- Hexadecimal digits as they are printed.
use fupi.Common.{
  ℕ, zero, suc, ◌/◌, ◌%◌, ◌<◌, ◌==◌, ◌≡◌, refl, ap, String, ◌<>◌, Bool, true, false, some, List, [],
  ◌∷◌, ◌++◌, arith, All, if◌then◌else◌, ==_iff, leb, inl, inr, Bool-cases,
}
use text.Mathlib.TextLemmas.{nil-append, cons-append}
use fupi.Common.Text.{codes, show, is_whitespace}
use fupi.Crypto.{hex_digit_text, hex_digit, hex_encode, byte_of}

below : ℕ → List ℕ
below zero = []
below (suc n) = n ∷ below n

All-below : (P : ℕ → Type 0) (n d : ℕ) → All P (below n) → d < n → P d
unfolding below
All-below P zero d all lt = absurd (omega arith)
All-below P (suc n) d all lt = elim (Bool-cases (d == n)) [
  | inl here ↦ let same : d ≡ n = (==_iff d n).0 here in rw same all.0
  | inr other ↦ All-below P n d all.1 (ground arith)
]

-- A code point of a printed digit: no white space, no sign, no bar, and ASCII.
abbrev pub is_plain : ℕ → Bool
is_plain h =
    if h == b'+'
    then false
    else if b'|' == h
    then false
    else if is_whitespace h
    then false
    else if leb 128 h
    then false
    else true

-- The code point that a digit is printed as, which is read back as the digit.
abbrev IsDigit : ℕ → Type 0
IsDigit d =
    (h : ℕ) × (codes (hex_digit_text d) ≡ h ∷ []) × (hex_digit h ≡ some d) × (is_plain h ≡ true)

digits : All IsDigit (below 16)
unfolding below show hex_digit is_whitespace
digits = (
  (_, refl, refl, refl),
  (
    (_, refl, refl, refl),
    (
      (_, refl, refl, refl),
      (
        (_, refl, refl, refl),
        (
          (_, refl, refl, refl),
          (
            (_, refl, refl, refl),
            (
              (_, refl, refl, refl),
              (
                (_, refl, refl, refl),
                (
                  (_, refl, refl, refl),
                  (
                    (_, refl, refl, refl),
                    (
                      (_, refl, refl, refl),
                      (
                        (_, refl, refl, refl),
                        (
                          (_, refl, refl, refl),
                          (
                            (_, refl, refl, refl),
                            ((_, refl, refl, refl), ((_, refl, refl, refl), tt)),
                          ),
                        ),
                      ),
                    ),
                  ),
                ),
              ),
            ),
          ),
        ),
      ),
    ),
  ),
)

-- Plain code points, which trimming leaves alone.
abbrev pub ArePlain : List ℕ → Type 0
ArePlain = All (λ h. is_plain h ≡ true)

pub codes-append : (s t : String) → codes (s <> t) ≡ codes s ++ codes t
codes-append String.[] t = rw (nil-append t) refl
codes-append (String.◌∷◌ c s) t = rw (cons-append c s t, codes-append s t, codes) refl

-- The two code points of a byte.
pub record IsPair (b : ℕ) (bytes : List ℕ) : Type 0 where
  pub hi : ℕ
  pub lo : ℕ
  pub printed : codes (hex_encode (b ∷ bytes)) ≡ hi ∷ lo ∷ codes (hex_encode bytes)
  pub read : byte_of hi lo ≡ some b
  pub hi_plain : is_plain hi ≡ true
  pub lo_plain : is_plain lo ≡ true

-- What plain means.
pub record IsPlain (h : ℕ) : Type 0 where
  pub no_sign : (h == b'+') ≡ false
  pub no_bar : (b'|' == h) ≡ false
  pub no_space : is_whitespace h ≡ false
  pub ascii : leb 128 h ≡ false

pub is_plain_lem : (h : ℕ) → is_plain h ≡ true → IsPlain h
is_plain_lem h plain = elim (Bool-cases (h == b'+')) [
  | inl e ↦ cc (rw e at plain)
  | inr sign ↦ elim (Bool-cases (b'|' == h)) [
    | inl e ↦ cc (rw (sign, e) at plain)
    | inr bar ↦ elim (Bool-cases (is_whitespace h)) [
      | inl e ↦ cc (rw (sign, bar, e) at plain)
      | inr space ↦ elim (Bool-cases (leb 128 h)) [
        | inl e ↦ cc (rw (sign, bar, space, e) at plain)
        | inr small ↦ record { no_sign = sign; no_bar = bar; no_space = space; ascii = small }
      ]
    ]
  ]
]

pub pair : (b : ℕ) (bytes : List ℕ) → b < 256 → IsPair b bytes
unfolding hex_encode byte_of
pair b bytes small =
    let (hi, hi_text, hi_read, hi_plain) = All-below IsDigit 16 (b / 16) digits (omega arith) in
    let (lo, lo_text, lo_read, lo_plain) = All-below IsDigit 16 (b % 16) digits (omega arith) in
    record {
      hi = hi;
      lo = lo;
      printed =
          rw
            (
              codes-append (hex_digit_text (b / 16)) (hex_digit_text (b % 16) <> hex_encode bytes),
              codes-append (hex_digit_text (b % 16)) (hex_encode bytes),
              hi_text,
              lo_text,
            )
            refl;
      read = rw ((is_plain_lem hi hi_plain).no_sign, hi_read, lo_read) (ap some (omega arith));
      hi_plain = hi_plain;
      lo_plain = lo_plain;
    }

-- ===== src/Crypto/Tests.antt =====
-- Small stand-ins for the crates, and the theorems of blind signatures at concrete inputs: the RSA
-- key with modulus 33 and the exponents 3 and 7.
use fupi.Common.{
  All, zero, suc, ℕ, ◌+◌, ◌*◌, ◌%◌, ◌^◌, ◌<◌, ◌≡◌, refl, true, inl, inr, Option, none, some, List,
  [], ◌∷◌, String, length, arith, ◌==◌, if◌then◌else◌, Bool-cases, ==_iff, ◌↔◌,
}
use fupi.Common.Result.{ok}
use fupi.Common.Text.{as_bytes, codes, trim, show, parse_u64}
use fupi.Crypto.{
  Crates, IsLawful, pos, negsuc, blind, unblind, verify, hash_to_scalar, modinv, hex_decode,
  lock_of, generate_locked_secret, random_blinder, generate_claim_keypair, public_key_of,
  claim_signature, hex_encode,
}
use fupi.Crypto.Issue.{random_blinder-unblind, generate_claim_keypair-public_key_of}
use fupi.Crypto.Lock.{lock_of-generate_locked_secret}
use fupi.Crypto.Blind.{unblind_iff}

abbrev one_number : List ℕ → Option (List ℕ)
one_number text = elim (parse_u64 text) [ none ↦ none | some n ↦ some (n ∷ []) ]

abbrev first : List ℕ → ℕ
first [] = 0
first (x ∷ xs) = x

-- A number is written in decimal, every secret has the hash 5, and the only inverse known is that of
-- 2 modulo 33.
abbrev pub toy_crates : Crates
toy_crates = record {
  url_no_pad_encode = λ bytes. show (first bytes);
  url_no_pad_decode = one_number;
  url_decode = λ _. none;
  std_no_pad_decode = λ _. none;
  std_decode = λ _. none;
  std_decode_error = λ _. "not a number";
  from_bytes_be = first;
  to_bytes_be = λ n. n ∷ [];
  modpow = λ b e n. b ^ e % n;
  extended_gcd = λ a b.
      if a * 17 == 1 + b
      then record { gcd = 1; x = pos 17; y = negsuc 0 }
      else record { gcd = a; x = pos 1; y = pos 0 };
  gcd = λ a b. if a * 17 == 1 + b then 1 else a;
  sha256 = λ _. 5 ∷ [];
  ed25519_sign = λ key message. message;
  ed25519_public = λ key. key;
}

toy_crates-IsLawful : IsLawful toy_crates
toy_crates-IsLawful = record {
  modpow_lem = λ b e n positive. refl;
  bezout = λ a b. elim (Bool-cases (a * 17 == 1 + b)) [
    | inl e ↦ let eq = (==_iff (a * 17) (1 + b)).0 e in rw e (omega arith)
    | inr e ↦ rw e (omega arith)
  ];
  gcd_lem = λ a b. elim (Bool-cases (a * 17 == 1 + b)) [ inl e ↦ rw e refl | inr e ↦ rw e refl ];
}

unblind_iff_example :
    (verify toy_crates (blind toy_crates 5 2 3 33) 28 3 33 ≡ true)
    ↔ (verify toy_crates 5 14 3 33 ≡ true)
unfolding unblind modinv
unblind_iff_example = unblind_iff toy_crates toy_crates-IsLawful 5 2 3 33 28 14 (omega arith) refl

-- The blind signature of the blinded message 7 is 28, and the key's owner would sign 5 by 14.
signed_5 : verify toy_crates 5 14 3 33 ≡ true
unfolding verify
signed_5 = refl

abbrev key_text : String
key_text = "0707070707070707070707070707070707070707070707070707070707070707"

abbrev locked_secret : String
locked_secret = "fupi-01|lock=0707070707070707070707070707070707070707070707070707070707070707"

locked : generate_locked_secret (1 ∷ []) key_text ≡ ok locked_secret
unfolding generate_locked_secret hex_decode trim show
locked = refl

lock_of-generate_locked_secret_example :
    (key : List ℕ) × (hex_decode (codes key_text) ≡ some key)
    × (length key ≡ 32)
    × (lock_of locked_secret ≡ ok (some key))
lock_of-generate_locked_secret_example =
    lock_of-generate_locked_secret (1 ∷ []) key_text locked_secret (omega arith, tt) locked

drawn : random_blinder toy_crates 33 ((0 ∷ []) ∷ []) ≡ some 2
unfolding random_blinder
drawn = refl

random_blinder-unblind_example :
    (sig : ℕ) × (unblind toy_crates 28 2 33 ≡ ok sig)
    × ((verify toy_crates (blind toy_crates (hash_to_scalar toy_crates (1 ∷ []) 33) 2 3 33) 28 3 33
          ≡ true)
        ↔ (verify toy_crates (hash_to_scalar toy_crates (1 ∷ []) 33) sig 3 33 ≡ true))
random_blinder-unblind_example =
    random_blinder-unblind toy_crates toy_crates-IsLawful 33 (omega arith) ((0 ∷ []) ∷ []) (1 ∷ [])
      2 3 28 drawn

sevens : ℕ → List ℕ
sevens zero = []
sevens (suc n) = 7 ∷ sevens n

sevens_bytes : (n : ℕ) → All (λ b. b < 256) (sevens n)
unfolding sevens
sevens_bytes zero = tt
sevens_bytes (suc n) = (omega arith, sevens_bytes n)

sevens_full : length (sevens 32) ≡ 32
unfolding sevens
sevens_full = refl

generate_claim_keypair-public_key_of_example :
    let (sk, pk) = generate_claim_keypair toy_crates (sevens 32) in
    (public_key_of toy_crates sk ≡ ok pk)
    × (claim_signature toy_crates sk "a" ≡ ok (hex_encode (as_bytes "a")))
generate_claim_keypair-public_key_of_example =
    generate_claim_keypair-public_key_of toy_crates (sevens 32) "a" sevens_full (sevens_bytes 32)

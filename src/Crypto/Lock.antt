-- ===== src/Crypto/Lock.antt =====
-- The lock inside a secret: what `generate_locked_secret` writes, `lock_of` reads.
use fupi.Common.{
  ℕ, ◌<◌, ◌==◌, ==_refl, ==_iff, ◌≡◌, refl, String, ◌<>◌, some, List, [], ◌∷◌, ◌++◌, All, length,
  inl, inr, Bool-cases, Option-cases,
}
use fupi.Common.Result.{ok, ok_or, ok->>=, ok_or-some}
use fupi.Common.Text.{codes, is_whitespace}
use fupi.Crypto.{
  hex_encode, hex_decode, lock_mark, strip_prefix, after_mark, as_key, hex_key, lock_of,
  generate_secret, generate_locked_secret,
}
use fupi.Crypto.Digits.{ArePlain, is_plain_lem, codes-append}
use fupi.Crypto.Hex.{hex_encode-ArePlain, hex_decode-hex_encode, hex_decode_bound}

strip_prefix-append : (mark rest : List ℕ) → strip_prefix mark (mark ++ rest) ≡ some rest
unfolding strip_prefix
strip_prefix-append [] rest = refl
strip_prefix-append (m ∷ mark) rest = rw (==_refl m) (strip_prefix-append mark rest)

module _ (tail : List ℕ) where
  abbrev mark : List ℕ
  mark = b'|' ∷ tail

  -- Behind plain code points, a mark is found that starts with a bar.
  after_mark-append :
      (cs rest : List ℕ) → ArePlain cs → after_mark mark (cs ++ (mark ++ rest)) ≡ some rest
  unfolding after_mark strip_prefix
  after_mark-append [] rest plain = rw (strip_prefix-append tail rest) refl
  after_mark-append (c ∷ cs) rest plain =
      rw ((is_plain_lem c plain.0).no_bar, after_mark) (after_mark-append cs rest plain.1)

generate_secret-ArePlain :
    (random : List ℕ) → All (λ b. b < 256) random → ArePlain (codes (generate_secret random))
unfolding generate_secret is_whitespace
generate_secret-ArePlain random small =
    rw (codes-append "fupi-" (hex_encode random))
      (refl, (refl, (refl, (refl, (refl, hex_encode-ArePlain random small)))))

lock_of_text :
    (random key : List ℕ)
    → All (λ b. b < 256) random
    → All (λ b. b < 256) key
    → as_key key ≡ some key
    → lock_of (generate_secret random <> (lock_mark <> hex_encode key)) ≡ ok (some key)
unfolding lock_of
lock_of_text random key small_random small_key long =
    rw
      (
        lock_of,
        codes-append (generate_secret random) (lock_mark <> hex_encode key),
        codes-append lock_mark (hex_encode key),
        after_mark-append (b'l' ∷ b'o' ∷ b'c' ∷ b'k' ∷ b'=' ∷ []) (codes (generate_secret random))
            (codes (hex_encode key)) (generate_secret-ArePlain random small_random),
        hex_decode-hex_encode key small_key,
        long,
      )
      refl

hex_key_lem :
    (pk : String) (key : List ℕ)
    → hex_key pk ≡ some key
    → (hex_decode (codes pk) ≡ some key) × (length key ≡ 32)
hex_key_lem pk key h = elim (Option-cases (hex_decode (codes pk))) [
  | inl e1 ↦ cc (rw (e1, hex_key) at h)
  | inr (bytes, e1) ↦ elim (Bool-cases (length bytes == 32)) [
    | inr e2 ↦ cc (rw (e1, e2, hex_key) at h)
    | inl e2 ↦
        let same : bytes ≡ key = cc (rw (e1, e2, hex_key) at h) in
        rw (← same) (e1, (==_iff (length bytes) 32).0 e2)
  ]
]

-- A secret that is generated with a lock, from any random bytes, carries that lock: `lock_of` reads the
-- 32 bytes that the hexadecimal public key stands for.
pub lock_of-generate_locked_secret :
    (random : List ℕ) (pk secret : String)
    → All (λ b. b < 256) random
    → generate_locked_secret random pk ≡ ok secret
    → (key : List ℕ) × (hex_decode (codes pk) ≡ some key)
      × (length key ≡ 32)
      × (lock_of secret ≡ ok (some key))
unfolding generate_locked_secret
lock_of-generate_locked_secret random pk secret small h =
    let (key, made, read) = ok->>= (ok_or (hex_key pk) _) _ h in
    let (decoded, long) = hex_key_lem pk key (ok_or-some (hex_key pk) _ key read) in
    let same : generate_secret random <> (lock_mark <> hex_encode key) ≡ secret = cc made in
    (
      key,
      decoded,
      long,
      rw (← same) (
          lock_of_text random key small (hex_decode_bound (codes pk) key decoded)
            (rw ((==_iff (length key) 32).1 long) refl)),
    )

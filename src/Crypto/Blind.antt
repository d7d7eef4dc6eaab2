-- ===== src/Crypto/Blind.antt =====
-- Blind signatures: what `unblind` returns is a signature of the message exactly when the ATM
-- signed the blinded message.
use native.Mathlib.Nat.{mod-lt, mod-eq_of_lt, mod-add-div, add-mul-mod_self_left}
use fupi.Common.{
  ℕ, suc, ◌+◌, ◌*◌, ◌/◌, ◌%◌, ◌^◌, ◌≤◌, ◌<◌, ◌≡◌, refl, sym, ap, ◌∙◌, ◌↔◌, inl, inr, true, List,
  arith, ltb, leb, ◌==◌, ==_iff, Bool-cases, leb→lt, ltb→le,
}
use fupi.Common.Result.{ok, ok->>=}
use fupi.Common.Modular.{
  Congruent, Congruent-mod, Congruent-mul, Congruent-pow, mul-pow, Congruent-inverse,
}
use fupi.Crypto.{
  Crates, IsLawful, ℤ, pos, negsuc, pos_part, neg_part, reduced, modinv, blind, unblind, verify,
  hash_to_scalar,
}

-- What is equal to `b` but for multiples of `n` is congruent to it.
Congruent-of_multiples : (n a b p q : ℕ) → a + n * p ≡ b + n * q → Congruent n a b
Congruent-of_multiples n a b p q e =
    sym (add-mul-mod_self_left a n p) ∙ ap (λ (t : ℕ). t % n) e ∙ add-mul-mod_self_left b n q

-- A negative remainder, raised by the modulus, is the negated number.
reduced-negsuc : (x m : ℕ) → 0 < m → (k : ℕ) × (reduced (negsuc x) m + suc x ≡ m * k)
unfolding reduced
reduced-negsuc x m h =
    let e : suc x % m + m * (suc x / m) ≡ suc x = mod-add-div (suc x) m in
    let small : suc x % m < m = mod-lt (suc x) h in
    elim (Bool-cases (ltb 0 (suc x % m))) [
      | inl up ↦ (suc x / m + 1, rw up (omega arith))
      | inr even ↦ (suc x / m, rw even (omega (arith, ltb→le 0 (suc x % m) even)))
    ]

reduced-inverse :
    (a m : ℕ) (x y : ℤ)
    → 0 < m
    → a * pos_part x + m * pos_part y ≡ 1 + a * neg_part x + m * neg_part y
    → Congruent m (a * reduced x m) 1
reduced-inverse a m (pos x) y h e =
    unfold reduced in
    (Congruent-mul m a a (x % m) x refl (Congruent-mod m x)
      ∙ Congruent-of_multiples m (a * x) 1 (pos_part y) (neg_part y) (omega arith))
reduced-inverse a m (negsuc x) y h e =
    let (k, raised) = reduced-negsuc x m h in
    let scaled = ap (λ (t : ℕ). a * t) raised in
    Congruent-of_multiples m (a * reduced (negsuc x) m) 1 (pos_part y) (neg_part y + a * k)
      (omega arith)

regroup : (n a b : ℕ) → a ≡ b → Congruent n a b
regroup n a b e = ap (λ (t : ℕ). t % n) e

module _ (c : Crates) (lawful : IsLawful c) where
  modinv_lem : (a m r : ℕ) → modinv c a m ≡ ok r → (1 < m) × Congruent m (a * r) 1
  unfolding modinv
  modinv_lem a m r h = elim (Bool-cases (leb m 1)) [
    | inl small ↦ cc (rw (small, modinv) at h)
    | inr big ↦ elim (Bool-cases ((c.extended_gcd a m).gcd == 1)) [
      | inl coprime ↦
          let e : reduced (c.extended_gcd a m).x m ≡ r = cc (rw (big, coprime, modinv) at h) in
          let g = (==_iff (c.extended_gcd a m).gcd 1).0 coprime in
          let one = leb→lt m 1 big in
          (
            one,
            rw (← e) (
                reduced-inverse a m (c.extended_gcd a m).x (c.extended_gcd a m).y (omega arith)
                  (omega (arith, lawful.bezout a m))),
          )
      | inr shared ↦ cc (rw (big, shared, modinv) at h)
    ]
  ]

  unblind_lem :
      (s r n sig : ℕ)
      → unblind c s r n ≡ ok sig
      → (i : ℕ) × (1 < n) × Congruent n (r * i) 1 × (sig ≡ s * i % n)
  unfolding unblind
  unblind_lem s r n sig h =
      let (i, e, found) = ok->>= (modinv c r n) (λ i. ok (s * i % n)) h in
      let (one, inverse) = modinv_lem r n i found in (i, one, inverse, cc)

  verify_iff : (m sig e n : ℕ) → m < n → (verify c m sig e n ≡ true) ↔ Congruent n (sig ^ e) m
  unfolding verify
  verify_iff m sig e n below =
      let power : c.modpow sig e n ≡ sig ^ e % n = lawful.modpow_lem sig e n (omega arith) in
      let small : m % n ≡ m = mod-eq_of_lt below in
      (
        λ v. (sym power ∙ (==_iff (c.modpow sig e n) m).0 v) ∙ sym small,
        λ k. (==_iff (c.modpow sig e n) m).1 (power ∙ k ∙ small),
      )

  blind-Congruent :
      (m r e n : ℕ) → 0 < n → (blind c m r e n < n) × Congruent n (blind c m r e n) (m * r ^ e)
  unfolding blind
  blind-Congruent m r e n pos_n = (
    mod-lt (m * c.modpow r e n) pos_n,
    Congruent-mod n (m * c.modpow r e n)
        ∙ Congruent-mul n m m (c.modpow r e n) (r ^ e) refl
            (rw (lawful.modpow_lem r e n pos_n) (Congruent-mod n (r ^ e))),
  )

  -- In a modulus with an inverse of the blinding factor, and for a message below the modulus, the
  -- unblinded signature verifies exactly when the ATM's answer is a signature of the blinded message.
  pub unblind_iff :
      (m r e n s_blind sig : ℕ)
      → m < n
      → unblind c s_blind r n ≡ ok sig
      → (verify c (blind c m r e n) s_blind e n ≡ true) ↔ (verify c m sig e n ≡ true)
  unblind_iff m r e n s_blind sig below h =
      let (i, one, inverse, e_sig) = unblind_lem s_blind r n sig h in
      let (b_small, b_cong) = blind-Congruent m r e n (omega arith) in
      let b_iff = verify_iff (blind c m r e n) s_blind e n b_small in
      let m_iff = verify_iff m sig e n below in
      let sig_cong : Congruent n (sig ^ e) (s_blind ^ e * i ^ e) =
        ap (λ (t : ℕ). t ^ e % n) e_sig
        ∙ Congruent-pow n (s_blind * i % n) (s_blind * i) e (Congruent-mod n (s_blind * i))
        ∙ ap (λ (t : ℕ). t % n) (mul-pow s_blind i e) in
      (
        λ v. m_iff.1 (
            sig_cong
            ∙ Congruent-mul n (s_blind ^ e) (m * r ^ e) (i ^ e) (i ^ e) (b_iff.0 v ∙ b_cong) refl
            ∙ regroup n (m * r ^ e * i ^ e) (m * (r ^ e * i ^ e)) (omega arith)
            ∙ Congruent-inverse n m r i e inverse),
        λ v. b_iff.1 (
            sym (Congruent-inverse n (s_blind ^ e) r i e inverse)
            ∙ regroup n (s_blind ^ e * (r ^ e * i ^ e)) (s_blind ^ e * i ^ e * r ^ e) (omega arith)
            ∙ Congruent-mul n (s_blind ^ e * i ^ e) m (r ^ e) (r ^ e) (sym sig_cong ∙ m_iff.0 v)
                refl
            ∙ sym b_cong),
      )

  -- A hashed secret is a message above 1 and below the modulus.
  pub hash_to_scalar_bounds :
      (secret : List ℕ) (n : ℕ)
      → 2 < n
      → (2 ≤ hash_to_scalar c secret n) × (hash_to_scalar c secret n < n)
  unfolding hash_to_scalar
  hash_to_scalar_bounds secret n h =
      let below : c.from_bytes_be (c.sha256 secret) % n < n = mod-lt _ (omega arith) in ground arith

-- ===== src/Vault/Tokens/Genuine.antt =====
-- What the offline check of a token accepts.
use fupi.Common.{
  ℕ, ◌≡◌, refl, String, true, false, not, ◌||◌, ◌&&◌, ◌==◌, inl, inr, Option, List, [], ◌∷◌, length,
  any, All, leb, ltb, str_eq, Bool-cases, ◌↔◌,
}
use fupi.Common.Result.{ok}
use fupi.Common.Text.{as_bytes}
use fupi.Types.{Keyset, Proof}
use fupi.Crypto.{Crates, b64_to_biguint, hash_to_scalar, verify, lock_of}
use fupi.Vault.Environment.{TokenCodec}
use fupi.Vault.Session.Steps.{Result-cases}
use fupi.Vault.Keysets.{bad_exponent, is_empty}
use fupi.Vault.Tokens.{keyset_of, verify_proof, verify_proofs, decode_token, verify_offline_set}

module _ (c : Crates) (keysets : List Keyset) where
  -- A proof that a trusted keyset vouches for: its own modulus, if it names one, and exponent are the
  -- keyset's; its lock is well formed and its secret short; and its signature, below the modulus,
  -- opens to the hash of its secret under the keyset's key.
  pub record IsGenuine (p : Proof) : Type 0 where
    pub keyset : Keyset
    pub trusted : keyset_of keysets p ≡ ok keyset
    pub n : ℕ
    pub modulus : b64_to_biguint c keyset.n ≡ ok n
    pub same_n : (str_eq p.n "" || str_eq p.n keyset.n) ≡ true
    pub same_e : (p.e == keyset.e) ≡ true
    pub lock : Option (List ℕ)
    pub well_locked : lock_of p.secret ≡ ok lock
    pub short : (not (str_eq p.secret "") && leb (length (as_bytes p.secret)) 256) ≡ true
    pub sig : ℕ
    pub signature : b64_to_biguint c p.sig ≡ ok sig
    pub signed :
        (ltb sig n && verify c (hash_to_scalar c (as_bytes p.secret) n) sig keyset.e n) ≡ true

  verify_proof-IsGenuine : (p : Proof) → verify_proof c keysets p ≡ ok tt → IsGenuine p
  unfolding verify_proof
  verify_proof-IsGenuine p h = elim (Result-cases (keyset_of keysets p)) [
    | inr (_, e1) ↦ cc (rw e1 at h)
    | inl (ks, e1) ↦ elim (Result-cases (b64_to_biguint c ks.n)) [
      | inr (_, e2) ↦ cc (rw (e1, e2) at h)
      | inl (n, e2) ↦ elim (Bool-cases (str_eq p.n "" || str_eq p.n ks.n)) [
        | inr e3 ↦ cc (rw (e1, e2, e3) at h)
        | inl e3 ↦ elim (Bool-cases (p.e == ks.e)) [
          | inr e4 ↦ cc (rw (e1, e2, e3, e4) at h)
          | inl e4 ↦ elim (Result-cases (lock_of p.secret)) [
            | inr (_, e5) ↦ cc (rw (e1, e2, e3, e4, e5) at h)
            | inl (lock, e5) ↦
                elim (Bool-cases
                  (not (str_eq p.secret "") && leb (length (as_bytes p.secret)) 256)) [
                    | inr e6 ↦ cc (rw (e1, e2, e3, e4, e5, e6) at h)
                    | inl e6 ↦ elim (Result-cases (b64_to_biguint c p.sig)) [
                      | inr (_, e7) ↦ cc (rw (e1, e2, e3, e4, e5, e6, e7) at h)
                      | inl (sig, e7) ↦
                          elim (Bool-cases (
                            ltb sig n
                            && verify c (hash_to_scalar c (as_bytes p.secret) n) sig ks.e n)) [
                              | inr e8 ↦ cc (rw (e1, e2, e3, e4, e5, e6, e7, e8) at h)
                              | inl e8 ↦ record {
                                keyset = ks;
                                trusted = e1;
                                n = n;
                                modulus = e2;
                                same_n = e3;
                                same_e = e4;
                                lock = lock;
                                well_locked = e5;
                                short = e6;
                                sig = sig;
                                signature = e7;
                                signed = e8;
                              }
                            ]
                    ]
                  ]
          ]
        ]
      ]
    ]
  ]

  IsGenuine-verify_proof : (p : Proof) → IsGenuine p → verify_proof c keysets p ≡ ok tt
  unfolding verify_proof
  IsGenuine-verify_proof p g =
      rw (g.trusted, g.modulus, g.same_n, g.same_e, g.well_locked, g.short, g.signature, g.signed)
        refl

  verify_proofs-All : (ps : List Proof) → verify_proofs c keysets ps ≡ ok tt → All IsGenuine ps
  unfolding verify_proofs
  verify_proofs-All [] h = tt
  verify_proofs-All (p ∷ ps) h = elim (Result-cases (verify_proof c keysets p)) [
    | inr (_, e) ↦ cc (rw (e, verify_proofs) at h)
    | inl (_, e) ↦ (verify_proof-IsGenuine p e, verify_proofs-All ps (rw (e, verify_proofs) at h))
  ]

  All-verify_proofs : (ps : List Proof) → All IsGenuine ps → verify_proofs c keysets ps ≡ ok tt
  unfolding verify_proofs
  All-verify_proofs [] h = refl
  All-verify_proofs (p ∷ ps) h =
      rw (IsGenuine-verify_proof p h.0, verify_proofs) (All-verify_proofs ps h.1)

  -- What an accepted token is.
  pub record IsAccepted (t : TokenCodec) (token : String) (proofs : List Proof) : Type 0 where
    pub pinned : is_empty keysets ≡ false
    pub exponents : any (λ (k : Keyset). bad_exponent k.e) keysets ≡ false
    pub decoded : decode_token c t token ≡ ok proofs
    pub some_proofs : is_empty proofs ≡ false
    pub genuine : All IsGenuine proofs

  module _ (t : TokenCodec) (token : String) (proofs : List Proof) where
    -- The offline check accepts a token for a list of proofs exactly if there is a pinned keyset, no
    -- pinned exponent is bad, the token decodes to these proofs, there is one, and a pinned keyset
    -- vouches for each of them.
    pub verify_offline_set_iff :
        (verify_offline_set c t token keysets ≡ ok proofs) ↔ IsAccepted t token proofs
    unfolding verify_offline_set
    verify_offline_set_iff = (
      λ h. elim (Bool-cases (is_empty keysets)) [
        | inl e1 ↦ cc (rw e1 at h)
        | inr e1 ↦ elim (Bool-cases (any (λ (k : Keyset). bad_exponent k.e) keysets)) [
          | inl e2 ↦ cc (rw (e1, e2) at h)
          | inr e2 ↦ elim (Result-cases (decode_token c t token)) [
            | inr (_, e3) ↦ cc (rw (e1, e2, e3) at h)
            | inl (ps, e3) ↦ elim (Bool-cases (is_empty ps)) [
              | inl e4 ↦ cc (rw (e1, e2, e3, e4) at h)
              | inr e4 ↦ elim (Result-cases (verify_proofs c keysets ps)) [
                | inr (_, e5) ↦ cc (rw (e1, e2, e3, e4, e5) at h)
                | inl (_, e5) ↦
                    let same : ps ≡ proofs = cc (rw (e1, e2, e3, e4, e5) at h) in
                    record {
                      pinned = e1;
                      exponents = e2;
                      decoded = rw same at e3;
                      some_proofs = rw same at e4;
                      genuine = rw same at (verify_proofs-All ps e5);
                    }
              ]
            ]
          ]
        ]
      ],
      λ a.
          rw (a.pinned, a.exponents, a.decoded, a.some_proofs, All-verify_proofs proofs a.genuine)
            refl,
    )

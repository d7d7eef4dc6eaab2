-- ===== src/Client/Pinned.antt =====
-- What a pinned certificate guarantees.
use fupi.Common.{
  ℕ, ◌<◌, ◌≡◌, refl, ap, arith, String, true, some, List, [], ◌∷◌, All, ==_iff, Bool-cases, inl,
  inr, ◌==◌, length,
}
use fupi.Common.Result.{ok}
use fupi.Common.Text.{codes}
use fupi.Crypto.{Crates, hex_encode, hex_decode}
use fupi.Crypto.Hex.{hex_decode-hex_encode, length-hex_encode}
use fupi.Vault.Coins.{bytes_eq}
use fupi.Client.Fingerprint.{normalize_fingerprint, fingerprint_matches}
use fupi.Client.Tls.{
  pinned, Verifier, pinned_verifier, AtmClient, trim_slashes, verifier_of, with_tls,
  verify_server_cert,
}

bytes_eq_sound : (xs ys : List ℕ) → bytes_eq xs ys ≡ true → xs ≡ ys
unfolding bytes_eq
bytes_eq_sound [] [] h = refl
bytes_eq_sound [] (y ∷ ys) h = cc
bytes_eq_sound (x ∷ xs) [] h = cc
bytes_eq_sound (x ∷ xs) (y ∷ ys) h = elim (Bool-cases (x == y)) [
  | inl e ↦ rw ((==_iff x y).0 e, bytes_eq_sound xs ys (rw (e, bytes_eq) at h)) refl
  | inr e ↦ cc (rw (e, bytes_eq) at h)
]

module _ (c : Crates) (bytes : (m : List ℕ) → All (λ b. b < 256) (c.sha256 m)) where
  fingerprint_matches_lem :
      (cert : List ℕ) (pin : String)
      → fingerprint_matches c cert pin ≡ true
      → codes (hex_encode (c.sha256 cert)) ≡ normalize_fingerprint pin
  unfolding fingerprint_matches
  fingerprint_matches_lem cert pin h =
      bytes_eq_sound (codes (hex_encode (c.sha256 cert))) (normalize_fingerprint pin) h

  verify_server_cert_lem :
      (cert : List ℕ) (pin : String)
      → verify_server_cert c (pinned_verifier pin) cert ≡ ok tt
      → fingerprint_matches c cert pin ≡ true
  unfolding verify_server_cert
  verify_server_cert_lem cert pin h = elim (Bool-cases (fingerprint_matches c cert pin)) [
    | inl e ↦ e
    | inr e ↦ cc (rw (e, verify_server_cert) at h)
  ]

  with_tls_pinned_lem :
      (base_url fp : String) (client : AtmClient)
      → with_tls base_url (pinned fp) ≡ ok client
      → (client.verifier ≡ some (pinned_verifier fp)) × (length (normalize_fingerprint fp) ≡ 64)
  unfolding with_tls verifier_of
  with_tls_pinned_lem base_url fp client h =
      elim (Bool-cases (length (normalize_fingerprint fp) == 64)) [
        | inr e ↦ cc (rw (e, with_tls, verifier_of) at h)
        | inl e ↦
            let made : record {
              base_url = trim_slashes base_url;
              verifier = some (pinned_verifier fp);
            }
                ≡ client =
              cc (rw (e, with_tls, verifier_of) at h) in
            rw (← made) (refl, (==_iff (length (normalize_fingerprint fp)) 64).0 e)
      ]

  -- A client that is made with a pinned fingerprint accepts a certificate only if the fingerprint, less
  -- its separators and in lower case, spells the 32 bytes of the certificate's SHA-256.
  pub with_tls-IsPinned :
      (base_url fp : String) (client : AtmClient) (v : Verifier) (cert : List ℕ)
      → with_tls base_url (pinned fp) ≡ ok client
      → client.verifier ≡ some v
      → verify_server_cert c v cert ≡ ok tt
      → (hex_decode (normalize_fingerprint fp) ≡ some (c.sha256 cert))
        × (length (c.sha256 cert) ≡ 32)
  with_tls-IsPinned base_url fp client v cert made chosen accepted =
      let (mine, long) = with_tls_pinned_lem base_url fp client made in
      let same : v ≡ pinned_verifier fp = cc in
      let text =
        fingerprint_matches_lem cert fp (verify_server_cert_lem cert fp (rw same at accepted)) in
      let digest = hex_decode-hex_encode (c.sha256 cert) (bytes cert) in
      (
        rw text at digest,
        omega (arith, length-hex_encode (c.sha256 cert) (bytes cert), ap length text, long),
      )

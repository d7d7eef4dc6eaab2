-- ===== src/Vault/Receive/Distinct.antt =====
-- Receiving a token never leaves a secret in the vault twice.
use fupi.Common.{
  ℕ, ◌+◌, ◌≡◌, String, false, ◌==◌, inl, inr, Option, List, [], ◌∷◌, All, str_eq, Bool-cases, push,
}
use fupi.Common.Sorting.{Pairwise}
use fupi.Types.{Keyset, Proof}
use fupi.Crypto.{Crates}
use fupi.Vault.Environment.{Environment, TokenCodec}
use fupi.Vault.Session.{Session}
use fupi.Vault.Session.Steps.{Result-cases, Outcome, save_state-Outcome}
use fupi.Vault.Tokens.{verify_offline_set}
use fupi.Vault.Receive.{holds_secret, receive_proofs, trusted, receive_token}

-- Two proofs with different secrets.
abbrev pub Differ : Proof → Proof → Type 0
Differ p q = str_eq p.secret q.secret ≡ false

holds_secret-All :
    (sec : String) (held : List Proof)
    → holds_secret sec held ≡ false
    → All (λ (q : Proof). str_eq q.secret sec ≡ false) held
unfolding holds_secret
holds_secret-All sec [] h = tt
holds_secret-All sec (q ∷ held) h = elim (Bool-cases (str_eq q.secret sec)) [
  | inl e ↦ cc (rw e at h)
  | inr e ↦ (e, holds_secret-All sec held (rw e at h))
]

All-push :
    (P : Proof → Type 0) (held : List Proof) (p : Proof) → All P held → P p → All P (push held p)
All-push P [] p h hp = (hp, tt)
All-push P (q ∷ held) p h hp = (h.0, All-push P held p h.1 hp)

Pairwise-push :
    (held : List Proof) (p : Proof)
    → Pairwise Differ held
    → All (λ q. Differ q p) held
    → Pairwise Differ (push held p)
Pairwise-push [] p d a = (tt, tt)
Pairwise-push (q ∷ held) p d a = (All-push (Differ q) held p d.0 a.0, Pairwise-push held p d.1 a.1)

receive_proofs-Pairwise :
    (ps held : List Proof) (received : ℕ)
    → Pairwise Differ held
    → Pairwise Differ (receive_proofs ps held received).0
unfolding receive_proofs
receive_proofs-Pairwise [] held received d = d
receive_proofs-Pairwise (p ∷ ps) held received d = elim (Bool-cases (holds_secret p.secret held)) [
  | inl known ↦ rw (known, receive_proofs) (receive_proofs-Pairwise ps held received d)
  | inr new ↦
      rw (new, receive_proofs)
        (receive_proofs-Pairwise ps (push held p) (received + 1)
          (Pairwise-push held p d (holds_secret-All p.secret held new)))
]

-- If the secrets of the proofs held are distinct, they are distinct behind a call of `receive_token`,
-- whether it returns or fails.
pub receive_token-Pairwise :
    (c : Crates) (t : TokenCodec) (env : Environment) (token : String) (keyset : Option Keyset)
    (s : Session env.World)
    → Pairwise Differ s.state.proofs
    → Outcome
        (λ (_ : ℕ) s'. Pairwise Differ s'.state.proofs)
        (λ e s'. Pairwise Differ s'.state.proofs)
        (receive_token c t env token keyset s)
unfolding receive_token
receive_token-Pairwise c t env token keyset s d =
    elim (Result-cases (verify_offline_set c t token (trusted c t env s.state keyset))) [
      | inr (_, e1) ↦ rw e1 d
      | inl (proofs, e1) ↦
          let d' = receive_proofs-Pairwise proofs s.state.proofs 0 d in
          elim (Bool-cases ((receive_proofs proofs s.state.proofs 0).1 == 0)) [
            | inl e2 ↦ rw (e1, e2) d'
            | inr e2 ↦
                rw (e1, e2)
                  (save_state-Outcome env (λ (_ : ℕ) s'. Pairwise Differ s'.state.proofs)
                    (λ e s'. Pairwise Differ s'.state.proofs) _ _ _ (λ e s' same. rw same d')
                    (λ s' same. rw same d'))
          ]
    ]

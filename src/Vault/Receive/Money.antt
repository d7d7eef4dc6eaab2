-- ===== src/Vault/Receive/Money.antt =====
-- What receiving a token adds to the vault.
use fupi.Common.{
  ℕ, ◌+◌, ◌≡◌, refl, sym, ◌∙◌, String, true, false, str_eq, eq_iff, All-imp, ◌==◌, All, inl, inr,
  Option, List, [], ◌∷◌, ◌++◌, length, push, Bool-cases, arith,
}
use fupi.Types.{Keyset, Proof}
use fupi.Crypto.{Crates}
use fupi.Vault.Errors.{VaultError}
use fupi.Vault.Environment.{Environment, TokenCodec}
use fupi.Vault.Session.{Session}
use fupi.Vault.Session.Steps.{Result-cases, save_state-Outcome, Outcome}
use fupi.Vault.Tokens.{verify_offline_set}
use fupi.Vault.Tokens.Genuine.{IsGenuine, IsAccepted, verify_offline_set_iff}
use fupi.Vault.Receive.{holds_secret, receive_proofs, trusted, receive_token}
use mathlib.Core.List.{append-nil, append_assoc}

-- Some of a list, in its order.
pub data IsSublist : List Proof → List Proof → Type 0 where
  nothing : IsSublist [] []
  skip : (p : Proof) (xs ys : List Proof) → IsSublist xs ys → IsSublist xs (p ∷ ys)
  take : (p : Proof) (xs ys : List Proof) → IsSublist xs ys → IsSublist (p ∷ xs) (p ∷ ys)

All-IsSublist : (P : Proof → Type 0) (xs ys : List Proof) → IsSublist xs ys → All P ys → All P xs
All-IsSublist P _ _ nothing all = tt
All-IsSublist P _ _ (skip p xs ys h) all = All-IsSublist P xs ys h all.1
All-IsSublist P _ _ (take p xs ys h) all = (all.0, All-IsSublist P xs ys h all.1)

holds_secret-weaken :
    (sec : String) (held more : List Proof)
    → holds_secret sec held ≡ true
    → holds_secret sec (held ++ more) ≡ true
unfolding holds_secret
holds_secret-weaken sec [] more h = cc
holds_secret-weaken sec (q ∷ held) more h = elim (Bool-cases (str_eq q.secret sec)) [
  | inl e ↦ rw e refl
  | inr e ↦ rw e (holds_secret-weaken sec held more (rw e at h))
]

holds_secret-last : (p : Proof) (held : List Proof) → holds_secret p.secret (push held p) ≡ true
unfolding holds_secret
holds_secret-last p [] = rw ((eq_iff p.secret p.secret).1 refl) refl
holds_secret-last p (q ∷ held) = elim (Bool-cases (str_eq q.secret p.secret)) [
  | inl e ↦ rw e refl
  | inr e ↦ rw e (holds_secret-last p held)
]

unknown_before :
    (sec : String) (held more : List Proof)
    → holds_secret sec (held ++ more) ≡ false
    → holds_secret sec held ≡ false
unknown_before sec held more h = elim (Bool-cases (holds_secret sec held)) [
  | inr e ↦ e
  | inl e ↦ cc (h, holds_secret-weaken sec held more e)
]

-- Those proofs that are not held yet are put behind those that are, and counted; all are held then.
pub record Taken (ps held : List Proof) (received : ℕ) (r : List Proof × ℕ) : Type 0 where
  pub fresh : List Proof
  pub appended : r.0 ≡ held ++ fresh
  pub counted : r.1 ≡ received + length fresh
  pub chosen : IsSublist fresh ps
  pub unknown : All (λ p. holds_secret p.secret held ≡ false) fresh
  pub all_held : All (λ p. holds_secret p.secret r.0 ≡ true) ps

receive_proofs-Taken :
    (ps held : List Proof) (received : ℕ) → Taken ps held received (receive_proofs ps held received)
unfolding receive_proofs
receive_proofs-Taken [] held received = record {
  fresh = [];
  appended = sym (append-nil held);
  counted = omega arith;
  chosen = nothing;
  unknown = tt;
  all_held = tt;
}
receive_proofs-Taken (p ∷ ps) held received = elim (Bool-cases (holds_secret p.secret held)) [
  | inl known ↦
      let h = receive_proofs-Taken ps held received in
      rw (known, receive_proofs)
        (record {
          fresh = h.fresh;
          appended = h.appended;
          counted = h.counted;
          chosen = skip p h.fresh ps h.chosen;
          unknown = h.unknown;
          all_held = (rw h.appended (holds_secret-weaken p.secret held h.fresh known), h.all_held);
        })
  | inr new ↦
      let h = receive_proofs-Taken ps (push held p) (received + 1) in
      rw (new, receive_proofs)
        (record {
          fresh = p ∷ h.fresh;
          appended = h.appended ∙ append_assoc held (p ∷ []) h.fresh;
          counted = omega (arith, h.counted);
          chosen = take p h.fresh ps h.chosen;
          unknown =
              (new, All-imp _ _ h.fresh (λ q e. unknown_before q.secret held (p ∷ []) e) h.unknown);
          all_held = (
            rw h.appended
                (holds_secret-weaken p.secret (push held p) h.fresh (holds_secret-last p held)),
            h.all_held,
          );
        })
]

module _ (c : Crates) (t : TokenCodec) (env : Environment) (token : String)
    (s : Session env.World) where
  -- What a call has received: a token that the keysets vouch for, of which some proofs are new.
  pub record IsReceived (keyset : Option Keyset) (received : ℕ) (s' : Session env.World)
      : Type 0 where
    pub proofs : List Proof
    pub accepted : IsAccepted c (trusted c t env s.state keyset) t token proofs
    pub fresh : List Proof
    pub genuine : All (IsGenuine c (trusted c t env s.state keyset)) fresh
    pub appended : s'.state.proofs ≡ s.state.proofs ++ fresh
    pub chosen : IsSublist fresh proofs
    pub unknown : All (λ p. holds_secret p.secret s.state.proofs ≡ false) fresh
    pub all_held : All (λ p. holds_secret p.secret s'.state.proofs ≡ true) proofs
    pub counted : received ≡ length fresh
    pub some_new : (received == 0) ≡ false
    pub pending : s'.state.pending_swap ≡ s.state.pending_swap

  -- Proofs may have been added, and nothing else has happened to the money.
  pub record MaySome (s' : Session env.World) : Type 0 where
    pub fresh : List Proof
    pub appended : s'.state.proofs ≡ s.state.proofs ++ fresh
    pub pending : s'.state.pending_swap ≡ s.state.pending_swap

  -- A call that returns has found the token genuine and put proofs of it, at least one, behind those
  -- held, in the token's order, and returns their number: none of them has a secret that was held before,
  -- and behind the call every secret of the token is held. A call that fails has taken no proof away and
  -- left an unfinished swap alone.
  pub receive_token-IsReceived :
      (keyset : Option Keyset)
      → Outcome (IsReceived keyset) (λ e s'. MaySome s') (receive_token c t env token keyset s)
  unfolding receive_token
  receive_token-IsReceived keyset =
      let P = IsReceived keyset in
      let Q = λ (e : VaultError) (s' : Session env.World). MaySome s' in
      elim (Result-cases (verify_offline_set c t token (trusted c t env s.state keyset))) [
        | inr (_, e1) ↦ rw e1 (record { fresh = []; appended = sym (append-nil _); pending = refl })
        | inl (proofs, e1) ↦
            let keysets = trusted c t env s.state keyset in
            let accepted = (verify_offline_set_iff c keysets t token proofs).0 e1 in
            let h = receive_proofs-Taken proofs s.state.proofs 0 in
            elim (Bool-cases ((receive_proofs proofs s.state.proofs 0).1 == 0)) [
              | inl e2 ↦
                  rw (e1, e2) (record { fresh = h.fresh; appended = h.appended; pending = refl })
              | inr e2 ↦
                  rw (e1, e2)
                    (save_state-Outcome env P Q _ _ _
                      (λ e s' same. record {
                        fresh = h.fresh;
                        appended = rw same h.appended;
                        pending = rw same refl;
                      })
                      (λ s' same. record {
                        proofs = proofs;
                        accepted = accepted;
                        fresh = h.fresh;
                        genuine =
                            All-IsSublist (IsGenuine c keysets) h.fresh proofs h.chosen
                              accepted.genuine;
                        appended = rw same h.appended;
                        chosen = h.chosen;
                        unknown = h.unknown;
                        all_held = rw same h.all_held;
                        counted = omega (arith, h.counted);
                        some_new = e2;
                        pending = rw same refl;
                      }))
            ]
      ]

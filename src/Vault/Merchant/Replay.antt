-- ===== src/Vault/Merchant/Replay.antt =====
-- A token that was accepted once is never accepted again.
use fupi.Common.{
  ℕ, ◌≡◌, refl, String, true, ◌++◌, inl, inr, Option, List, [], ◌∷◌, str_eq, eq_iff, Bool-cases,
}
use fupi.Common.Result.{ok}
use fupi.Types.{Proof, Receipt, FlashState}
use fupi.Crypto.{Crates}
use fupi.Vault.Environment.{Environment, TokenCodec}
use fupi.Vault.Session.{Session}
use fupi.Vault.Receive.{holds_secret}
use fupi.Vault.Merchant.{is_known, accepted_state, accept_payment}
use fupi.Vault.Merchant.Accept.{IsSale, accept_payment_whole}

holds_secret-append :
    (p : Proof) (held ps : List Proof) → holds_secret p.secret (held ++ (p ∷ ps)) ≡ true
unfolding holds_secret
holds_secret-append p [] ps = rw ((eq_iff p.secret p.secret).1 refl) refl
holds_secret-append p (q ∷ held) ps = elim (Bool-cases (str_eq q.secret p.secret)) [
  | inl e ↦ rw e refl
  | inr e ↦ rw e (holds_secret-append p held ps)
]

is_known-accepted_state :
    (state : FlashState) (p : Proof) (ps : List Proof) (r : Receipt)
    → is_known (accepted_state state (p ∷ ps) r) p.secret ≡ true
unfolding is_known accepted_state
is_known-accepted_state state p ps r = rw (holds_secret-append p state.proofs ps) refl

module _ (c : Crates) (t : TokenCodec) (env : Environment) (token : String) where
  -- Behind a sale, in a session with the same state, the same token is refused, whatever the invoice
  -- and the expected amount of the second call.
  pub accept_payment_once :
      (invoice again : Option String) (expect wanted : Option ℕ) (s s1 s2 s3 : Session env.World)
      (receipt second : Receipt)
      → accept_payment c t env token invoice expect s ≡ (ok receipt, s1)
      → s2.state ≡ s1.state
      → ¬ (accept_payment c t env token again wanted s2 ≡ (ok second, s3))
  accept_payment_once invoice again expect wanted s s1 s2 s3 receipt second h same h2 =
      let sale : IsSale c t env token invoice expect s receipt s1 =
        rw h at (accept_payment_whole c t env token invoice expect s) in
      let sale2 : IsSale c t env token again wanted s2 second s3 =
        rw h2 at (accept_payment_whole c t env token again wanted s2) in
      elim (sale.proofs) as (λ ps. ps ≡ sale.proofs → ⊥) [
        | [] ↦ λ e. cc (rw (← e) at sale.accepted.some_proofs)
        | p ∷ ps ↦ λ e.
            let decoded : sale2.proofs ≡ p ∷ ps =
              cc (sale.accepted.decoded, sale2.accepted.decoded, e) in
            let unknown = rw decoded at sale2.unknown in
            let known = is_known-accepted_state s.state p ps receipt in
            let state2 : s2.state ≡ accepted_state s.state (p ∷ ps) receipt =
              rw (same, sale.after, e) refl in
            cc (rw state2 at (unknown.0), known)
      ]
        refl

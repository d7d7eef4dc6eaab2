-- ===== src/Vault/Merchant/Accept.antt =====
-- The outcome of `accept_payment` on every branch.
use fupi.Common.{
  ℕ, ◌≡◌, refl, String, false, inl, inr, Option, List, [], ◌∷◌, ◌++◌, push, All, All-imp, str_eq,
  Bool-cases,
}
use fupi.Common.Sorting.{Pairwise}
use fupi.Common.Result.{ok}
use fupi.Types.{Proof, Receipt, FlashState}
use fupi.Crypto.{Crates}
use fupi.Vault.Environment.{Environment, TokenCodec}
use fupi.Vault.Session.{Session}
use fupi.Vault.Session.Steps.{Result-cases, Outcome, commit-Outcome}
use fupi.Vault.Keysets.{pinned_keysets}
use fupi.Vault.Tokens.{verify_offline_set}
use fupi.Vault.Tokens.Genuine.{IsAccepted, verify_offline_set_iff}
use fupi.Vault.Coins.{token_value}
use fupi.Vault.Merchant.{
  has_text, is_known, has_duplicate, mismatch, new_receipt, accepted_state, accept_payment,
}

-- Not one of the secrets is known to the vault, nor listed before.
abbrev IsFresh : FlashState → List String → Proof → Type 0
IsFresh state seen p = (is_known state p.secret ≡ false) × (has_text p.secret seen ≡ false)

abbrev pub Apart : Proof → Proof → Type 0
Apart p q = str_eq p.secret q.secret ≡ false

has_text-cons :
    (x y : String) (seen : List String)
    → has_text x (y ∷ seen) ≡ false
    → (str_eq y x ≡ false) × (has_text x seen ≡ false)
unfolding has_text
has_text-cons x y seen h = elim (Bool-cases (str_eq y x)) [
  | inl e ↦ cc (rw e at h)
  | inr e ↦ (e, rw e at h)
]

pub has_duplicate-false :
    (state : FlashState) (seen : List String) (ps : List Proof)
    → has_duplicate state seen ps ≡ false
    → All (IsFresh state seen) ps × Pairwise Apart ps
unfolding has_duplicate
has_duplicate-false state seen [] h = (tt, tt)
has_duplicate-false state seen (p ∷ ps) h = elim (Bool-cases (is_known state p.secret)) [
  | inl known ↦ cc (rw (known, has_duplicate) at h)
  | inr new ↦ elim (Bool-cases (has_text p.secret seen)) [
    | inl listed ↦ cc (rw (new, listed, has_duplicate) at h)
    | inr unlisted ↦
        let (fresh, apart) =
          has_duplicate-false state (p.secret ∷ seen) ps (rw (new, unlisted, has_duplicate) at h) in
        (
          (
            (new, unlisted),
            All-imp (IsFresh state (p.secret ∷ seen)) (IsFresh state seen) ps
                (λ q f. (f.0, (has_text-cons q.secret p.secret seen f.1).1)) fresh,
          ),
          (
            All-imp (IsFresh state (p.secret ∷ seen)) (Apart p) ps
                (λ q f. (has_text-cons q.secret p.secret seen f.1).0) fresh,
            apart,
          ),
        )
  ]
]

module _ (c : Crates) (t : TokenCodec) (env : Environment) (token : String)
    (invoice : Option String) (expect : Option ℕ) (s : Session env.World) where
  -- What has happened when a token was accepted.
  pub record IsSale (receipt : Receipt) (s' : Session env.World) : Type 0 where
    pub proofs : List Proof
    pub ts : ℕ
    pub accepted : IsAccepted c (pinned_keysets s.state) t token proofs
    pub value : mismatch expect (token_value proofs) ≡ false
    pub unknown : All (λ (p : Proof). is_known s.state p.secret ≡ false) proofs
    pub apart : Pairwise Apart proofs
    pub issued : receipt ≡ new_receipt s.state proofs invoice ts
    pub after : s'.state ≡ accepted_state s.state proofs receipt
    pub held : s'.state.proofs ≡ s.state.proofs ++ proofs
    pub filed : s'.state.receipts ≡ push s.state.receipts receipt
    pub pending : s'.state.pending_swap ≡ s.state.pending_swap
    pub outbox : s'.state.outbox ≡ s.state.outbox
    pub amount : receipt.amount ≡ token_value proofs
    pub invoiced : receipt.invoice ≡ invoice

  -- The sale of a token that passes the checks.
  pub accepted_state-IsSale :
      (proofs : List Proof) (ts : ℕ) (s' : Session env.World)
      → verify_offline_set c t token (pinned_keysets s.state) ≡ ok proofs
      → mismatch expect (token_value proofs) ≡ false
      → has_duplicate s.state [] proofs ≡ false
      → s'.state ≡ accepted_state s.state proofs (new_receipt s.state proofs invoice ts)
      → IsSale (new_receipt s.state proofs invoice ts) s'
  unfolding accepted_state new_receipt
  accepted_state-IsSale proofs ts s' genuine value distinct after =
      let (fresh, apart) = has_duplicate-false s.state [] proofs distinct in
      record {
        proofs = proofs;
        ts = ts;
        accepted = (verify_offline_set_iff c (pinned_keysets s.state) t token proofs).0 genuine;
        value = value;
        unknown = All-imp _ _ proofs (λ q f. f.0) fresh;
        apart = apart;
        issued = refl;
        after = after;
        held = rw after refl;
        filed = rw after refl;
        pending = rw after refl;
        outbox = rw after refl;
        amount = refl;
        invoiced = refl;
      }

  -- A token is taken as a whole or not at all: a call that returns a receipt has accepted a genuine
  -- token of the expected value, with secrets that are distinct and that neither a held proof nor a
  -- receipt has; all its proofs and the receipt are added. A call that fails leaves the vault in memory
  -- as it was.
  pub accept_payment_whole :
      Outcome IsSale (λ e s'. s'.state ≡ s.state) (accept_payment c t env token invoice expect s)
  unfolding accept_payment
  accept_payment_whole =
      elim (Result-cases (verify_offline_set c t token (pinned_keysets s.state))) [
        | inr (_, e1) ↦ rw e1 refl
        | inl (proofs, e1) ↦ elim (Bool-cases (mismatch expect (token_value proofs))) [
          | inl e2 ↦ rw (e1, e2) refl
          | inr e2 ↦ elim (Bool-cases (has_duplicate s.state [] proofs)) [
            | inl e3 ↦ rw (e1, e2, e3) refl
            | inr e3 ↦
                rw (e1, e2, e3)
                  (commit-Outcome env IsSale (λ e s'. s'.state ≡ s.state) _ _ _ (λ e s' same. same)
                    (λ s' after.
                      accepted_state-IsSale proofs (env.now s.world).0 s' e1 e2 e3 after))
          ]
        ]
      ]

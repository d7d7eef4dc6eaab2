-- ===== src/Vault/Swap/Completion.antt =====
-- The outcome of a swap's completion on every branch.
use fupi.Common.{
  ℕ, ◌+◌, ◌≡◌, refl, ◌⊎◌, inl, inr, String, Bool, true, false, ◌==◌, ==_iff, Option, none, some,
  List, arith, All, length, Bool-cases,
}
use fupi.Common.Result.{Result, ok, err}
use fupi.Common.Sums.{sum-map_append}
use fupi.Types.{Proof, FlashState, PendingSwap}
use fupi.Denom.{proof_value}
use fupi.Crypto.{Crates}
use fupi.Vault.Errors.{
  VaultError, ClientError, no_client_configured, client, http_status, transport, serialization,
}
use fupi.Storage.{StorageError}
use fupi.Vault.Environment.{Environment}
use fupi.Vault.Session.{Session, Method, throw, ◌>>=◌, ◌>>◌}
use fupi.Vault.Session.Steps.{Result-cases, Outcome, require_client-Outcome}
use fupi.Vault.Keysets.{pinned_keysets}
use fupi.Vault.Coins.{balance, token_value}
use fupi.Vault.Issue.{finish_outputs}
use fupi.Vault.Swap.{
  abandon_pending, swap_answer, swap_request, complete_swap, give_up, store_signatures,
  output_value, swapped_state, restored_state,
}
use fupi.Vault.Swap.Holdings.{IsPrepared, AllIssued, finish_outputs-AllIssued, AllIssued-value}

-- The swap of a state is given up: its inputs are back.
abbrev pub IsAbandoned : FlashState → FlashState → Type 0
IsAbandoned before after =
    (p : PendingSwap) × (before.pending_swap ≡ some p) × (after ≡ restored_state before p)

module _ (c : Crates) (env : Environment) where
  abbrev pub Signatures : Type 0
  Signatures = Result ClientError (List String)

  -- Why a swap that is not completed can stay as it is: nothing was asked; the ATM's answer is not a
  -- refusal, or not the first one; there is nothing to abandon; or the abandonment cannot be saved.
  pub data Reason (before : FlashState) (first_attempt : Bool) (answer : Signatures)
      (e : VaultError) : Type 0 where
    offline : e ≡ no_client_configured → Reason before first_attempt answer e
    not_refused :
        ((code : ℕ) (body : String) → ¬ (answer ≡ err (http_status code body)))
        → Reason before first_attempt answer e
    later : first_attempt ≡ false → Reason before first_attempt answer e
    nothing : before.pending_swap ≡ none → Reason before first_attempt answer e
    unsaved :
        (p : PendingSwap) (w : env.World) (d : StorageError)
        → before.pending_swap ≡ some p
        → (env.save (restored_state before p) w).0 ≡ err d
        → Reason before first_attempt answer e

  -- The ATM has refused the first attempt, and the swap is abandoned.
  pub record Refused (before : FlashState) (first_attempt : Bool) (answer : Signatures)
      (e : VaultError) (s' : Session env.World) : Type 0 where
    pub first : first_attempt ≡ true
    pub code : ℕ
    pub body : String
    pub refusal : answer ≡ err (http_status code body)
    pub told : e ≡ client (http_status code body)
    pub abandoned : IsAbandoned before s'.state

  abbrev pub Unswapped : FlashState → Bool → Signatures → VaultError → Session env.World → Type 0
  Unswapped before first_attempt answer e s' =
      ((s'.state ≡ before) × Reason before first_attempt answer e)
      ⊎ Refused before first_attempt answer e s'

  given_up :
      {A B : Type 0} (P : B → Session env.World → Type 0) (code : ℕ) (body : String)
      (f : A → Method env.World B) (s : Session env.World) (slot : Option PendingSwap)
      → s.state.pending_swap ≡ slot
      → Outcome P
          (Unswapped s.state true (err (http_status code body)))
          (((give_up c env slot >> throw (client (http_status code body))) >>= f) s)
  unfolding give_up
  given_up P code body f s none pending = inl (refl, nothing pending)
  given_up P code body f s (some p) pending =
      elim (Result-cases (env.save (restored_state s.state p) s.world).0) [
        | inl (_, saved) ↦ rw saved (
            inr (record {
              first = refl;
              code = code;
              body = body;
              refusal = refl;
              told = refl;
              abandoned = (p, pending, refl);
            }))
        | inr (d, failed) ↦ rw failed (inl (refl, unsaved p s.world d pending failed))
      ]

  answer_outcome :
      {A : Type 0} (P : A → Session env.World → Type 0) (first_attempt : Bool) (answer : Signatures)
      (f : List String → Method env.World A) (s : Session env.World)
      → ((sigs : List String)
          → answer ≡ ok sigs
          → Outcome P (Unswapped s.state first_attempt answer) (f sigs s))
      → Outcome P
          (Unswapped s.state first_attempt answer)
          ((swap_answer c env first_attempt answer >>= f) s)
  unfolding swap_answer abandon_pending give_up
  answer_outcome P first_attempt (ok sigs) f s h = h sigs refl
  answer_outcome P true (err (http_status code body)) f s h =
      given_up P code body f s s.state.pending_swap refl
  answer_outcome P false (err (http_status code body)) f s h = inl (refl, later refl)
  answer_outcome P true (err (transport e)) f s h = inl (refl, not_refused (λ code body k. cc))
  answer_outcome P false (err (transport e)) f s h = inl (refl, later refl)
  answer_outcome P true (err (serialization e)) f s h = inl (refl, not_refused (λ code body k. cc))
  answer_outcome P false (err (serialization e)) f s h = inl (refl, later refl)

  module _ (p : PendingSwap) (first_attempt : Bool) (s : Session env.World) where
    -- What the ATM says to the request of the swap.
    abbrev pub answer_of : Signatures
    answer_of = (env.swap p.inputs (swap_request p.outputs) s.world).0

    -- The swap is complete: the ATM has signed, and each output has become a signed proof under its
    -- pinned keyset.
    pub record IsSwapped (done : Unit {0}) (s' : Session env.World) : Type 0 where
      pub sigs : List String
      pub signed : answer_of ≡ ok sigs
      pub fresh : List Proof
      pub issued : AllIssued c (pinned_keysets s.state) p.outputs fresh
      pub after : s'.state ≡ swapped_state s.state p fresh

    abbrev pub NotSwapped : VaultError → Session env.World → Type 0
    NotSwapped e s' = Unswapped s.state first_attempt answer_of e s'

    stored_outcome :
        (sigs : List String) (s1 : Session env.World)
        → answer_of ≡ ok sigs
        → s1.state ≡ s.state
        → Outcome IsSwapped NotSwapped (store_signatures c env p sigs s1)
    unfolding store_signatures
    stored_outcome sigs s1 signed same =
        let signed_reason : (e : VaultError) → Reason s.state first_attempt answer_of e =
          λ e. not_refused (λ code body k. cc (signed, k)) in
        elim (Bool-cases (length sigs == length p.outputs)) [
          | inr other ↦ rw other (inl (same, signed_reason _))
          | inl equal ↦
              elim (Result-cases (finish_outputs c (pinned_keysets s1.state) p.outputs sigs)) [
                | inr (_, e) ↦ rw (equal, e) (inl (same, signed_reason _))
                | inl (fresh, e) ↦
                    let all =
                      finish_outputs-AllIssued c (pinned_keysets s1.state) p.outputs sigs fresh
                        ((==_iff _ _).0 equal) e in
                    elim (Result-cases (env.save (swapped_state s1.state p fresh) s1.world).0) [
                      | inr (_, failed) ↦ rw (equal, e, failed) (inl (same, signed_reason _))
                      | inl (_, saved) ↦
                          rw (equal, e, saved)
                            (record {
                              sigs = sigs;
                              signed = signed;
                              fresh = fresh;
                              issued = rw same at all;
                              after = rw same refl;
                            })
                    ]
              ]
        ]

    pub complete_swap_outcome : Outcome IsSwapped NotSwapped (complete_swap c env p first_attempt s)
    unfolding complete_swap
    complete_swap_outcome =
        let (answer, world) = env.swap p.inputs (swap_request p.outputs) s.world in
        let s1 : Session env.World = record s { world = world } in
        require_client-Outcome IsSwapped NotSwapped _ s (inl (refl, offline refl)) (
          answer_outcome IsSwapped first_attempt answer (store_signatures c env p) s1
            (λ sigs signed. stored_outcome sigs s1 signed refl))

-- A completed swap adds the value of its outputs to the balance, and is no longer pending; it needs
-- outputs that are written down with the keyset of their denomination.
complete_swap-balance :
    (c : Crates) (env : Environment) (p : PendingSwap) (first_attempt : Bool)
    (s s' : Session env.World)
    → All IsPrepared p.outputs
    → complete_swap c env p first_attempt s ≡ (ok tt, s')
    → (balance s'.state ≡ balance s.state + output_value p) × (s'.state.pending_swap ≡ none)
unfolding balance token_value output_value swapped_state
complete_swap-balance c env p first_attempt s s' prepared h =
    let w : IsSwapped c env p first_attempt s tt s' =
      rw h at (complete_swap_outcome c env p first_attempt s) in
    (
      rw (w.after) (
          omega (
            arith,
            sum-map_append proof_value s.state.proofs w.fresh,
            AllIssued-value c (pinned_keysets s.state) p.outputs w.fresh prepared w.issued,
          )),
      rw (w.after) refl,
    )

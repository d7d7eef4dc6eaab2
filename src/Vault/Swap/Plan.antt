-- ===== src/Vault/Swap/Plan.antt =====
-- A planned swap is balanced: its outputs are worth its inputs, and hold the target.
use fupi.Common.{
  ℕ, ◌-◌, ◌≤◌, ◌==◌, ==_iff, ◌≢◌, ◌≡◌, refl, sym, inl, inr, true, none, some, List, [], ◌∷◌, ◌++◌,
  map, arith, any, All, All-append, All-imp, ltb, ltb→le, Bool-cases, Option-cases, filter_map,
}
use mathlib.Core.List.{append-nil}
use fupi.Common.Result.{ok}
use fupi.Common.Sums.{sum, sum-append}
use fupi.Common.Sorting.{sort_by, sum-sort_by, All-sort_by, Pairwise-sort_by}
use fupi.Types.{Keyset, FlashState}
use fupi.Denom.{denomination_of, split_amount}
use fupi.Denom.Ids.{IsDenomination, denomination_of-IsDenomination}
use fupi.Denom.Split.{IsOffered, split_amount_sound}
use fupi.Vault.Session.Steps.{Result-cases}
use fupi.Vault.Keysets.{pinned_keysets}
use fupi.Vault.Coins.{candidates, total_of, index_at, ascending}
use fupi.Vault.Coins.Candidates.{IsCandidate, candidates-Distinct, candidates-All}
use fupi.Vault.Payment.Conserves.{IsSelection, candidates-IsSelection}
use fupi.Vault.Swap.{denominations_of, choose_inputs, smallest_first, output_amounts, plan_swap}
use fupi.Vault.Swap.Inputs.{
  amounts_at, amounts_at-total_at, choose_inputs-IsFalling, choose_inputs-covers,
}

denominations_of-IsDenomination :
    (keysets : List Keyset) (d : ℕ)
    → any (λ x. x == d) (denominations_of keysets) ≡ true
    → IsDenomination d
unfolding denominations_of
denominations_of-IsDenomination [] d h = cc
denominations_of-IsDenomination (k ∷ keysets) d h =
    elim (Option-cases (denomination_of k.keyset_id)) [
      | inl unknown ↦ denominations_of-IsDenomination keysets d (rw (unknown, filter_map) at h)
      | inr (x, known) ↦ elim (Bool-cases (x == d)) [
        | inl here ↦
            let same : x ≡ d = (==_iff x d).0 here in
            rw same at (denomination_of-IsDenomination k.keyset_id x known)
        | inr later ↦ denominations_of-IsDenomination keysets d (rw (known, later, filter_map) at h)
      ]
    ]

-- What the outputs of a swap come to.
pub record IsSplit (keysets : List Keyset) (target in_total : ℕ) (amounts : List ℕ) : Type 0 where
  pub paid : List ℕ
  pub change : List ℕ
  pub parts : amounts ≡ paid ++ change
  pub paid_total : sum paid ≡ target
  pub total : sum amounts ≡ in_total
  pub denominations : All IsDenomination amounts

pub split_denominations :
    (keysets : List Keyset) (amount : ℕ) (out : List ℕ)
    → split_amount amount (denominations_of keysets) ≡ some out
    → (sum out ≡ amount) × All IsDenomination out
split_denominations keysets amount out h =
    let (total, few, offered) = split_amount_sound amount (denominations_of keysets) out h in
    (
      total,
      All-imp (IsOffered (denominations_of keysets)) IsDenomination out
          (λ d o. denominations_of-IsDenomination keysets d o.1) offered,
    )

output_amounts-IsSplit :
    (keysets : List Keyset) (target in_total : ℕ) (amounts : List ℕ)
    → target ≤ in_total
    → output_amounts target in_total (denominations_of keysets) ≡ ok amounts
    → IsSplit keysets target in_total amounts
unfolding output_amounts
output_amounts-IsSplit keysets target in_total amounts le h =
    let avail = denominations_of keysets in
    elim (Option-cases (split_amount target avail)) [
      | inl bad ↦ cc (rw (bad, output_amounts) at h)
      | inr (paid, e1) ↦
          let (total1, all1) = split_denominations keysets target paid e1 in
          elim (Bool-cases (ltb target in_total)) [
            | inl more ↦ elim (Option-cases (split_amount (in_total - target) avail)) [
              | inl bad ↦ cc (rw (e1, more, bad, output_amounts) at h)
              | inr (change, e2) ↦
                  let (total2, all2) = split_denominations keysets (in_total - target) change e2 in
                  let e : paid ++ change ≡ amounts = cc (rw (e1, more, e2, output_amounts) at h) in
                  rw (← e) (record {
                    paid = paid;
                    change = change;
                    parts = refl;
                    paid_total = total1;
                    total = omega (arith, total1, total2, le, sum-append paid change);
                    denominations = All-append IsDenomination paid change all1 all2;
                  })
            ]
            | inr exact ↦
                let e : paid ≡ amounts = cc (rw (e1, exact, output_amounts) at h) in
                rw (← e) (record {
                  paid = paid;
                  change = [];
                  parts = sym (append-nil paid);
                  paid_total = total1;
                  total = omega (arith, total1, le, ltb→le target in_total exact);
                  denominations = all1;
                })
          ]
    ]

-- What a swap takes in: unlocked coins, each once, and what they are worth.
pub record IsPlan (state : FlashState) (target : ℕ) (idx amounts : List ℕ) : Type 0 where
  pub in_total : ℕ
  pub inputs : IsSelection state.proofs none in_total idx
  pub enough : target ≤ in_total
  pub outputs : IsSplit (pinned_keysets state) target in_total amounts

-- A planned swap takes unlocked coins, each at most once, that cover the target; its outputs are
-- denominations that are worth exactly as much, and the first of them are worth the target.
pub plan_swap-IsPlan :
    (state : FlashState) (target : ℕ) (idx amounts : List ℕ)
    → plan_swap state target ≡ ok (idx, amounts)
    → IsPlan state target idx amounts
unfolding plan_swap smallest_first total_of
plan_swap-IsPlan state target idx amounts h =
    let after = λ (a : ℕ × ℕ) (b : ℕ × ℕ). ltb b.1 a.1 in
    let cand = candidates none state.proofs in
    let sorted = sort_by after cand in
    let chosen = choose_inputs target sorted in
    let in_total = amounts_at sorted chosen in
    elim (Bool-cases (ltb (total_of cand) target)) [
      | inl short ↦ cc (rw (short, plan_swap) at h)
      | inr enough ↦
          elim (Result-cases
            (output_amounts target in_total (denominations_of (pinned_keysets state)))) [
              | inr (_, e) ↦ cc (rw (enough, e, plan_swap) at h)
              | inl (out, e) ↦
                  let places : ascending (map (λ p. index_at sorted p) chosen) ≡ idx =
                    cc (rw (enough, e, plan_swap) at h) in
                  let parts : out ≡ amounts = cc (rw (enough, e, plan_swap) at h) in
                  let same = sum-sort_by after (λ (c : ℕ × ℕ). c.1) cand in
                  let covers : target ≤ in_total =
                    choose_inputs-covers target sorted
                      (omega (arith, ltb→le (total_of cand) target enough, same)) in
                  let selection =
                    candidates-IsSelection state.proofs none sorted in_total chosen
                      (Pairwise-sort_by after (λ a b. a.0 ≢ b.0) (λ a b ne e. ne (sym e)) cand
                        (candidates-Distinct none state.proofs))
                      (All-sort_by after (IsCandidate none state.proofs) cand
                        (candidates-All none state.proofs))
                      (choose_inputs-IsFalling target sorted)
                      (sym (amounts_at-total_at sorted chosen)) in
                  record {
                    in_total = in_total;
                    inputs = rw places at selection;
                    enough = covers;
                    outputs =
                        output_amounts-IsSplit (pinned_keysets state) target in_total amounts covers
                          (rw parts at e);
                  }
            ]
    ]

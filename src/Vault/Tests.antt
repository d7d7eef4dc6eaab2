-- ===== src/Vault/Tests.antt =====
-- A small vault with a signed coin, and the theorems of its methods at concrete inputs.
use fupi.Common.{
  ℕ, suc, ◌≡◌, refl, ◌↔◌, String, true, false, inr, none, some, List, [], ◌∷◌, map, arith, All,
}
use fupi.Common.Result.{ok, err}
use fupi.Common.Text.{show, trim, trim_end_matches, parse_u64, as_bytes}
use fupi.Common.Sorting.{Pairwise}
use fupi.Types.{Keyset, Proof, Receipt, PendingOut, PendingSwap, FlashState, default_state}
use fupi.Denom.{proof_value}
use fupi.Crypto.{
  b64_decode_codes, b64_to_biguint, b64_encode, hash_to_scalar, verify, lock_of, unblind, modinv,
  biguint_to_b64,
}
use fupi.Crypto.Tests.{toy_crates}
use fupi.Vault.Errors.{VaultError, insufficient_funds}
use fupi.Vault.Environment.{Environment, TokenCodec}
use fupi.Vault.Session.{Session}
use fupi.Vault.Session.Steps.{Outcome}
use fupi.Vault.Keysets.{pinned_keysets, check_keyset_set, is_empty}
use fupi.Vault.Keysets.Trust.{IsSafe, check_keyset_set_iff}
use fupi.Vault.Tokens.{verify_offline_set}
use fupi.Vault.Tokens.Genuine.{IsAccepted, verify_offline_set_iff}
use fupi.Vault.Coins.{candidates, index_at}
use fupi.Vault.Payment.{select_coins, make_payment, spent_state}
use fupi.Vault.Payment.Outcome.{IsExact, make_payment-IsExact}
use fupi.Vault.Payment.Complete.{select_coins_complete}
use fupi.Vault.Merchant.{accept_payment, accepted_state, new_receipt, is_known}
use fupi.Vault.Merchant.Accept.{IsSale, accept_payment_whole}
use fupi.Vault.Merchant.Replay.{accept_payment_once}
use fupi.Vault.Receive.{receive_token}
use fupi.Vault.Receive.Money.{IsReceived, MaySome, receive_token-IsReceived}
use fupi.Vault.Receive.Distinct.{Differ, receive_token-Pairwise}
use fupi.Vault.State.{breakdown}
use fupi.Vault.Swap.{complete_swap, swapped_state}

-- The key of modulus 33 signs coins of value 5: by it 14 is the signature of every secret.
abbrev pub fives : Keyset
fives = record { keyset_id = "go-mvp-d5"; n = "33"; e = 3 }

abbrev pub coin : String → Proof
coin secret = record {
  secret = secret;
  sig = "14";
  n = "33";
  e = 3;
  keyset_id = some "go-mvp-d5";
  p2pk = none;
  claimer = none;
}

abbrev pub two_coins : List Proof
two_coins = coin "a" ∷ coin "b" ∷ []

abbrev pub state : FlashState
state = record default_state { proofs = two_coins; keysets = fives ∷ [] }

-- All goes well in this world; the ATM signs everything by 28.
abbrev pub toy_env : Environment
toy_env = record {
  World = ℕ;
  save = λ _ w. (ok tt, w);
  wipe = λ w. (ok tt, w);
  get_keysets = λ w. (ok (fives ∷ []), w);
  get_keyset = λ w. (ok fives, w);
  blind_sign_device = λ _ _ _ _ _ w. (ok "28", w);
  swap = λ _ outs w. (ok (map (λ _. "28") outs), w);
  settle_as = λ _ _ w. (ok (true, "settled"), w);
  secret_bytes = λ w. (w ∷ [], suc w);
  random_blinder = λ n w. (2, w);
  key_bytes = λ w. (w ∷ [], suc w);
  now = λ w. (w, w);
}

-- Every token stands for one coin.
abbrev pub toy_codec : TokenCodec
toy_codec = record { to_vec = λ _. ok (7 ∷ []); from_slice = λ _. ok (coin "c" ∷ []) }

abbrev pub session : FlashState → Session ℕ
session s = record { state = s; has_client = true; merchant = none; world = 1 }

abbrev paid : Session ℕ
paid = record (session state) { state = spent_state state (0 ∷ []) "7" 5 }

pay_5 : make_payment toy_crates toy_codec toy_env 5 none (session state) ≡ (ok "7", paid)
unfolding make_payment proof_value index_at b64_encode show
pay_5 = refl

pay_7 :
    make_payment toy_crates toy_codec toy_env 70 none (session state)
    ≡ (err (insufficient_funds 10 70), session state)
unfolding make_payment proof_value
pay_7 = refl

make_payment-IsExact_example :
    (chosen : List Proof) × IsExact toy_crates toy_codec toy_env 5 none
      (session state)
      chosen
      "7"
      paid
make_payment-IsExact_example =
    make_payment-IsExact toy_crates toy_codec toy_env 5 none (session state) "7" paid pay_5

select_coins_complete_example : (idx : List ℕ) × (select_coins two_coins none 10 ≡ ok idx)
unfolding candidates proof_value
select_coins_complete_example =
    select_coins_complete two_coins none 10 (inr (omega arith, inr (omega arith, refl)))
      (omega arith)

verify_offline_set_iff_example :
    (verify_offline_set toy_crates toy_codec "9" (fives ∷ []) ≡ ok (coin "c" ∷ []))
    ↔ IsAccepted toy_crates (fives ∷ []) toy_codec "9" (coin "c" ∷ [])
verify_offline_set_iff_example =
    verify_offline_set_iff toy_crates (fives ∷ []) toy_codec "9" (coin "c" ∷ [])

token_9 : verify_offline_set toy_crates toy_codec "9" (fives ∷ []) ≡ ok (coin "c" ∷ [])
unfolding verify_offline_set b64_decode_codes parse_u64 trim_end_matches trim b64_to_biguint lock_of
    as_bytes verify hash_to_scalar
token_9 = refl

accept_payment_whole_example :
    Outcome
      (IsSale toy_crates toy_codec toy_env "9" none (some 5) (session state))
      (λ e s'. s'.state ≡ state)
      (accept_payment toy_crates toy_codec toy_env "9" none (some 5) (session state))
accept_payment_whole_example =
    accept_payment_whole toy_crates toy_codec toy_env "9" none (some 5) (session state)

abbrev sale : Receipt
sale = new_receipt state (coin "c" ∷ []) none 1

abbrev pub sold : Session ℕ
sold = record (session state) { state = accepted_state state (coin "c" ∷ []) sale }

accept_9 :
    accept_payment toy_crates toy_codec toy_env "9" none (some 5) (session state) ≡ (ok sale, sold)
unfolding accept_payment b64_decode_codes parse_u64 trim_end_matches trim b64_to_biguint lock_of
    as_bytes verify hash_to_scalar is_known pinned_keysets proof_value
accept_9 = refl

accept_payment_once_example :
    ¬ (accept_payment toy_crates toy_codec toy_env "9" (some "again") none sold ≡ (ok sale, sold))
accept_payment_once_example =
    accept_payment_once toy_crates toy_codec toy_env "9" none (some "again") (some 5) none
      (session state) sold sold sold sale sale accept_9 refl

abbrev other : Keyset
other = record { keyset_id = "go-mvp-d5"; n = "34"; e = 3 }

other_key : (r : VaultError) × (check_keyset_set (fives ∷ []) (other ∷ []) true ≡ err r)
unfolding check_keyset_set
other_key = (_, refl)

check_keyset_set_iff_example :
    (check_keyset_set (fives ∷ []) (fives ∷ other ∷ []) false ≡ ok tt) ↔ (
      (is_empty (fives ∷ other ∷ []) ≡ false)
      × All (IsSafe (fives ∷ []) false) (fives ∷ other ∷ []))
check_keyset_set_iff_example = check_keyset_set_iff (fives ∷ []) false (fives ∷ other ∷ [])

abbrev output : PendingOut
output = record { secret = "d"; r = "2"; blinded = "7"; amount = 5; keyset_id = "go-mvp-d5" }

abbrev pub pending : PendingSwap
pending = record { inputs = coin "e" ∷ []; outputs = output ∷ [] }

abbrev pub swapping : FlashState
swapping = record state { pending_swap = some pending }

abbrev swapped : Session ℕ
swapped = record (session swapping) { state = swapped_state swapping pending (coin "d" ∷ []) }

swap_5 : complete_swap toy_crates toy_env pending true (session swapping) ≡ (ok tt, swapped)
unfolding complete_swap b64_decode_codes parse_u64 trim_end_matches trim b64_to_biguint lock_of
    as_bytes verify hash_to_scalar unblind modinv biguint_to_b64 show pinned_keysets
swap_5 = refl

breakdown_state : breakdown state ≡ (5, 2) ∷ []
unfolding breakdown proof_value
breakdown_state = refl

receive_token-Pairwise_example :
    Outcome
      (λ (_ : ℕ) s'. Pairwise Differ s'.state.proofs)
      (λ e s'. Pairwise Differ s'.state.proofs)
      (receive_token toy_crates toy_codec toy_env "9" none (session state))
receive_token-Pairwise_example =
    receive_token-Pairwise toy_crates toy_codec toy_env "9" none (session state)
      ((refl, tt), (tt, tt))

receive_token-IsReceived_example :
    Outcome
      (IsReceived toy_crates toy_codec toy_env "9" (session state) none)
      (λ e s'. MaySome toy_crates toy_codec toy_env "9" (session state) s')
      (receive_token toy_crates toy_codec toy_env "9" none (session state))
receive_token-IsReceived_example =
    receive_token-IsReceived toy_crates toy_codec toy_env "9" (session state) none

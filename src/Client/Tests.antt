-- ===== src/Client/Tests.antt =====
-- The client at concrete inputs.
use fupi.Common.{
  ℕ, zero, suc, ◌<◌, ◌≡◌, refl, String, Bool, true, false, some, none, List, [], ◌∷◌, All, length,
  arith,
}
use fupi.Common.Result.{ok, err}
use fupi.Common.Text.{show}
use fupi.Crypto.{Crates, hex_decode, hex_encode}
use fupi.Crypto.Tests.{toy_crates}
use fupi.Client.Fingerprint.{normalize_fingerprint}
use fupi.Client.Tls.{pinned, pinned_verifier, AtmClient, with_tls, verify_server_cert}
use fupi.Client.Pinned.{with_tls-IsPinned}
use fupi.Client.Agent.{Reply, Agent, Json, Hmac, answered, refused}
use fupi.Client.Calls.{settle_as, result_of}
use fupi.Client.Operator.{credit_reserve, allocate, payout}
use fupi.Client.Signed.{IsSigned, operator_calls-IsSigned}
use fupi.Client.Connected.{Device}
use fupi.Client.Verdicts.{Verdict, settle_request, settle_as-Verdict}
use fupi.Vault.Tests.{coin, fives}

abbrev zeros : ℕ → List ℕ
zeros zero = []
zeros (suc n) = 0 ∷ zeros n

zeros-bytes : (n : ℕ) → All (λ b. b < 256) (zeros n)
zeros-bytes zero = tt
zeros-bytes (suc n) = (omega arith, zeros-bytes n)

-- Every digest is zero here.
abbrev zero_crates : Crates
zero_crates = record toy_crates { sha256 = λ _. zeros 32 }

abbrev pin : String
pin =
    "00:00:00:00:00:00:00:00:00:00:00:00:00:00:00:00:00:00:00:00:00:00:00:00:00:00:00:00:00:00:00:00"

abbrev pinned_client : AtmClient
pinned_client = record { base_url = "https://atm"; verifier = some (pinned_verifier pin) }

made : with_tls "https://atm//" (pinned pin) ≡ ok pinned_client
unfolding with_tls normalize_fingerprint
made = refl

accepted : verify_server_cert zero_crates (pinned_verifier pin) (7 ∷ []) ≡ ok tt
unfolding verify_server_cert normalize_fingerprint hex_encode show
accepted = refl

with_tls-IsPinned_example :
    (hex_decode (normalize_fingerprint pin) ≡ some (zeros 32)) × (length (zeros 32) ≡ 32)
with_tls-IsPinned_example =
    with_tls-IsPinned zero_crates (λ _. zeros-bytes 32) "https://atm//" pin pinned_client
      (pinned_verifier pin) (7 ∷ []) made refl accepted

-- An ATM that refuses every second request as a conflict.
abbrev pub toy_agent : Agent
toy_agent = record {
  World = Bool;
  get = λ _ _ w. (answered (ok "{}"), w);
  post = λ _ _ _ w. elim w [
    | true ↦ (answered (ok "{}"), false)
    | false ↦ (refused 409 (ok "spent") "409", true)
  ];
}

abbrev pub toy_json : Json
toy_json = record {
  F = ℕ;
  Value = String;
  credit_request = λ _. ok "";
  allocate_request = λ _. ok "";
  blind_sign_request = λ _. ok "";
  swap_request = λ _. ok "";
  proof = λ p. ok p.secret;
  payout = λ _ _ _. "";
  info = λ _. err "no info";
  keyset = λ _. ok fives;
  keysets = λ _. ok (record { keysets = fives ∷ [] });
  credit_response = λ _. ok (record { reserve = 1 });
  allocate_response = λ _. ok (record { allocated = 1 });
  blind_sign_response = λ _. ok (record { blind_signature = "28" });
  swap_response = λ _. ok (record { signatures = [] });
  settle_response = λ _. ok (record { result = "settled" });
  value = λ text. ok text;
}

settle_as-Verdict_example :
    Verdict
      (result_of toy_json)
      (settle_request toy_agent toy_json "https://atm" (coin "a") none "a" false).0
      (settle_as toy_agent toy_json "https://atm" (coin "a") none false).0
settle_as-Verdict_example =
    settle_as-Verdict toy_agent toy_json "https://atm" (coin "a") none "a" false refl

-- A device that saves everything.
abbrev pub toy_device : Device Bool
toy_device = record {
  save = λ _ w. (ok tt, w);
  wipe = λ w. (ok tt, w);
  secret_bytes = λ w. (1 ∷ [], w);
  random_blinder = λ n w. (2, w);
  key_bytes = λ w. (1 ∷ [], w);
  now = λ w. (0, w);
}

abbrev pub toy_hmac : Hmac
toy_hmac = λ key message. ok (message)

-- The same ATM, but for requests without a header.
abbrev guarded : String → List (String × String) → String → Bool → Reply × Bool
guarded url [] body w = (refused 401 (ok "unsigned") "401", w)
guarded url (h ∷ headers) body w = toy_agent.post url (h ∷ headers) body w

guarded_agrees :
    (url : String) (headers : List (String × String)) (body : String) (w : Bool)
    → IsSigned toy_hmac "key" headers body
    → toy_agent.post url headers body w ≡ guarded url headers body w
guarded_agrees url headers body w (sig, made, same) = rw same refl

operator_calls-IsSigned_example :
    (credit_reserve toy_agent toy_json toy_hmac "https://atm" 5 "utr" "key" true
      ≡ credit_reserve
          (record toy_agent { post = guarded })
          toy_json
          toy_hmac
          "https://atm"
          5
          "utr"
          "key"
          true)
    × (allocate toy_agent toy_json toy_hmac "https://atm" "device" 5 "utr" "key" true
        ≡ allocate
            (record toy_agent { post = guarded })
            toy_json
            toy_hmac
            "https://atm"
            "device"
            5
            "utr"
            "key"
            true)
    × (payout toy_agent toy_json toy_hmac "https://atm" "shop" 5 "utr" "key" true
        ≡ payout
            (record toy_agent { post = guarded })
            toy_json
            toy_hmac
            "https://atm"
            "shop"
            5
            "utr"
            "key"
            true)
operator_calls-IsSigned_example =
    operator_calls-IsSigned toy_agent toy_json toy_hmac "https://atm" "key" guarded guarded_agrees 5
      "device" "utr" "shop" 5 true

-- ===== src/Client/Calls.antt =====
-- The calls of `AtmClient` in vault-rust/src/client.rs: what each sends, and what it makes of the reply.
use fupi.Common.{
  ℕ, String, ◌<>◌, Bool, true, false, Option, none, some, List, [], ◌∷◌, map, ◌==◌, if◌then◌else◌,
}
use fupi.Common.Result.{Result, ok, err, map_err}
use fupi.Common.Text.{as_bytes}
use fupi.Types.{Keyset, Proof}
use fupi.Types.Wire.{AtmInfo, BlindSignRequest}
use fupi.Crypto.{hex_encode}
use fupi.Vault.Errors.{ClientError, transport, http_status, serialization}
use fupi.Client.Agent.{Body, Reply, answered, refused, failed, Agent, Json, Hmac}

-- A call: its outcome and what has become of the world.
abbrev pub Call : Type 0 → Type 0 → Type 0
Call W A = W → Result ClientError A × W

module _ {W : Type 0} where
  abbrev pub lift : {A : Type 0} → Result ClientError A → Call W A
  lift r w = (r, w)

  abbrev continue :
      {A B : Type 0} → Result ClientError A → (A → Call W B) → W → Result ClientError B × W
  continue (ok a) f w = f a w
  continue (err e) f w = (err e, w)

  infixl 5 ◌>>=◌
  abbrev pub ◌>>=◌ : {A B : Type 0} → Call W A → (A → Call W B) → Call W B
  ◌>>=◌ m f w = let (r, w') = m w in continue r f w'

-- `unwrap_or_default`
abbrev pub body_or_empty : Body → String
body_or_empty (ok text) = text
body_or_empty (err e) = ""

-- Of a GET by `call()?`: an error of any kind is one of transport.
unfoldable pub text_of : Reply → Result ClientError String
text_of (answered body) = map_err transport body
text_of (refused code body display) = err (transport display)
text_of (failed display) = err (transport display)

-- Of a POST: a status that is an error comes with its body.
unfoldable pub posted : Reply → Result ClientError String
posted (answered body) = map_err transport body
posted (refused code body display) = err (http_status code (body_or_empty body))
posted (failed display) = err (transport display)

abbrev pub signature_header : Option String → List (String × String)
signature_header none = []
signature_header (some sig) = ("X-Fupi-Signature", sig) ∷ []

abbrev pub merchant_header : Option String → List (String × String)
merchant_header none = []
merchant_header (some m) = ("X-Fupi-Merchant", m) ∷ []

unfoldable pub hmac_hex : Hmac → String → String → Result ClientError String
hmac_hex hmac secret body = elim (hmac (as_bytes secret) (as_bytes body)) [
  | err e ↦ err (serialization e)
  | ok mac ↦ ok (hex_encode mac)
]

-- What `settle_as` makes of the reply: a conflict is an answer.
unfoldable pub settle_reply :
    (String → Result String String) → Reply → Result ClientError (Bool × String)
settle_reply result_of (answered (err e)) = err (transport e)
settle_reply result_of (answered (ok text)) = elim (result_of text) [
  | err e ↦ err (serialization e)
  | ok result ↦ ok (true, result)
]
settle_reply result_of (refused code body display) =
    if code == 409
    then (elim (result_of (body_or_empty body)) [
      | ok result ↦ ok (false, result)
      | err e ↦ ok (false, body_or_empty body)
    ])
    else err (http_status code (body_or_empty body))
settle_reply result_of (failed display) = err (transport display)

module _ (json : Json) where
  -- The `result` of a settle response.
  unfoldable pub result_of : String → Result String String
  result_of text = elim (json.settle_response text) [ ok r ↦ ok r.result | err e ↦ err e ]

module _ (agent : Agent) (json : Json) (base_url : String) where
  -- `agent.get(&url).call()` and `into_string`
  unfoldable pub fetch : String → Call agent.World String
  unfolding text_of
  fetch path w = let (reply, w') = agent.get (base_url <> path) [] w in (text_of reply, w')

  unfoldable pub post_json : String → String → Option String → Call agent.World String
  unfolding posted
  post_json path body signature w =
      let (reply, w') =
        agent.post (base_url <> path)
          (("Content-Type", "application/json") ∷ signature_header signature) body w in
      (posted reply, w')

  unfoldable pub get_info : Call agent.World (AtmInfo json.F)
  unfolding fetch
  get_info = do text ← fetch "/v1/info"; lift (map_err serialization (json.info text))

  unfoldable pub get_keyset : Call agent.World Keyset
  unfolding fetch
  get_keyset = do text ← fetch "/v1/keyset"; lift (map_err serialization (json.keyset text))

  unfoldable pub get_keysets : Call agent.World (List Keyset)
  unfolding fetch
  get_keysets = do
    text ← fetch "/v1/keysets"
    r ← lift (map_err serialization (json.keysets text))
    lift (ok r.keysets)

  unfoldable pub send_blind_sign : BlindSignRequest → Call agent.World String
  unfolding post_json
  send_blind_sign request = do
    body ← lift (map_err serialization (json.blind_sign_request request))
    resp ← post_json "/v1/blind-sign" body none
    r ← lift (map_err serialization (json.blind_sign_response resp))
    lift (ok r.blind_signature)

  unfoldable pub blind_sign_device : String → ℕ → String → ℕ → String → Call agent.World String
  unfolding send_blind_sign
  blind_sign_device blinded_b64 denomination device seq device_sig = send_blind_sign (record {
    blinded_message = blinded_b64;
    amount = denomination;
    device = some device;
    seq = some seq;
    device_sig = some device_sig;
  })

  -- Written out in the source; the steps are those of `post_json` without a signature.
  unfoldable pub blind_sign : String → ℕ → Call agent.World String
  unfolding send_blind_sign
  blind_sign blinded_b64 amount = send_blind_sign (record {
    blinded_message = blinded_b64;
    amount = amount;
    device = none;
    seq = none;
    device_sig = none;
  })

  unfoldable pub swap : List Proof → List (String × ℕ) → Call agent.World (List String)
  unfolding post_json
  swap inputs outputs = do
    body ← lift (
        map_err serialization (
          json.swap_request (record {
            inputs = inputs;
            outputs = map (λ o. record { blinded_message = o.0; amount = o.1 }) outputs;
          })))
    resp ← post_json "/v1/swap" body none
    r ← lift (map_err serialization (json.swap_response resp))
    lift (ok r.signatures)

  unfoldable pub settle_as : Proof → Option String → Call agent.World (Bool × String)
  unfolding settle_reply result_of
  settle_as proof merchant = do
    body ← lift (map_err serialization (json.proof proof))
    λ w.
        let (reply, w') =
          agent.post (base_url <> "/v1/settle")
            (("Content-Type", "application/json") ∷ merchant_header merchant) body w in
        (settle_reply (result_of json) reply, w')

  unfoldable pub settle : Proof → Call agent.World (Bool × String)
  unfolding settle_as
  settle proof = settle_as proof none

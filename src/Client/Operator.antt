-- ===== src/Client/Operator.antt =====
-- The operator's calls of `AtmClient` in vault-rust/src/client.rs, which an HMAC authenticates.
use fupi.Common.{ℕ, String, ◌<>◌, Option, none, some, [], ◌∷◌}
use fupi.Common.Result.{ok, map_err}
use fupi.Common.Text.{show}
use fupi.Vault.Errors.{serialization}
use fupi.Client.Agent.{Agent, Json, Hmac}
use fupi.Client.Calls.{Call, ◌>>=◌, lift, posted, post_json, hmac_hex}

-- `uri.push_str(…)`
abbrev pub merchant_query : Option String → String
merchant_query none = ""
merchant_query (some m) = "&merchant=" <> m

unfoldable pub settlements_uri : ℕ → Option String → String
settlements_uri since merchant = "/v1/settlements?since=" <> (show since <> merchant_query merchant)

module _ (agent : Agent) (json : Json) (hmac : Hmac) (base_url : String) where
  -- `hmac_hex`, then `post_json` with the signature.
  unfoldable pub post_signed : String → String → String → Call agent.World String
  unfolding hmac_hex post_json
  post_signed path body secret = do
    sig ← lift (hmac_hex hmac secret body)
    post_json agent json base_url path body (some sig)

  unfoldable pub credit_reserve : json.F → String → String → Call agent.World json.F
  unfolding post_signed
  credit_reserve amount reference secret = do
    body ← lift (
        map_err serialization
          (json.credit_request (record { amount = amount; reference = reference })))
    resp ← post_signed "/v1/credit" body secret
    res ← lift (map_err serialization (json.credit_response resp))
    lift (ok res.reserve)

  unfoldable pub allocate : String → json.F → String → String → Call agent.World json.F
  unfolding post_signed
  allocate device amount reference secret = do
    body ← lift (
        map_err serialization (
          json.allocate_request
            (record { device = device; amount = amount; reference = reference })))
    resp ← post_signed "/v1/allocate" body secret
    res ← lift (map_err serialization (json.allocate_response resp))
    lift (ok res.allocated)

  unfoldable pub settlements : ℕ → Option String → String → Call agent.World json.Value
  unfolding settlements_uri hmac_hex posted
  settlements since merchant secret = do
    sig ← lift (hmac_hex hmac secret (settlements_uri since merchant))
    body ← (λ w.
        let (reply, w') =
          agent.get (base_url <> settlements_uri since merchant) (("X-Fupi-Signature", sig) ∷ [])
            w in
        (posted reply, w'))
    lift (map_err serialization (json.value body))

  unfoldable pub payout : String → ℕ → String → String → Call agent.World json.Value
  unfolding post_signed
  payout merchant amount reference secret = do
    resp ← post_signed "/v1/payout" (json.payout merchant amount reference) secret
    lift (map_err serialization (json.value resp))

-- ===== src/Client/Signed.antt =====
-- The operator's calls send nothing but signed requests.
use fupi.Common.{◌≡◌, refl, inl, inr, String, List, [], ◌∷◌, ◌<>◌, ℕ}
use fupi.Common.Result.{ok}
use fupi.Vault.Session.Steps.{Result-cases}
use fupi.Client.Agent.{Reply, Agent, Json, Hmac}
use fupi.Client.Calls.{hmac_hex, post_json}
use fupi.Client.Operator.{post_signed, credit_reserve, allocate, payout}

-- The headers carry the HMAC of the body under the secret.
abbrev pub IsSigned : Hmac → String → List (String × String) → String → Type 0
IsSigned hmac secret headers body =
    (sig : String) × (hmac_hex hmac secret body ≡ ok sig)
    × (headers ≡ ("Content-Type", "application/json") ∷ ("X-Fupi-Signature", sig) ∷ [])

module _ (agent : Agent) (json : Json) (hmac : Hmac) (base_url secret : String)
    (other : String → List (String × String) → String → agent.World → Reply × agent.World)
    (agree : (url : String) (headers : List (String × String)) (body : String) (w : agent.World)
      → IsSigned hmac secret headers body
      → agent.post url headers body w ≡ other url headers body w) where
  abbrev pub replaced : Agent
  replaced = record agent { post = other }

  post_signed_same :
      (path body : String) (w : agent.World)
      → post_signed agent json hmac base_url path body secret w
        ≡ post_signed replaced json hmac base_url path body secret w
  unfolding post_signed post_json
  post_signed_same path body w = elim (Result-cases (hmac_hex hmac secret body)) [
    | inr (e, failed) ↦ rw failed refl
    | inl (sig, made) ↦
        let same = agree (base_url <> path) _ body w (sig, made, refl) in rw (made, same) refl
  ]

  -- Where an agent and another way to post agree on the requests that carry the HMAC of their body,
  -- crediting, allocating and paying out do the same over both: they send no other request.
  pub operator_calls-IsSigned :
      (amount : json.F) (device reference merchant : String) (paid : ℕ) (w : agent.World)
      → (credit_reserve agent json hmac base_url amount reference secret w
          ≡ credit_reserve replaced json hmac base_url amount reference secret w)
        × (allocate agent json hmac base_url device amount reference secret w
            ≡ allocate replaced json hmac base_url device amount reference secret w)
        × (payout agent json hmac base_url merchant paid reference secret w
            ≡ payout replaced json hmac base_url merchant paid reference secret w)
  unfolding credit_reserve allocate payout
  operator_calls-IsSigned amount device reference merchant paid w = (
    elim (Result-cases (json.credit_request (record { amount = amount; reference = reference }))) [
      | inr (e, failed) ↦ rw failed refl
      | inl (body, made) ↦ rw (made, post_signed_same "/v1/credit" body w) refl
    ],
    elim (Result-cases (
        json.allocate_request
          (record { device = device; amount = amount; reference = reference }))) [
            | inr (e, failed) ↦ rw failed refl
            | inl (body, made) ↦ rw (made, post_signed_same "/v1/allocate" body w) refl
          ],
    rw (post_signed_same "/v1/payout" (json.payout merchant paid reference) w) refl,
  )

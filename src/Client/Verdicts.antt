-- ===== src/Client/Verdicts.antt =====
-- What a settled proof, and a refused one, say about the ATM's reply.
use fupi.Common.{
  ◌≢◌, ◌≡◌, refl, ◌⊎◌, inl, inr, String, ◌<>◌, Bool, true, false, Option, ◌∷◌, ==_iff, ◌==◌,
  Bool-cases,
}
use fupi.Common.Result.{Result, ok, err}
use fupi.Types.{Proof}
use fupi.Vault.Errors.{ClientError, transport, http_status, serialization}
use fupi.Vault.Session.Steps.{Result-cases}
use fupi.Client.Agent.{Body, Reply, answered, refused, failed, Agent, Json}
use fupi.Client.Calls.{body_or_empty, settle_reply, result_of, merchant_header, settle_as}

-- What a settle call that comes back with `r` has seen.
abbrev pub Verdict :
    (String → Result String String) → Reply → Result ClientError (Bool × String) → Type 0
Verdict parse reply (ok (true, text)) =
    (body : String) × (reply ≡ answered (ok body)) × (parse body ≡ ok text)
Verdict parse reply (ok (false, text)) =
    (body : Body) × (display : String) × (reply ≡ refused 409 body display)
    × ((text ≡ body_or_empty body) ⊎ (parse (body_or_empty body) ≡ ok text))
Verdict parse reply (err (http_status code text)) =
    (code ≢ 409)
    × ((body : Body) × (display : String) × (reply ≡ refused code body display)
        × (text ≡ body_or_empty body))
Verdict parse reply (err (transport e)) = (reply ≡ failed e) ⊎ (reply ≡ answered (err e))
Verdict parse reply (err (serialization e)) =
    (body : String) × (reply ≡ answered (ok body)) × (parse body ≡ err e)

settle_reply-Verdict :
    (parse : String → Result String String) (reply : Reply)
    → Verdict parse reply (settle_reply parse reply)
unfolding settle_reply
settle_reply-Verdict parse (answered (err e)) = inr refl
settle_reply-Verdict parse (answered (ok body)) = elim (Result-cases (parse body)) [
  | inl (text, e) ↦ rw (e, settle_reply) (body, refl, e)
  | inr (d, e) ↦ rw (e, settle_reply) (body, refl, e)
]
settle_reply-Verdict parse (refused code body display) = elim (Bool-cases (code == 409)) [
  | inr e ↦
      rw (e, settle_reply) ((λ (same : code ≡ 409). cc (rw same at e)), (body, display, refl, refl))
  | inl e ↦
      let same : code ≡ 409 = (==_iff code 409).0 e in
      rw same (elim (Result-cases (parse (body_or_empty body))) [
        | inl (text, e2) ↦ rw (e2, settle_reply) (body, display, refl, inr e2)
        | inr (d, e2) ↦ rw (e2, settle_reply) (body, display, refl, inl refl)
      ])
]
settle_reply-Verdict parse (failed e) = inl refl

module _ (agent : Agent) (json : Json) (base_url : String) (proof : Proof)
    (merchant : Option String) where
  -- The request of a settle call.
  abbrev pub settle_request : String → agent.World → Reply × agent.World
  settle_request =
      agent.post (base_url <> "/v1/settle")
        (("Content-Type", "application/json") ∷ merchant_header merchant)

  -- A settle call that prints its proof reports settled only if the ATM accepted the request and its
  -- answer could be read, and rejected only if the ATM replied with a conflict; no conflict is
  -- reported as an error, an error status is that of the reply, and every other error says that the
  -- request failed or that its answer could not be read.
  pub settle_as-Verdict :
      (body : String) (w : agent.World)
      → json.proof proof ≡ ok body
      → Verdict
          (result_of json)
          (settle_request body w).0
          (settle_as agent json base_url proof merchant w).0
  unfolding settle_as
  settle_as-Verdict body w printed =
      rw (printed, settle_as) (settle_reply-Verdict (result_of json) (settle_request body w).0)

-- ===== src/Client/Agent.antt =====
-- What the client of vault-rust/src/client.rs is connected to: `ureq`, whose answers may be anything,
-- `serde_json`, which may refuse any text, and `hmac`.
use fupi.Common.{ℕ, String, List}
use fupi.Common.Result.{Result}
use fupi.Types.{Keyset, Proof}
use fupi.Types.Wire.{
  AtmInfo, CreditRequest, CreditResponse, BlindSignRequest, BlindSignResponse, SettleResponse,
  AllocateRequest, AllocateResponse, SwapRequest, SwapResponse, KeysetsResponse,
}

-- The body of an answer: its text, or the display of the error of reading it.
abbrev pub Body : Type 0
Body = Result String String

-- `Result<ureq::Response, ureq::Error>`: an answer; `Error::Status`, with its code, its body and its
-- display; or another error's display.
pub data Reply : Type 0 where
  answered : Body → Reply
  refused : ℕ → Body → String → Reply
  failed : String → Reply

-- A request: its address and its headers, and for a POST its body.
pub record Agent : Type 1 where
  pub World : Type 0
  pub get : String → List (String × String) → World → Reply × World
  pub post : String → List (String × String) → String → World → Reply × World

-- `to_string` and `from_str`, with the displays of their errors; `F` is `f64`, `Value` any JSON.
pub record Json : Type 1 where
  pub F : Type 0
  pub Value : Type 0
  pub credit_request : CreditRequest F → Result String String
  pub allocate_request : AllocateRequest F → Result String String
  pub blind_sign_request : BlindSignRequest → Result String String
  pub swap_request : SwapRequest → Result String String
  pub proof : Proof → Result String String
  -- `serde_json::json!({"merchant", "amount", "ref"}).to_string()`
  pub payout : String → ℕ → String → String
  pub info : String → Result String (AtmInfo F)
  pub keyset : String → Result String Keyset
  pub keysets : String → Result String KeysetsResponse
  pub credit_response : String → Result String (CreditResponse F)
  pub allocate_response : String → Result String (AllocateResponse F)
  pub blind_sign_response : String → Result String BlindSignResponse
  pub swap_response : String → Result String SwapResponse
  pub settle_response : String → Result String SettleResponse
  pub value : String → Result String Value

-- `Hmac::<Sha256>` of a key and a message, or the display of the error of its key.
abbrev pub Hmac : Type 0
Hmac = List ℕ → List ℕ → Result String (List ℕ)

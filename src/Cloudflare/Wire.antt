-- ===== src/Cloudflare/Wire.antt =====
-- What the adapters use of the packages encoding/json and net/http: parameters of the model.
use cloudflare_smtp_relay.Shared.{Bool, Option, List}
use cloudflare_smtp_relay.Shared.Int.{ℤ}
use cloudflare_smtp_relay.Shared.Text.{Text}
use cloudflare_smtp_relay.Email.Errors.{Fault, Fallible}
use cloudflare_smtp_relay.Cloudflare.Payload.{SendPayload}

-- `restError` of internal/cloudflare/rest.go.
pub record RestError : Type 0 where
  pub code : ℤ
  pub message : Text

-- `restResponse`; `result` is a pointer to the list `delivered`.
pub record RestResponse : Type 0 where
  pub success : Bool
  pub errors : List RestError
  pub result : Option (List Text)

-- `workerResponse` of internal/cloudflare/worker.go.
pub record WorkerResponse : Type 0 where
  pub success : Bool
  pub message_id : Text
  pub code : Text
  pub error : Text

-- `json.Marshal`, `json.Unmarshal` at the two shapes, and the error of `http.NewRequest` for a URL.
pub record Wire : Type 0 where
  pub marshal : SendPayload → Fallible Text
  pub decode_rest : Text → Fallible RestResponse
  pub decode_worker : Text → Fallible WorkerResponse
  pub bad_url : Text → Option Fault

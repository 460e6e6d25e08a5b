-- ===== src/Edge.antt =====
-- worker/src/index.js: the request handler of the Worker, over what the runtime provides.
pub mod Secret
pub mod Values
pub mod Binding
pub mod Laws
pub mod Agreement
pub mod Relayed
pub mod Exchange
pub mod Delivered
pub mod Reached
use cloudflare_smtp_relay.Shared.{
  ℕ, ◌*◌, Bool, true, false, not, Option, none, some, List, [], ◌∷◌, ◌||◌, if◌then◌else◌,
}
use cloudflare_smtp_relay.Shared.Text.{Text, codes, text_eq, is_empty}
use cloudflare_smtp_relay.Edge.Secret.{authorized}
use cloudflare_smtp_relay.Edge.Values.{Runtime, Json}
use cloudflare_smtp_relay.Edge.Binding.{Attempt, done, thrown, BindingMessage, to_binding_message}

abbrev max_body_bytes : ℕ
max_body_bytes = 5 * 1024 * 1024

-- What the binding makes of a message: it resolves, with the id of the result if there is one, or
-- it rejects with an error that may have a code and a message.
pub data Delivery : Type 0 where
  sent : Option Text → Delivery
  rejects : Option Text → Option Text → Delivery

-- The variables of the Worker.
pub record Env : Type 0 where
  pub relay_secret : Option Text
  pub send : BindingMessage → Delivery

-- A request; `json` is what its body parses to, if it does.
pub record HttpRequest : Type 0 where
  pub method : Text
  pub authorization : Option Text
  pub content_length : Option Text
  pub json : Option Json

-- The two shapes of an answer: `{success: true, messageId}` and `{success: false, code, error}`.
pub data Body : Type 0 where
  delivered : Text → Body
  refused : Text → Text → Body

-- `json`, whose body is not yet encoded.
pub record Answer : Type 0 where
  pub status : ℕ
  pub body : Body

abbrev json : ℕ → Body → Answer
json status body = record { status = status; body = body }

-- `a || b` for a string that may be missing.
abbrev pub or_else : Option Text → Text → Text
or_else none t = t
or_else (some s) t = if is_empty s then t else s

unfoldable pub status_for_code : Text → ℕ
status_for_code code =
    if text_eq code (codes "E_RATE_LIMIT_EXCEEDED") || text_eq code (codes "E_DAILY_LIMIT_EXCEEDED")
    then 429
    else if text_eq code (codes "E_SENDER_NOT_VERIFIED")
        || (text_eq code (codes "E_SENDER_DOMAIN_NOT_AVAILABLE")
            || text_eq code (codes "E_RECIPIENT_NOT_ALLOWED"))
    then 403
    else 502

-- An answer before the binding is reached.
abbrev refuse : ℕ → Text → Text → Answer × Option BindingMessage
refuse status code error = (json status (refused code error), none)

-- What `fetch` answers once the binding is done.
unfoldable pub answer_of : Delivery → Answer
answer_of (sent id) = json 200 (delivered (elim id [ some t ↦ t | none ↦ [] ]))
answer_of (rejects code message) =
    let named = or_else code (codes "E_SEND_FAILED") in
    json (status_for_code named) (refused named (or_else message (codes "Send failed")))

-- `fetch`: the answer, and the message that was given to the binding, if any.
unfoldable pub fetch : Runtime → Env → HttpRequest → Answer × Option BindingMessage
fetch js env request =
    let secret = or_else env.relay_secret [] in
    if not (text_eq request.method (codes "POST"))
    then refuse 405 (codes "E_METHOD_NOT_ALLOWED") (codes "Use POST")
    else if is_empty secret
    then refuse 500 (codes "E_NOT_CONFIGURED") (codes "RELAY_SECRET is not set on the Worker")
    else if not (authorized request.authorization secret)
    then refuse 401 (codes "E_UNAUTHORIZED") (codes "Invalid credentials")
    else if js.exceeds (or_else request.content_length (codes "0")) max_body_bytes
    then refuse 413 (codes "E_TOO_BIG") (codes "Message exceeds 5 MiB")
    else elim request.json [
      | none ↦ refuse 400 (codes "E_BAD_JSON") (codes "Body is not valid JSON")
      | some payload ↦ elim (to_binding_message js payload) [
        | thrown error ↦ refuse 400 (codes "E_INVALID_REQUEST") error
        | done message ↦ (answer_of (env.send message), some message)
      ]
    ]

-- ===== src/Edge/Agreement.antt =====
-- The Worker adapter of the relay (internal/cloudflare/worker.go) reads the answers of the Worker
-- (worker/src/index.js).
use cloudflare_smtp_relay.Shared.{
  ℕ, ◌≡◌, refl, Bool, true, false, Option, none, some, [], inl, inr, arith, Bool-cases, not, ◌||◌,
  ◌∙◌,
}
use cloudflare_smtp_relay.Shared.Int.{pos}
use cloudflare_smtp_relay.Shared.Text.{Text, codes, text_eq, text_eq_iff}
use cloudflare_smtp_relay.Email.Errors.{ok}
use cloudflare_smtp_relay.Cloudflare.Classify.{is_retryable, find_bucket, code_buckets}
use cloudflare_smtp_relay.Cloudflare.Loop.{Parsed, accepted, rejected}
use cloudflare_smtp_relay.Cloudflare.Wire.{Wire, WorkerResponse}
use cloudflare_smtp_relay.Cloudflare.Worker.{
  parse_worker_response, is_worker_retryable, find_worker_bucket, worker_code_buckets,
}
use cloudflare_smtp_relay.Edge.{
  Env, HttpRequest, Delivery, sent, rejects, Body, delivered, refused, Answer, answer_of, fetch,
  or_else, status_for_code,
}
use cloudflare_smtp_relay.Edge.Values.{Runtime}
use cloudflare_smtp_relay.Edge.Binding.{BindingMessage}
use cloudflare_smtp_relay.Edge.Laws.{fetch-P}

-- What the relay decodes from a body: `encoding/json` leaves a missing field at its zero value.
abbrev pub decoded : Body → WorkerResponse
decoded (delivered id) = record { success = true; message_id = id; code = []; error = [] }
decoded (refused code error) = record {
  success = false;
  message_id = [];
  code = code;
  error = error;
}

-- The binding accepted the message.
abbrev pub resolves : Delivery → Bool
resolves (sent id) = true
resolves (rejects code error) = false

-- A code that says that the binding will never take the message.
abbrev pub is_final : Text → Bool
is_final code =
    text_eq code (codes "E_SENDER_NOT_VERIFIED")
    || (text_eq code (codes "E_SENDER_DOMAIN_NOT_AVAILABLE")
        || text_eq code (codes "E_RECIPIENT_NOT_ALLOWED"))

-- The binding rejected the message, and may take it another time.
abbrev pub is_passing : Delivery → Bool
is_passing (sent id) = false
is_passing (rejects code error) = not (is_final (or_else code (codes "E_SEND_FAILED")))

abbrev pub is_accepted : Parsed → Bool
is_accepted (accepted r) = true
is_accepted (rejected de retryable) = false

abbrev pub is_retried : Parsed → Bool
is_retried (accepted r) = false
is_retried (rejected de retryable) = retryable

bad_gateway-is_retried : is_retryable 502 (pos 0) ≡ true
unfolding is_retryable find_bucket code_buckets
bad_gateway-is_retried = refl

is_worker_retryable_lem :
    (code : Text) → is_worker_retryable (status_for_code code) code ≡ not (is_final code)
unfolding is_worker_retryable status_for_code worker_code_buckets find_worker_bucket text_eq codes
    is_retryable find_bucket code_buckets
is_worker_retryable_lem code = elim (Bool-cases (text_eq code (codes "E_RATE_LIMIT_EXCEEDED"))) [
  | inl rate ↦ rw ((text_eq_iff code (codes "E_RATE_LIMIT_EXCEEDED")).0 rate) refl
  | inr steady ↦ elim (Bool-cases (text_eq code (codes "E_DAILY_LIMIT_EXCEEDED"))) [
    | inl daily ↦ rw ((text_eq_iff code (codes "E_DAILY_LIMIT_EXCEEDED")).0 daily) refl
    | inr within ↦ ground (arith, bad_gateway-is_retried)
  ]
]

-- What the relay makes of an answer against what was given to the binding.
abbrev pub IsAgreed : Env → Parsed → Option BindingMessage → Type 0
IsAgreed env p none = is_accepted p ≡ false
IsAgreed env p (some m) =
    (is_accepted p ≡ resolves (env.send m)) × (is_retried p ≡ is_passing (env.send m))

module _ (w : Wire) (stringify : Body → Text)
    (reads : (b : Body) → w.decode_worker (stringify b) ≡ ok (decoded b)) where
  -- What the relay makes of an answer.
  abbrev pub verdict : Answer → ℕ → Parsed
  verdict a n = parse_worker_response w a.status (stringify a.body) n

  verdict-refused :
      (status n : ℕ) (code error : Text)
      → let p = verdict (record { status = status; body = refused code error }) n in
        (is_accepted p ≡ false) × (is_retried p ≡ is_worker_retryable status code)
  unfolding parse_worker_response
  verdict-refused status n code error =
      rw (reads (refused code error), parse_worker_response) (refl, refl)

  verdict-answer_of :
      (d : Delivery) (n : ℕ)
      → let p = verdict (answer_of d) n in
        (is_accepted p ≡ resolves d) × (is_retried p ≡ is_passing d)
  unfolding answer_of parse_worker_response
  verdict-answer_of (sent id) n =
      rw (reads (delivered (elim id [ some t ↦ t | none ↦ [] ])), parse_worker_response)
        (refl, refl)
  verdict-answer_of (rejects code error) n =
      let named = or_else code (codes "E_SEND_FAILED") in
      let (not_accepted, retried) =
        verdict-refused (status_for_code named) n named (or_else error (codes "Send failed")) in
      (not_accepted, retried ∙ is_worker_retryable_lem named)

  -- The relay takes an answer of the Worker for a success exactly if the binding was given a
  -- message and accepted it; and where the binding was given one, the relay tries again exactly if
  -- the binding rejected it, and not for its sender or a recipient. The relay is assumed to decode
  -- the bodies that the Worker encodes.
  pub fetch-IsAgreed :
      (js : Runtime) (env : Env) (request : HttpRequest) (n : ℕ)
      → IsAgreed env (verdict (fetch js env request).0 n) (fetch js env request).1
  fetch-IsAgreed js env request n =
      fetch-P (λ r. IsAgreed env (verdict r.0 n) r.1) js env request
        (λ status code error. (verdict-refused status n code error).0)
        (λ m known a. verdict-answer_of (env.send m) n)

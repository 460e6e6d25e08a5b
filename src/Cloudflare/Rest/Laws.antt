-- ===== src/Cloudflare/Rest/Laws.antt =====
-- Laws of the REST adapter (internal/cloudflare/rest.go).
use cloudflare_smtp_relay.Shared.{ℕ, ◌≡◌, refl, inl, inr, none, some, List, [], ◌∷◌, Bool-cases}
use cloudflare_smtp_relay.Shared.Int.{pos, pos_part}
use cloudflare_smtp_relay.Shared.Text.{Text, codes}
use cloudflare_smtp_relay.Email.Errors.{wrapped, ok, Fallible-cases}
use cloudflare_smtp_relay.Email.Message.{Message}
use cloudflare_smtp_relay.Cloudflare.Loop.{Outside, History, Outcome}
use cloudflare_smtp_relay.Cloudflare.Payload.{build_payload}
use cloudflare_smtp_relay.Cloudflare.Wire.{Wire, RestError}
use cloudflare_smtp_relay.Cloudflare.Contract.{
  IsVerdict, IsKept, transport-IsRejection, http-IsRejection, send_loop-IsKept,
}
use cloudflare_smtp_relay.Cloudflare.Rest.{
  Rest, rejection, parse_rest_response, json_post, build_request, endpoint, rest_send,
}

rejection-IsVerdict :
    (status n : ℕ) (errors : List RestError) → IsVerdict status n (rejection status n errors)
rejection-IsVerdict status n [] = http-IsRejection status (pos 0) [] n
rejection-IsVerdict status n (e ∷ errors) = http-IsRejection status e.code e.message n

module _ (w : Wire) where
  -- Whatever the response, it is judged consistently: a result has the status and the attempt, and
  -- a rejection is a well-formed reply that is retried exactly if it is temporary and not about the
  -- relay's credential.
  pub parse_rest_response-IsVerdict :
      (status : ℕ) (body : Text) (n : ℕ) → IsVerdict status n (parse_rest_response w status body n)
  unfolding parse_rest_response
  parse_rest_response-IsVerdict status body n = elim (Fallible-cases (w.decode_rest body)) [
    | inr (e, broken) ↦
        rw (broken, parse_rest_response)
          (transport-IsRejection (wrapped (codes "decode response: ") e []) n)
    | inl (resp, decoded) ↦ elim (Bool-cases resp.success) [
      | inl success ↦ rw (decoded, parse_rest_response) (rw success (refl, refl))
      | inr failure ↦
          rw (decoded, parse_rest_response) (rw failure (rejection-IsVerdict status n resp.errors))
    ]
  ]

  pub build_request-ok :
      (url token payload : Text)
      → w.bad_url url ≡ none
      → build_request w url token payload ≡ ok (json_post url token payload)
  unfolding build_request
  build_request-ok url token payload h = rw (h, build_request) refl

  -- Where the message can be encoded and the endpoint is a URL, Send of the REST adapter ends,
  -- with a result or with a delivery error whose reply is well formed, after at most one request
  -- more than the retries that are configured, and it says exactly how many requests it made.
  pub rest_send-IsKept :
      (o : Outside) (c : Rest) (msg : Message) (payload : Text)
      → w.marshal (build_payload msg) ≡ ok payload
      → w.bad_url (endpoint c) ≡ none
      → (out : Outcome) × (h : History) × (rest_send w o c msg ≡ some (out, h))
        × IsKept (pos_part c.max_retries) out h
  unfolding rest_send
  rest_send-IsKept o c msg payload encoded url =
      rw (encoded, rest_send)
        (send_loop-IsKept (parse_rest_response w) parse_rest_response-IsVerdict o
          (build_request w (endpoint c) c.api_token) payload (pos_part c.max_retries)
          (json_post (endpoint c) c.api_token payload)
          (build_request-ok (endpoint c) c.api_token payload url))

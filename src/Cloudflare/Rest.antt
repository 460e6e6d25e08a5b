-- ===== src/Cloudflare/Rest.antt =====
-- internal/cloudflare/rest.go: the adapter for Cloudflare's REST API. The seams `HTTPClient`, `Now`
-- and `Sleep` of the configuration are in the `Outside` of the loop.
pub mod Laws
pub mod Sleep
use cloudflare_smtp_relay.Shared.{ℕ, true, Option, none, some, List, [], ◌∷◌, ◌++◌, if◌then◌else◌}
use cloudflare_smtp_relay.Shared.Int.{ℤ, pos, pos_part, ltb_ℤ, leb_ℤ}
use cloudflare_smtp_relay.Shared.Text.{Text, codes, is_empty}
use cloudflare_smtp_relay.Email.Errors.{outside, wrapped, Fallible, ok, failed}
use cloudflare_smtp_relay.Email.Message.{Message}
use cloudflare_smtp_relay.Cloudflare.Classify.{classify_http, classify_transport, is_retryable}
use cloudflare_smtp_relay.Cloudflare.Loop.{
  Request, Outside, History, Parsed, accepted, rejected, Builder, Outcome, unsent, send_loop,
}
use cloudflare_smtp_relay.Cloudflare.Payload.{build_payload}
use cloudflare_smtp_relay.Cloudflare.Wire.{Wire, RestError}

pub record RestConfig : Type 0 where
  pub base_url : Text
  pub account_id : Text
  pub api_token : Text
  pub timeout : ℤ
  pub max_retries : ℤ

pub record Rest : Type 0 where
  pub base_url : Text
  pub account_id : Text
  pub api_token : Text
  pub timeout : ℤ
  pub max_retries : ℤ

-- 30 s
abbrev pub default_timeout : ℤ
default_timeout = pos 30_000_000_000

abbrev pub effective_timeout : ℤ → ℤ
effective_timeout timeout = if leb_ℤ timeout (pos 0) then default_timeout else timeout

unfoldable pub new_rest : RestConfig → Fallible Rest
new_rest cfg =
    if is_empty cfg.base_url
    then failed (outside (codes "cloudflare: RESTConfig.BaseURL must not be empty"))
    else if is_empty cfg.account_id
    then failed (outside (codes "cloudflare: RESTConfig.AccountID must not be empty"))
    else if is_empty cfg.api_token
    then failed (outside (codes "cloudflare: RESTConfig.APIToken must not be empty"))
    else if ltb_ℤ cfg.max_retries (pos 0)
    then failed (outside (codes "cloudflare: RESTConfig.MaxRetries must not be negative"))
    else ok (record {
      base_url = cfg.base_url;
      account_id = cfg.account_id;
      api_token = cfg.api_token;
      timeout = effective_timeout cfg.timeout;
      max_retries = cfg.max_retries;
    })

abbrev pub first_delivered : Option (List Text) → Text
first_delivered none = []
first_delivered (some []) = []
first_delivered (some (id ∷ ids)) = id

-- The failure of a response without success, by its first error.
abbrev pub rejection : ℕ → ℕ → List RestError → Parsed
rejection status attempts [] =
    rejected (classify_http status (pos 0) [] attempts) (is_retryable status (pos 0))
rejection status attempts (e ∷ errors) =
    rejected (classify_http status e.code e.message attempts) (is_retryable status e.code)

unfoldable pub parse_rest_response : Wire → ℕ → Text → ℕ → Parsed
parse_rest_response w status body attempts = elim (w.decode_rest body) [
  | failed e ↦
      rejected (classify_transport (wrapped (codes "decode response: ") e []) attempts) true
  | ok resp ↦
      if resp.success
      then accepted (record {
        provider_id = first_delivered resp.result;
        http_status = status;
        attempts = attempts;
      })
      else rejection status attempts resp.errors
]

abbrev pub json_post : Text → Text → Text → Request
json_post url token body = record {
  method = codes "POST";
  url = url;
  authorization = codes "Bearer " ++ token;
  content_type = codes "application/json";
  body = body;
}

-- The `requestBuilder` of both adapters, for their URL and token.
unfoldable pub build_request : Wire → Text → Text → Builder
build_request w url token body = elim (w.bad_url url) [
  | some e ↦ failed e
  | none ↦ ok (json_post url token body)
]

abbrev pub endpoint : Rest → Text
endpoint c = c.base_url ++ (codes "/accounts/" ++ (c.account_id ++ codes "/email/sending/send"))

-- `Send`. A negative number of retries lets the loop retry as often as 0 does.
unfoldable pub rest_send : Wire → Outside → Rest → Message → Option (Outcome × History)
rest_send w o c msg = elim (w.marshal (build_payload msg)) [
  | failed e ↦ some (unsent (classify_transport (wrapped (codes "encode request: ") e []) 0), [])
  | ok payload ↦
      send_loop o (build_request w (endpoint c) c.api_token) (parse_rest_response w) payload
        (pos_part c.max_retries)
]

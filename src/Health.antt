-- ===== src/Health.antt =====
-- internal/health/health.go: the endpoint and the probe. The HTTP client is `exchange`, and the JSON
-- decoder, which finds the field "status", is `decode`.
pub mod Server
use cloudflare_smtp_relay.Shared.{
  ℕ, ◌≡◌, refl, ◌↔◌, inl, inr, true, not, Option, none, some, List, [], ◌∷◌, ◌++◌, arith, ◌==◌,
  if◌then◌else◌, ==_iff, Bool-cases, Option-cases,
}
use cloudflare_smtp_relay.Shared.Text.{Text, codes, text_eq, text_eq_refl, text_eq_iff, show_ℕ}
use cloudflare_smtp_relay.Email.Errors.{
  Fault, outside, wrapped, Fallible, ok, failed, Fallible-cases,
}

pub record Answer : Type 0 where
  pub status : ℕ
  pub headers : List (Text × Text)
  pub body : Text

abbrev pub health_body : Text
health_body = codes "{\"status\":\"ok\"}"

-- What net/http writes for `http.Error`, and for a path that the multiplexer does not know.
abbrev error_answer : ℕ → List (Text × Text) → Text → Answer
error_answer status headers message = record {
  status = status;
  headers = headers ++ (codes "Content-Type", codes "text/plain; charset=utf-8") ∷ [];
  body = message ++ b'\n' ∷ [];
}

-- The handler for "/health" and the multiplexer around it, by a request's method and path.
unfoldable pub handler : Text → Text → Answer
handler method path =
    if not (text_eq path (codes "/health"))
    then error_answer 404 [] (codes "404 page not found")
    else if not (text_eq method (codes "GET"))
    then error_answer 405 ((codes "Allow", codes "GET") ∷ []) (codes "method not allowed")
    else record {
      status = 200;
      headers = (codes "Content-Type", codes "application/json") ∷ [];
      body = health_body;
    }

-- `bad_url` is what `NewRequestWithContext` says of a URL.
pub record Client : Type 0 where
  pub bad_url : Text → Option Fault
  pub exchange : Text → Text → Fallible Answer
  pub decode : Text → Fallible Text
  pub quote : Text → Text

abbrev check_status : Client → Text → Option Fault
check_status client status =
    if text_eq status (codes "ok")
    then none
    else some (outside (codes "health: unexpected status field " ++ client.quote status))

abbrev check_payload : Client → Fallible Text → Option Fault
check_payload client (failed e) = some (wrapped (codes "health: decode response: ") e [])
check_payload client (ok status) = check_status client status

abbrev check_answer : Client → Answer → Option Fault
check_answer client resp =
    if not (resp.status == 200)
    then some (outside (codes "health: unexpected status " ++ show_ℕ resp.status))
    else check_payload client (client.decode resp.body)

abbrev check_exchange : Client → Fallible Answer → Option Fault
check_exchange client (failed e) = some (wrapped (codes "health: request failed: ") e [])
check_exchange client (ok resp) = check_answer client resp

unfoldable pub check_health : Client → Text → Option Fault
check_health client url = elim (client.bad_url url) [
  | some e ↦ some (wrapped (codes "health: build request: ") e [])
  | none ↦ check_exchange client (client.exchange (codes "GET") url)
]

check_answer_iff :
    (client : Client) (resp : Answer)
    → (check_answer client resp ≡ none)
      ↔ ((resp.status ≡ 200) × (client.decode resp.body ≡ ok (codes "ok")))
check_answer_iff client resp = (
  λ h. elim (Bool-cases (resp.status == 200)) [
    | inr off ↦ absurd (cc (rw off at h))
    | inl good ↦ elim (Fallible-cases (client.decode resp.body)) [
      | inr (e, bad) ↦ absurd (cc (rw bad at (rw good at h)))
      | inl (status, decoded) ↦
          let same : text_eq status (codes "ok") ≡ true =
            ground (arith, rw decoded at (rw good at h)) in
          (
            (==_iff resp.status 200).0 good,
            rw ((text_eq_iff status (codes "ok")).0 same) at decoded,
          )
    ]
  ],
  λ h.
      rw ((==_iff resp.status 200).1 h.0)
        (rw (h.1, check_answer) (rw (text_eq_refl (codes "ok")) refl)),
)

-- The probe succeeds exactly if the URL makes a request that gets a response of status 200 whose
-- body decodes to the status "ok".
pub check_health-eq-none_iff :
    (client : Client) (url : Text)
    → (check_health client url ≡ none) ↔ (
        (client.bad_url url ≡ none)
        × ((resp : Answer) × (client.exchange (codes "GET") url ≡ ok resp)
            × (resp.status ≡ 200)
            × (client.decode resp.body ≡ ok (codes "ok"))))
unfolding check_health
check_health-eq-none_iff client url = (
  λ h. elim (Option-cases (client.bad_url url)) [
    | inr (e, bad) ↦ absurd (cc (rw (bad, check_health) at h))
    | inl good ↦ elim (Fallible-cases (client.exchange (codes "GET") url)) [
      | inr (e, lost) ↦ absurd (cc (rw lost at (rw (good, check_health) at h)))
      | inl (resp, got) ↦
          let (status, decoded) =
            (check_answer_iff client resp).0 (rw got at (rw (good, check_health) at h)) in
          (good, (resp, got, status, decoded))
    ]
  ],
  λ (good, (resp, got, status, decoded)).
      rw (good, check_health) (rw got ((check_answer_iff client resp).1 (status, decoded))),
)

-- Where the request reaches the handler by GET under some path, and the decoder reads the body
-- that the handler writes, the probe succeeds exactly for the path of the endpoint.
pub check_health-handler :
    (client : Client) (url path : Text)
    → client.bad_url url ≡ none
    → client.exchange (codes "GET") url ≡ ok (handler (codes "GET") path)
    → client.decode health_body ≡ ok (codes "ok")
    → (check_health client url ≡ none) ↔ (text_eq path (codes "/health") ≡ true)
unfolding check_health handler
check_health-handler client url path good reached decoded =
    elim (Bool-cases (text_eq path (codes "/health"))) [
      | inl there ↦ (
        λ _. there,
        λ _.
            rw (good, check_health)
              (rw (reached, there, text_eq_refl (codes "GET"), decoded, text_eq_refl (codes "ok"))
                refl),
      )
      | inr elsewhere ↦ (
        λ h. absurd (cc (rw (reached, elsewhere) at (rw (good, check_health) at h))),
        λ e. absurd (cc (e, elsewhere)),
      )
    ]

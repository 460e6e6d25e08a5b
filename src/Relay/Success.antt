-- ===== src/Relay/Success.antt =====
-- The provider's answers to an adapter (internal/cloudflare), independent of how it reads them: which
-- of them say that the message was sent.
use cloudflare_smtp_relay.Shared.{
  ℕ, zero, suc, ◌≡◌, refl, ap, sym, ◌⊎◌, inl, inr, Bool, true, false, ◌&&◌, Option, none, some,
  List, [], ◌∷◌, arith, leb, length, take, Bool-cases, Option-cases,
}
use cloudflare_smtp_relay.Shared.Int.{pos_part}
use cloudflare_smtp_relay.Shared.Text.{Text}
use cloudflare_smtp_relay.Email.Errors.{Fault, Fallible, ok, failed, Fallible-cases}
use cloudflare_smtp_relay.Email.Message.{Message}
use cloudflare_smtp_relay.Cloudflare.Loop.{
  Request, Response, Outside, History, requested, checked_ctx, drew, slept, Outcome, sent, unsent,
  Parser, read_and_drain_body, max_response_body_bytes,
}
use cloudflare_smtp_relay.Cloudflare.Loop.History.{count_requests}
use cloudflare_smtp_relay.Cloudflare.Loop.Once.{
  accepted_of, acceptance, AllRefused, IsOnce, send_loop-IsOnce,
}
use cloudflare_smtp_relay.Cloudflare.Loop.Requests.{AllMade, send_loop-AllMade}
use cloudflare_smtp_relay.Cloudflare.Payload.{build_payload}
use cloudflare_smtp_relay.Cloudflare.Wire.{Wire, RestError}
use cloudflare_smtp_relay.Cloudflare.Rest.{
  rejection, parse_rest_response, json_post, build_request, endpoint, rest_send,
}
use cloudflare_smtp_relay.Cloudflare.Rest.Laws.{build_request-ok}
use cloudflare_smtp_relay.Cloudflare.Worker.{parse_worker_response, worker_send}
use cloudflare_smtp_relay.Relay.{Adapter, rest, worker, adapter_send, adapter_url}

-- The field `success` of the JSON that a body is, for the adapter's shape of it.
abbrev pub success_in : Wire → Adapter → Text → Bool
success_in w (rest c) body = elim (w.decode_rest body) [ failed e ↦ false | ok resp ↦ resp.success ]
success_in w (worker c) body = elim (w.decode_worker body) [
  | failed e ↦ false
  | ok resp ↦ resp.success
]

-- The body arrives without an error, or as far as the limit.
abbrev pub arrives : Response → Bool
arrives r = elim r.body_err [ none ↦ true | some e ↦ leb max_response_body_bytes (length r.body) ]

-- There is an answer, it arrives, and what it has up to the limit says that the message was sent.
abbrev pub says_sent : Wire → Adapter → Fallible Response → Bool
says_sent w a (failed e) = false
says_sent w a (ok r) = arrives r && success_in w a (take max_response_body_bytes r.body)

-- The request of an adapter.
abbrev pub post_of : Adapter → Text → Request
post_of (rest c) payload = json_post (endpoint c) c.api_token payload
post_of (worker c) payload = json_post c.url c.secret payload

abbrev parser_of : Wire → Adapter → Parser
parser_of w (rest c) = parse_rest_response w
parser_of w (worker c) = parse_worker_response w

take_all : {A : Type 0} (n : ℕ) (xs : List A) → leb n (length xs) ≡ false → take n xs ≡ xs
take_all zero xs h = absurd (ground arith)
take_all (suc n) [] h = refl
take_all (suc n) (x ∷ xs) h = rw (take_all n xs (ground arith)) refl

abbrev is_given {ℓ} : {A : Type ℓ} → Option A → Bool
is_given none = false
is_given (some x) = true

accepted-rejection :
    (status n : ℕ) (errors : List RestError)
    → is_given (accepted_of (rejection status n errors)) ≡ false
accepted-rejection status n [] = refl
accepted-rejection status n (e ∷ errors) = refl

accepted-success_in :
    (w : Wire) (a : Adapter) (status : ℕ) (body : Text) (n : ℕ)
    → is_given (accepted_of (parser_of w a status body n)) ≡ success_in w a body
unfolding parse_rest_response parse_worker_response
accepted-success_in w (rest c) status body n = elim (Fallible-cases (w.decode_rest body)) [
  | inr (e, broken) ↦ rw (broken, parse_rest_response) (rw (broken, success_in) refl)
  | inl (resp, decoded) ↦ elim (Bool-cases resp.success) [
    | inl success ↦ rw (decoded, parse_rest_response) (rw (decoded, success_in) (rw success refl))
    | inr failure ↦
        rw (decoded, parse_rest_response)
          (rw (decoded, success_in) (rw failure (accepted-rejection status n resp.errors)))
  ]
]
accepted-success_in w (worker c) status body n = elim (Fallible-cases (w.decode_worker body)) [
  | inr (e, broken) ↦ rw (broken, parse_worker_response) (rw (broken, success_in) refl)
  | inl (resp, decoded) ↦ elim (Bool-cases resp.success) [
    | inl success ↦ rw (decoded, parse_worker_response) (rw (decoded, success_in) (rw success refl))
    | inr failure ↦ rw (decoded, parse_worker_response) (rw (decoded, success_in) (rw failure refl))
  ]
]

-- What the adapter reads of a body.
IsDrained : Response → Type 0
IsDrained r =
    ((read_and_drain_body r ≡ ok (take max_response_body_bytes r.body)) × (arrives r ≡ true))
    ⊎ ((e : Fault) × (read_and_drain_body r ≡ failed e) × (arrives r ≡ false))

read_and_drain_body-IsDrained : (r : Response) → IsDrained r
unfolding IsDrained read_and_drain_body
read_and_drain_body-IsDrained r = elim (Bool-cases (leb max_response_body_bytes (length r.body))) [
  | inl long ↦ elim (Option-cases r.body_err) [
    | inl whole ↦ inl (rw (long, read_and_drain_body) refl, rw (whole, arrives) refl)
    | inr (e, cut) ↦ inl (rw (long, read_and_drain_body) refl, rw (cut, arrives) long)
  ]
  | inr short ↦ elim (Option-cases r.body_err) [
    | inl whole ↦ inl (
      rw (short, read_and_drain_body)
          (rw whole (ap ok (sym (take_all max_response_body_bytes r.body short)))),
      rw (whole, arrives) refl,
    )
    | inr (e, cut) ↦ inr (e, rw (short, read_and_drain_body) (rw cut refl), rw (cut, arrives) short)
  ]
]

acceptance-says_sent :
    (w : Wire) (a : Adapter) (n : ℕ) (e : Fallible Response)
    → is_given (acceptance (parser_of w a) n e) ≡ says_sent w a e
unfolding IsDrained
acceptance-says_sent w a n (failed e) = refl
acceptance-says_sent w a n (ok r) = elim (read_and_drain_body-IsDrained r) [
  | inl (read, all) ↦
      rw (read, acceptance)
        (rw (all, says_sent)
          (accepted-success_in w a r.status (take max_response_body_bytes r.body) n))
  | inr (e, broken, cut) ↦ rw (broken, acceptance) (rw (cut, says_sent) refl)
]

module _ (w : Wire) (o : Outside) (a : Adapter) where
  -- No answer to a request of the history says that the message was sent.
  abbrev pub NoneSent : History → Type 0
  NoneSent [] = Unit
  NoneSent (requested req ∷ h) = (says_sent w a (o.exchange h req) ≡ false) × NoneSent h
  NoneSent (checked_ctx ∷ h) = NoneSent h
  NoneSent (drew ∷ h) = NoneSent h
  NoneSent (slept d ∷ h) = NoneSent h

  -- The answer to the last request, the adapter's with this payload, is the only one that says so; or,
  -- with an error, none does.
  abbrev pub IsSentOnce : Text → Outcome → History → Type 0
  IsSentOnce payload (sent r) h =
      (before : History) × (h ≡ requested (post_of a payload) ∷ before)
      × (says_sent w a (o.exchange before (post_of a payload)) ≡ true)
      × NoneSent before
  IsSentOnce payload (unsent de) h = NoneSent h

  AllRefused-NoneSent : (h : History) → AllRefused o (parser_of w a) h → NoneSent h
  AllRefused-NoneSent [] p = tt
  AllRefused-NoneSent (requested req ∷ h) p =
      let n = suc (count_requests h) in
      let refused = rw p.0 at (acceptance-says_sent w a n (o.exchange h req)) in
      (sym refused, AllRefused-NoneSent h p.1)
  AllRefused-NoneSent (checked_ctx ∷ h) p = AllRefused-NoneSent h p
  AllRefused-NoneSent (drew ∷ h) p = AllRefused-NoneSent h p
  AllRefused-NoneSent (slept d ∷ h) p = AllRefused-NoneSent h p

  IsOnce-IsSentOnce :
      (payload : Text) (out : Outcome) (h : History)
      → AllMade o (post_of a payload) h
      → IsOnce o (parser_of w a) out h
      → IsSentOnce payload out h
  IsOnce-IsSentOnce payload (sent r) h made (req, before, last, taken, refused) =
      let n = suc (count_requests before) in
      let same : req ≡ post_of a payload = (rw last at made).0 in
      let said = rw taken at (acceptance-says_sent w a n (o.exchange before req)) in
      (before, rw (← same) last, rw (← same) (sym said), AllRefused-NoneSent before refused)
  IsOnce-IsSentOnce payload (unsent de) h made refused = AllRefused-NoneSent h refused

-- Where the message can be encoded and the adapter's URL is one: the history of Send, with the
-- adapter's own requests alone, each made while the context lived, and what the answers say.
pub adapter_send-IsSentOnce :
    (w : Wire) (o : Outside) (a : Adapter) (msg : Message) (payload : Text) (out : Outcome)
    (h : History)
    → w.marshal (build_payload msg) ≡ ok payload
    → w.bad_url (adapter_url a) ≡ none
    → adapter_send w o a msg ≡ some (out, h)
    → AllMade o (post_of a payload) h × IsSentOnce w o a payload out h
unfolding adapter_send rest_send worker_send
adapter_send-IsSentOnce w o (rest c) msg payload out h encoded good e =
    let ran = rw (encoded, rest_send) at e in
    let build = build_request w (endpoint c) c.api_token in
    let built = build_request-ok w (endpoint c) c.api_token payload good in
    let made =
      send_loop-AllMade o (post_of (rest c) payload) build (parse_rest_response w) payload built
        (pos_part c.max_retries) out h ran in
    (
      made,
      IsOnce-IsSentOnce w o (rest c) payload out h made (
          send_loop-IsOnce o (parse_rest_response w) build payload (post_of (rest c) payload) built
            (pos_part c.max_retries) out h ran),
    )
adapter_send-IsSentOnce w o (worker c) msg payload out h encoded good e =
    let ran = rw (encoded, worker_send) at e in
    let build = build_request w c.url c.secret in
    let built = build_request-ok w c.url c.secret payload good in
    let made =
      send_loop-AllMade o (post_of (worker c) payload) build (parse_worker_response w) payload built
        (pos_part c.max_retries) out h ran in
    (
      made,
      IsOnce-IsSentOnce w o (worker c) payload out h made (
          send_loop-IsOnce o (parse_worker_response w) build payload (post_of (worker c) payload)
            built (pos_part c.max_retries) out h ran),
    )

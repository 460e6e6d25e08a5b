-- ===== src/Edge/Delivered.antt =====
-- `Send` of the Worker adapter (internal/cloudflare/worker.go), with the Worker
-- (worker/src/index.js) behind the client.
use cloudflare_smtp_relay.Shared.{
  ℕ, suc, ◌≡◌, refl, Bool, true, false, Option, none, some, [], ◌∷◌, leb, length, ◌∙◌, sym,
}
use cloudflare_smtp_relay.Shared.Int.{pos_part}
use cloudflare_smtp_relay.Shared.Text.{Text}
use cloudflare_smtp_relay.Email.Errors.{Fallible, ok, failed}
use cloudflare_smtp_relay.Email.Message.{Message}
use cloudflare_smtp_relay.Cloudflare.Loop.{
  Request, Response, Outside, History, requested, checked_ctx, drew, slept, Outcome, sent, unsent,
  Parsed, accepted, rejected, read_and_drain_body, max_response_body_bytes,
}
use cloudflare_smtp_relay.Cloudflare.Loop.History.{count_requests}
use cloudflare_smtp_relay.Cloudflare.Loop.Once.{
  accepted_of, acceptance, AllRefused, IsOnce, send_loop-IsOnce,
}
use cloudflare_smtp_relay.Cloudflare.Payload.{build_payload}
use cloudflare_smtp_relay.Cloudflare.Wire.{Wire}
use cloudflare_smtp_relay.Cloudflare.Rest.{json_post, build_request}
use cloudflare_smtp_relay.Cloudflare.Rest.Laws.{build_request-ok}
use cloudflare_smtp_relay.Cloudflare.Worker.{Worker, parse_worker_response, worker_send}
use cloudflare_smtp_relay.Cloudflare.Worker.Laws.{worker_send-IsKept}
use cloudflare_smtp_relay.Edge.{Env, HttpRequest, Body, Answer, fetch}
use cloudflare_smtp_relay.Edge.Values.{Runtime}
use cloudflare_smtp_relay.Edge.Binding.{BindingMessage}
use cloudflare_smtp_relay.Edge.Agreement.{
  decoded, resolves, is_accepted, IsAgreed, verdict, fetch-IsAgreed,
}

-- A binding was given a message and accepted it.
abbrev pub was_sent : Env → Option BindingMessage → Bool
was_sent env none = false
was_sent env (some m) = resolves (env.send m)

IsAgreed-was_sent :
    (env : Env) (p : Parsed) (given : Option BindingMessage)
    → IsAgreed env p given
    → is_accepted p ≡ was_sent env given
IsAgreed-was_sent env p none h = h
IsAgreed-was_sent env p (some m) h = h.0

-- The response carries the answer: its status, and the whole of its body.
pub record IsAnswer (stringify : Body → Text) (a : Answer) (r : Response) : Type 0 where
  pub status : r.status ≡ a.status
  pub body : r.body ≡ stringify a.body
  pub whole : r.body_err ≡ none
  pub small : leb max_response_body_bytes (length r.body) ≡ false

-- The request was answered, and the binding accepted its message.
abbrev pub delivered_by : Env → Option BindingMessage → Fallible Response → Bool
delivered_by env given (failed e) = false
delivered_by env given (ok r) = was_sent env given

-- What the Worker does with a request, in its environment at the time.
module _ (js : Runtime) (env : History → Env) (received : History → Request → HttpRequest) where
  abbrev pub served : History → Request → Answer × Option BindingMessage
  served h req = fetch js (env h) (received h req)

  -- Each response is the Worker's answer; there may be none, if the connection fails.
  abbrev pub IsServed : (Body → Text) → Outside → Type 0
  IsServed stringify o =
      (h : History) (req : Request) (r : Response)
      → o.exchange h req ≡ ok r
      → IsAnswer stringify (served h req).0 r

  abbrev pub delivers : Outside → History → Request → Bool
  delivers o h req = delivered_by (env h) (served h req).1 (o.exchange h req)

  abbrev pub NoneDelivered : Outside → History → Type 0
  NoneDelivered o [] = Unit
  NoneDelivered o (requested req ∷ h) = (delivers o h req ≡ false) × NoneDelivered o h
  NoneDelivered o (checked_ctx ∷ h) = NoneDelivered o h
  NoneDelivered o (drew ∷ h) = NoneDelivered o h
  NoneDelivered o (slept d ∷ h) = NoneDelivered o h

  -- The last request is the only one that was answered and whose message a binding accepted; or,
  -- with an error, there is none.
  abbrev pub IsDelivered : Outside → Outcome → History → Type 0
  IsDelivered o (sent r) h =
      (req : Request) × (before : History) × (h ≡ requested req ∷ before)
      × (delivers o before req ≡ true)
      × NoneDelivered o before
  IsDelivered o (unsent de) h = NoneDelivered o h

abbrev is_given {ℓ} : {A : Type ℓ} → Option A → Bool
is_given none = false
is_given (some x) = true

is_given-accepted_of : (p : Parsed) → is_given (accepted_of p) ≡ is_accepted p
is_given-accepted_of (accepted r) = refl
is_given-accepted_of (rejected de retryable) = refl

read_and_drain_body-answer :
    (stringify : Body → Text) (a : Answer) (r : Response)
    → IsAnswer stringify a r
    → read_and_drain_body r ≡ ok (stringify a.body)
unfolding read_and_drain_body
read_and_drain_body-answer stringify a r h =
    rw (h.small, read_and_drain_body) (rw h.whole (rw h.body refl))

module _ (w : Wire) (stringify : Body → Text)
    (reads : (b : Body) → w.decode_worker (stringify b) ≡ ok (decoded b)) where
  acceptance-delivered_by :
      (js : Runtime) (env : Env) (request : HttpRequest) (n : ℕ) (e : Fallible Response)
      → ((r : Response) → e ≡ ok r → IsAnswer stringify (fetch js env request).0 r)
      → is_given (acceptance (parse_worker_response w) n e)
        ≡ delivered_by env (fetch js env request).1 e
  acceptance-delivered_by js env request n (failed e) h = refl
  acceptance-delivered_by js env request n (ok r) h =
      let (a, given) = fetch js env request in
      let carried = h r refl in
      rw (read_and_drain_body-answer stringify a r carried, acceptance)
        (rw carried.status (
          is_given-accepted_of (verdict w stringify reads a n)
          ∙ IsAgreed-was_sent env (verdict w stringify reads a n) given
              (fetch-IsAgreed w stringify reads js env request n)))

  module _ (js : Runtime) (env : History → Env) (received : History → Request → HttpRequest)
      (o : Outside) (worker : IsServed js env received stringify o) where
    acceptance-delivers :
        (n : ℕ) (h : History) (req : Request)
        → is_given (acceptance (parse_worker_response w) n (o.exchange h req))
          ≡ delivers js env received o h req
    acceptance-delivers n h req =
        acceptance-delivered_by js (env h) (received h req) n (o.exchange h req) (worker h req)

    AllRefused-NoneDelivered :
        (h : History) → AllRefused o (parse_worker_response w) h → NoneDelivered js env received o h
    AllRefused-NoneDelivered [] p = tt
    AllRefused-NoneDelivered (requested req ∷ h) p =
        let none_given = rw p.0 at (acceptance-delivers (suc (count_requests h)) h req) in
        (sym none_given, AllRefused-NoneDelivered h p.1)
    AllRefused-NoneDelivered (checked_ctx ∷ h) p = AllRefused-NoneDelivered h p
    AllRefused-NoneDelivered (drew ∷ h) p = AllRefused-NoneDelivered h p
    AllRefused-NoneDelivered (slept d ∷ h) p = AllRefused-NoneDelivered h p

    IsOnce-IsDelivered :
        (out : Outcome) (h : History)
        → IsOnce o (parse_worker_response w) out h
        → IsDelivered js env received o out h
    IsOnce-IsDelivered (sent r) h (req, before, last, taken, refused) =
        let given = rw taken at (acceptance-delivers (suc (count_requests before)) before req) in
        (req, before, last, sym given, AllRefused-NoneDelivered before refused)
    IsOnce-IsDelivered (unsent de) h refused = AllRefused-NoneDelivered h refused

    -- With the Worker behind the client: Send of the Worker adapter ends. If it returns a result,
    -- then the binding accepted a message with the last request, and with no request before it
    -- that was answered; if it returns an error, then with none that was answered. The message can
    -- be encoded, the URL is one, and each response, where there is one, is the Worker's answer,
    -- whole and below the limit of the reader, which the relay decodes.
    pub worker_send-IsDelivered :
        (c : Worker) (msg : Message) (payload : Text)
        → w.marshal (build_payload msg) ≡ ok payload
        → w.bad_url c.url ≡ none
        → (out : Outcome) × (h : History) × (worker_send w o c msg ≡ some (out, h))
          × IsDelivered js env received o out h
    unfolding worker_send
    worker_send-IsDelivered c msg payload encoded url =
        let (out, h, ends, kept) = worker_send-IsKept w o c msg payload encoded url in
        (
          out,
          h,
          ends,
          IsOnce-IsDelivered out h (
              send_loop-IsOnce o (parse_worker_response w) (build_request w c.url c.secret) payload
                (json_post c.url c.secret payload) (build_request-ok w c.url c.secret payload url)
                (pos_part c.max_retries) out h (rw (encoded, worker_send) at ends)),
        )

-- ===== src/Edge/Reached.antt =====
-- From a message of the relay to the send_email binding: `Send` of the Worker adapter
-- (internal/cloudflare/worker.go), the retry loop, and the Worker (worker/src/index.js).
use cloudflare_smtp_relay.Shared.{
  ◌≡◌, refl, true, false, Option, none, some, inl, inr, ◌∷◌, Option-cases,
}
use cloudflare_smtp_relay.Shared.Int.{pos_part}
use cloudflare_smtp_relay.Shared.Text.{Text, codes, is_empty}
use cloudflare_smtp_relay.Email.Errors.{Fallible, ok, failed}
use cloudflare_smtp_relay.Email.Message.{Message}
use cloudflare_smtp_relay.Cloudflare.Loop.{
  Request, Response, Outside, History, requested, Outcome, sent, unsent,
}
use cloudflare_smtp_relay.Cloudflare.Loop.Requests.{AllMade, send_loop-AllMade}
use cloudflare_smtp_relay.Cloudflare.Payload.{build_payload}
use cloudflare_smtp_relay.Cloudflare.Wire.{Wire}
use cloudflare_smtp_relay.Cloudflare.Rest.{json_post, build_request}
use cloudflare_smtp_relay.Cloudflare.Rest.Laws.{build_request-ok}
use cloudflare_smtp_relay.Cloudflare.Worker.{Worker, parse_worker_response, worker_send}
use cloudflare_smtp_relay.Edge.{Env, HttpRequest, Body, Answer, fetch, or_else, max_body_bytes}
use cloudflare_smtp_relay.Edge.Values.{Runtime}
use cloudflare_smtp_relay.Edge.Binding.{BindingMessage}
use cloudflare_smtp_relay.Edge.Agreement.{decoded, resolves}
use cloudflare_smtp_relay.Edge.Relayed.{relayed_json, complaint, binding_of, IsAddressed}
use cloudflare_smtp_relay.Edge.Exchange.{seen, handled, fetch-relayed}
use cloudflare_smtp_relay.Edge.Delivered.{
  delivered_by, IsServed, NoneDelivered, IsDelivered, worker_send-IsDelivered,
}

-- The message lacks nothing that the Worker asks for, and the binding accepted what says the same.
abbrev pub IsTaken : Env → Message → Type 0
IsTaken env m = (complaint m ≡ none) × (resolves (env.send (binding_of m)) ≡ true)

handled-IsTaken :
    (env : Env) (m : Message) (x : Answer × Option BindingMessage) (e : Fallible Response)
    → x ≡ handled env m
    → delivered_by env x.1 e ≡ true
    → IsTaken env m
handled-IsTaken env m x (failed e) same d = absurd (cc d)
handled-IsTaken env m x (ok r) same d = elim (Option-cases (complaint m)) [
  | inr (why, bad) ↦
      let unsent_one : (handled env m).1 ≡ none = rw (bad, handled) refl in
      absurd (cc (rw (same, unsent_one) at d))
  | inl fine ↦
      let sent_one : (handled env m).1 ≡ some (binding_of m) = rw (fine, handled) refl in
      (fine, rw (same, sent_one) at d)
]

module _ (w : Wire) (stringify : Body → Text)
    (reads : (b : Body) → w.decode_worker (stringify b) ≡ ok (decoded b)) (js : Runtime)
    (env : History → Env) (received : History → Request → HttpRequest) (o : Outside)
    (worker : IsServed js env received stringify o) (c : Worker) (m : Message)
    (payload size : Text) where
  -- The request of the adapter.
  abbrev pub post : Request
  post = json_post c.url c.secret payload

  -- The last request, made while the context lived, is the one with which the binding took the
  -- message; or, with an error, no request that was answered is one.
  abbrev pub IsReached : Outcome → History → Type 0
  IsReached (sent r) h =
      (before : History) × (h ≡ requested post ∷ before)
      × IsTaken (env before) m
      × NoneDelivered js env received o before
  IsReached (unsent de) h = NoneDelivered js env received o h

  delivered-IsReached :
      (out : Outcome) (h : History)
      → ((before : History) → fetch js (env before) (received before post) ≡ handled (env before) m)
      → AllMade o post h
      → IsDelivered js env received o out h
      → IsReached out h
  delivered-IsReached (sent r) h served made (req, before, last, taken, refused) =
      let same : req ≡ post = (rw last at made).0 in
      (
        before,
        rw (← same) last,
        handled-IsTaken (env before) m (fetch js (env before) (received before post))
            (o.exchange before post) (served before) (rw same at taken),
        refused,
      )
  delivered-IsReached (unsent de) h served made refused = refused

  -- With the Worker behind the client: Send of the Worker adapter ends. If it returns a result,
  -- then the message has a sender, a recipient, a subject and a body, the binding accepted the
  -- message that says the same, field by field, with the last request, and it accepted none with a
  -- request before that was answered; if it returns an error, then with none that was answered.
  -- The message can be encoded, the URL is one, both sides have the same secret, which is not
  -- empty, the request reaches the Worker as it was made and is not too big, each recipient has an
  -- address, and each response, where there is one, is the Worker's answer, whole and below the
  -- limit of the reader, which the relay decodes.
  pub worker_send-IsReached :
      w.marshal (build_payload m) ≡ ok payload
      → w.bad_url c.url ≡ none
      → ((h : History) → (env h).relay_secret ≡ some c.secret)
      → is_empty c.secret ≡ false
      → js.exceeds (or_else (some size) (codes "0")) max_body_bytes ≡ false
      → ((h : History) → received h post ≡ seen post size (relayed_json m))
      → IsAddressed m.to
      → IsAddressed m.cc
      → IsAddressed m.bcc
      → (out : Outcome) × (h : History) × (worker_send w o c m ≡ some (out, h)) × IsReached out h
  unfolding worker_send
  worker_send-IsReached encoded url shared filled small arrives ht hc hb =
      let (out, h, ends, is_delivered) =
        worker_send-IsDelivered w stringify reads js env received o worker c m payload encoded
          url in
      (
        out,
        h,
        ends,
        delivered-IsReached out h
            (λ before. rw (arrives before) (
              fetch-relayed js (env before) c.url c.secret payload size m (shared before) filled
                small ht hc hb))
            (send_loop-AllMade o post (build_request w c.url c.secret) (parse_worker_response w)
              payload (build_request-ok w c.url c.secret payload url) (pos_part c.max_retries) out h
              (rw (encoded, worker_send) at ends))
            is_delivered,
      )

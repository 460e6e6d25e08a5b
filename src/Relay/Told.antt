-- ===== src/Relay/Told.antt =====
-- Laws of the SMTP session with an adapter of internal/cloudflare behind it.
use cloudflare_smtp_relay.Shared.{◌+◌, ◌≤◌, ◌≡◌, refl, ◌∙◌, none, some}
use cloudflare_smtp_relay.Shared.Int.{pos_part}
use cloudflare_smtp_relay.Shared.Text.{Text}
use cloudflare_smtp_relay.Email.Errors.{ok, delivery, as_delivery_error}
use cloudflare_smtp_relay.Email.Message.{Message}
use cloudflare_smtp_relay.Cloudflare.Classify.Laws.{IsReply}
use cloudflare_smtp_relay.Cloudflare.Contract.{IsKept}
use cloudflare_smtp_relay.Cloudflare.Loop.{Outside, Outcome, sent, unsent, History}
use cloudflare_smtp_relay.Cloudflare.Loop.History.{attempts_of, count_requests}
use cloudflare_smtp_relay.Cloudflare.Loop.Replies.{OfOutcome}
use cloudflare_smtp_relay.Cloudflare.Payload.{build_payload}
use cloudflare_smtp_relay.Cloudflare.Wire.{Wire}
use cloudflare_smtp_relay.Cloudflare.Rest.Laws.{rest_send-IsKept}
use cloudflare_smtp_relay.Cloudflare.Worker.Laws.{worker_send-IsKept}
use cloudflare_smtp_relay.Smtp.Session.{Library, Session}
use cloudflare_smtp_relay.Smtp.Session.Data.{
  Sending, delivered, undelivered, Incoming, report_of, refused, handle_data, with_message,
}
use cloudflare_smtp_relay.Smtp.Session.Outcome.{IsTold, OfSending, handle_data-IsTold, handed-parse}
use cloudflare_smtp_relay.Relay.{Adapter, rest, worker, adapter_send, adapter_url}
use cloudflare_smtp_relay.Relay.Start.{retries_of}

-- What the session gets of an adapter's outcome.
abbrev pub sending_of : Outcome → Sending
sending_of (sent r) = delivered (some r)
sending_of (unsent de) = undelivered (delivery de)

sending_of-OfSending : (out : Outcome) → OfOutcome IsReply out → OfSending (sending_of out)
unfolding as_delivery_error
sending_of-OfSending (sent r) good = tt
sending_of-OfSending (unsent de) good = good

attempts-report_of : (out : Outcome) → (report_of (sending_of out)).attempts ≡ attempts_of out
unfolding report_of refused as_delivery_error
attempts-report_of (sent r) = refl
attempts-report_of (unsent de) = refl

-- Either adapter ends with an outcome that keeps the contract of a sender.
pub adapter_send-IsKept :
    (w : Wire) (o : Outside) (a : Adapter) (msg : Message) (payload : Text)
    → w.marshal (build_payload msg) ≡ ok payload
    → w.bad_url (adapter_url a) ≡ none
    → (out : Outcome) × (h : History) × (adapter_send w o a msg ≡ some (out, h))
      × IsKept (pos_part (retries_of a)) out h
unfolding adapter_send
adapter_send-IsKept w o (rest c) msg payload encoded good =
    rest_send-IsKept w o c msg payload encoded good
adapter_send-IsKept w o (worker c) msg payload encoded good =
    worker_send-IsKept w o c msg payload encoded good

module _ (w : Wire) (o : Outside) (a : Adapter) where
  -- The session's sender is the adapter.
  abbrev pub IsAdapter : Incoming → Type 0
  IsAdapter x =
      (msg : Message) (out : Outcome) (h : History)
      → adapter_send w o a msg ≡ some (out, h)
      → x.send msg ≡ sending_of out

  module _ (lib : Library) (s : Session) (x : Incoming) (encode : Message → Text)
      (encodes : (msg : Message) → w.marshal (build_payload msg) ≡ ok (encode msg))
      (good : w.bad_url (adapter_url a) ≡ none) (adapted : IsAdapter x) where
    sends-OfSending : (msg : Message) → OfSending (x.send msg)
    sends-OfSending msg =
        let (out, h, sends, kept) = adapter_send-IsKept w o a msg (encode msg) (encodes msg) good in
        rw (adapted msg out h sends) (sending_of-OfSending out kept.reply)

    -- With either adapter behind it, a DATA command tells the client what it logs on every branch:
    -- success as "sent", a temporary error as "deferred", a permanent one as "rejected". The
    -- adapter's URL and the encoding of messages are assumed to work.
    pub relayed-IsTold : IsTold (handle_data lib s x).delivery.result (handle_data lib s x).returned
    relayed-IsTold = handle_data-IsTold lib s x sends-OfSending

    -- If a DATA command hands a message to the adapter, the adapter ends, and the number of
    -- attempts that is logged is the number of requests that it made, which is at most one more
    -- than the retries that are configured. The adapter's URL and the encoding of messages are
    -- assumed to work.
    pub relayed-attempts :
        (msg : Message)
        → (handle_data lib s x).handed ≡ some msg
        → (out : Outcome) × (h : History) × (adapter_send w o a msg ≡ some (out, h))
          × ((handle_data lib s x).delivery.attempts ≡ count_requests h)
          × (count_requests h ≤ pos_part (retries_of a) + 1)
    unfolding with_message
    relayed-attempts msg handed =
        let (raw, p, read, parsed, named, whole) = handed-parse lib s x handed in
        let (out, h, sends, kept) = adapter_send-IsKept w o a msg (encode msg) (encodes msg) good in
        (
          out,
          h,
          sends,
          rw (whole, named, adapted msg out h sends)
              (attempts-report_of out ∙ kept.bounded.counted),
          kept.bounded.bounded,
        )

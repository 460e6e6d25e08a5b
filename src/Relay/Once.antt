-- ===== src/Relay/Once.antt =====
-- Laws of the SMTP session with an adapter of internal/cloudflare behind it: what the client is told,
-- against what the provider's answers say.
use cloudflare_smtp_relay.Shared.{◌≡◌, true, refl, ◌⊎◌, inl, inr, Option, none, some, ◌∷◌}
use cloudflare_smtp_relay.Shared.Text.{Text}
use cloudflare_smtp_relay.Email.Errors.{ok, as_delivery_error}
use cloudflare_smtp_relay.Email.Message.{Message}
use cloudflare_smtp_relay.Cloudflare.Loop.{Outside, Outcome, sent, unsent, History, requested}
use cloudflare_smtp_relay.Cloudflare.Loop.Requests.{AllMade}
use cloudflare_smtp_relay.Cloudflare.Payload.{build_payload}
use cloudflare_smtp_relay.Cloudflare.Wire.{Wire}
use cloudflare_smtp_relay.Smtp.Session.{Library, Refusal, Session}
use cloudflare_smtp_relay.Smtp.Session.Data.{
  Incoming, report_of, refused, handle_data, with_message,
}
use cloudflare_smtp_relay.Smtp.Session.Outcome.{handed-parse}
use cloudflare_smtp_relay.Relay.{Adapter, adapter_send, adapter_url}
use cloudflare_smtp_relay.Relay.Told.{sending_of, IsAdapter, adapter_send-IsKept}
use cloudflare_smtp_relay.Relay.Success.{
  says_sent, post_of, NoneSent, IsSentOnce, adapter_send-IsSentOnce,
}

-- The client is told of success, and the answer to the last request says that the message was sent,
-- and none before it; or the client is told of an error, and no answer says so.
abbrev pub IsTruthful : Wire → Outside → Adapter → Text → History → Option Refusal → Type 0
IsTruthful w o a payload h returned =
    ((returned ≡ none)
      × (before : History) × (h ≡ requested (post_of a payload) ∷ before)
      × (says_sent w a (o.exchange before (post_of a payload)) ≡ true)
      × NoneSent w o a before)
    ⊎ ((e : Refusal) × (returned ≡ some e) × NoneSent w o a h)

outcome-IsTruthful :
    (w : Wire) (o : Outside) (a : Adapter) (payload : Text) (out : Outcome) (h : History)
    → IsSentOnce w o a payload out h
    → IsTruthful w o a payload h (report_of (sending_of out)).returned
unfolding report_of refused as_delivery_error
outcome-IsTruthful w o a payload (sent r) h once =
    let (before, last, said, none_before) = once in inl (refl, before, last, said, none_before)
outcome-IsTruthful w o a payload (unsent de) h once = inr (_, refl, once)

-- With either adapter behind a DATA command that hands a message over: each request is the
-- adapter's, with this message, made right after the context was seen to live. If the client is
-- told of success, then the answer to the last request says that the message was sent, and no
-- answer before it does; if the client is told of an error, then no answer does. So the relay
-- never makes another request once it has an answer that says so. A request whose answer is lost
-- or cannot be read may still have been accepted. An answer says so if its body arrives, without
-- an error or as far as the limit of the reader, and the JSON there has a success that is true.
-- The URL of the adapter and the encoding of messages are assumed to work.
pub relayed-IsTruthful :
    (w : Wire) (o : Outside) (a : Adapter) (lib : Library) (s : Session) (x : Incoming)
    (encode : Message → Text) (msg : Message)
    → ((m : Message) → w.marshal (build_payload m) ≡ ok (encode m))
    → w.bad_url (adapter_url a) ≡ none
    → IsAdapter w o a x
    → (handle_data lib s x).handed ≡ some msg
    → (out : Outcome) × (h : History) × (adapter_send w o a msg ≡ some (out, h))
      × AllMade o (post_of a (encode msg)) h
      × IsTruthful w o a (encode msg) h (handle_data lib s x).returned
unfolding with_message
relayed-IsTruthful w o a lib s x encode msg encodes good adapted handed =
    let (raw, p, read, parsed, named, whole) = handed-parse lib s x handed in
    let (out, h, sends, kept) = adapter_send-IsKept w o a msg (encode msg) (encodes msg) good in
    let (made, once) =
      adapter_send-IsSentOnce w o a msg (encode msg) out h (encodes msg) good sends in
    (
      out,
      h,
      sends,
      made,
      rw (whole, named, adapted msg out h sends) (outcome-IsTruthful w o a (encode msg) out h once),
    )

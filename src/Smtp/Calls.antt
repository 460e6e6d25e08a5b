-- ===== src/Smtp/Calls.antt =====
-- The life of a session: the calls that go-smtp makes of it, in any order.
pub mod Laws
pub mod Fresh
use cloudflare_smtp_relay.Shared.{
  Bool, true, false, not, ◌&&◌, ◌||◌, Option, none, some, List, [], ◌∷◌, ◌++◌,
}
use cloudflare_smtp_relay.Shared.Text.{Text}
use cloudflare_smtp_relay.Email.Message.{Message}
use cloudflare_smtp_relay.Smtp.Session.{
  Library, Settings, Session, authenticate, mail, rcpt, reset, logout,
}
use cloudflare_smtp_relay.Smtp.Session.Data.{Incoming, handle_data}

-- `authenticates` is a call of the session's closure by the server of a mechanism.
pub data Call : Type 0 where
  authenticates : Text → Text → Call
  mails : Text → Call
  rcpts : Text → Call
  resets : Call
  logs_out : Call
  reads_data : Incoming → Call

-- The session after a call, whether the call succeeded, and the message that it gave to the sender.
pub record Turn : Type 0 where
  pub after : Session
  pub succeeded : Bool
  pub handed : Option Message

abbrev pub succeeds_with {ℓ} : {A : Type ℓ} → Option A → Bool
succeeds_with none = true
succeeds_with (some e) = false

abbrev turn : {E : Type 0} → Option E × Session → Turn
turn (e, s) = record { after = s; succeeded = succeeds_with e; handed = none }

abbrev quiet : Session → Turn
quiet s = record { after = s; succeeded = true; handed = none }

unfoldable pub perform : Library → Settings → Session → Call → Turn
perform lib opts s (authenticates username password) =
    turn (authenticate lib opts s username password)
perform lib opts s (mails from) = turn (mail lib opts s from)
perform lib opts s (rcpts to) = quiet (rcpt s to)
perform lib opts s resets = quiet (reset s)
perform lib opts s logs_out = quiet (logout s)
perform lib opts s (reads_data x) =
    let handled = handle_data lib s x in
    record { after = s; succeeded = succeeds_with handled.returned; handed = handled.handed }

-- A message that the sender got, and the session that gave it.
pub record Handover : Type 0 where
  pub by : Session
  pub message : Message

abbrev pub handover : Session → Option Message → List Handover
handover s none = []
handover s (some m) = record { by = s; message = m } ∷ []

-- The session at the end of a list of calls, and the messages that the sender got.
unfoldable pub perform_all : Library → Settings → Session → List Call → Session × List Handover
unfolding perform
perform_all lib opts s [] = (s, [])
perform_all lib opts s (c ∷ calls) =
    let t = perform lib opts s c in
    let (end, later) = perform_all lib opts t.after calls in (end, handover s t.handed ++ later)

-- Whether a transaction has begun: MAIL opens it where it succeeds, RSET and the end close it.
unfoldable pub stays_open : Bool → Call → Bool → Bool
stays_open begun (mails from) succeeded = begun || succeeded
stays_open begun resets succeeded = false
stays_open begun logs_out succeeded = false
stays_open begun _ succeeded = begun

abbrev pub is_data : Call → Bool
is_data (reads_data x) = true
is_data _ = false

-- What go-smtp documents of the order of its calls, and all that is relied on here: it takes DATA
-- only in an open transaction.
unfoldable pub in_order : Library → Settings → Bool → Session → List Call → Bool
unfolding perform stays_open
in_order lib opts begun s [] = true
in_order lib opts begun s (c ∷ calls) =
    let t = perform lib opts s c in
    let later = in_order lib opts (stays_open begun c t.succeeded) t.after calls in
    (not (is_data c) || begun) && later

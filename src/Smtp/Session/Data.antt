-- ===== src/Smtp/Session/Data.antt =====
-- internal/smtpserver/session.go: the method `Data`. What happens during one DATA command is the
-- record `Incoming`.
use cloudflare_smtp_relay.Shared.{ℕ, Option, none, some, [], if◌then◌else◌}
use cloudflare_smtp_relay.Shared.Int.{ℤ, saturate64, pos, ◌-ℤ◌}
use cloudflare_smtp_relay.Shared.Text.{Text, codes}
use cloudflare_smtp_relay.Email.Errors.{
  Fault, Fallible, ok, failed, Error, plain, is_data_too_large, as_delivery_error, DeliveryError,
}
use cloudflare_smtp_relay.Email.Message.{Message, Delivered, all_recipients}
use cloudflare_smtp_relay.Email.Parse.{parse}
use cloudflare_smtp_relay.Logging.Delivery.{Delivery, Logged, log_delivery}
use cloudflare_smtp_relay.Smtp.Session.{Library, Refusal, smtp, other, status, Session}

-- What `Sender.Send` returns: a result, which may be nil, or an error.
pub data Sending : Type 0 where
  delivered : Option Delivered → Sending
  undelivered : Error → Sending

-- The outside of one DATA command: what `io.ReadAll` gives, the two readings of the clock, the
-- time that `Parse` reads, the new identifier, and the sender.
pub record Incoming : Type 0 where
  pub body : Fallible Text
  pub start : ℤ
  pub finish : ℤ
  pub now : ℤ
  pub new_id : Text
  pub send : Message → Sending

-- The variables of `Data` that its deferred function logs, and what it returns.
pub record Report : Type 0 where
  pub result : Text
  pub http_status : ℕ
  pub provider_code : ℤ
  pub attempts : ℕ
  pub err : Option Error
  pub returned : Option Refusal

unfoldable pub unread : Fault → Report
unread err = record {
  result = if is_data_too_large err then codes "rejected" else codes "deferred";
  http_status = 0;
  provider_code = pos 0;
  attempts = 0;
  err = some (plain err);
  returned =
      if is_data_too_large err
      then some (other err)
      else some (
          smtp (record {
            code = 451;
            enhanced_code = status 4 3 0;
            message = codes "error reading message";
          }));
}

unfoldable pub unparsed : Fault → Report
unparsed err = record {
  result = codes "rejected";
  http_status = 0;
  provider_code = pos 0;
  attempts = 0;
  err = some (plain err);
  returned = some (
      smtp (record {
        code = 550;
        enhanced_code = status 5 6 0;
        message = codes "message could not be parsed";
      }));
}

unfoldable pub refused : Error → Option DeliveryError → Report
refused err (some de) = record {
  result = if de.temporary then codes "deferred" else codes "rejected";
  http_status = de.http_status;
  provider_code = de.provider_code;
  attempts = de.attempts;
  err = some err;
  returned = some (
      smtp (record { code = de.smtp_code; enhanced_code = de.enhanced_code; message = de.reason }));
}
refused err none = record {
  result = codes "deferred";
  http_status = 0;
  provider_code = pos 0;
  attempts = 0;
  err = some err;
  returned = some (
      smtp (record { code = 451; enhanced_code = status 4 0 0; message = codes "internal error" }));
}

unfoldable pub report_of : Sending → Report
unfolding refused
report_of (undelivered err) = refused err (as_delivery_error err)
report_of (delivered res) = record {
  result = codes "sent";
  http_status = elim res [ none ↦ 0 | some r ↦ r.http_status ];
  provider_code = pos 0;
  attempts = elim res [ none ↦ 0 | some r ↦ r.attempts ];
  err = none;
  returned = none;
}

-- `msg.ID = s.opts.NewID()`
abbrev pub with_id : Text → Message → Message
with_id new_id m = record {
  id = new_id;
  rfc_message_id = m.rfc_message_id;
  from = m.from;
  to = m.to;
  cc = m.cc;
  bcc = m.bcc;
  reply_to = m.reply_to;
  subject = m.subject;
  text = m.text;
  html = m.html;
  headers = m.headers;
  size = m.size;
  received_at = m.received_at;
}

-- What one DATA command does: the error for the client, the record of the deferred function, and
-- the message that was handed to the sender. The session stays as it is.
pub record Handled : Type 0 where
  pub returned : Option Refusal
  pub delivery : Delivery
  pub logged : Logged
  pub handed : Option Message

-- The deferred function, before the message has been parsed and after.
abbrev pub logged_as : Delivery → Option Refusal → Option Message → Handled
logged_as d returned handed = record {
  returned = returned;
  delivery = d;
  logged = log_delivery d;
  handed = handed;
}

unfoldable pub without_message : Incoming → Report → Handled
without_message x r =
    logged_as
      (record {
        message_id = [];
        rfc_message_id = [];
        from = [];
        to = [];
        subject = [];
        result = r.result;
        duration = saturate64 (x.finish -ℤ x.start);
        http_status = r.http_status;
        provider_code = r.provider_code;
        attempts = r.attempts;
        err = r.err;
      })
      r.returned none

unfoldable pub with_message : Incoming → Message → Report → Handled
with_message x msg r =
    logged_as
      (record {
        message_id = msg.id;
        rfc_message_id = msg.rfc_message_id;
        from = msg.from.address;
        to = all_recipients msg;
        subject = msg.subject;
        result = r.result;
        duration = saturate64 (x.finish -ℤ x.start);
        http_status = r.http_status;
        provider_code = r.provider_code;
        attempts = r.attempts;
        err = r.err;
      })
      r.returned (some msg)

unfoldable pub handle_data : Library → Session → Incoming → Handled
unfolding without_message with_message report_of unread unparsed
handle_data lib s x = elim x.body [
  | failed err ↦ without_message x (unread err)
  | ok raw ↦ elim (parse lib.unicode lib.create_reader x.now raw s.from s.recipients) [
    | failed perr ↦ without_message x (unparsed perr)
    | ok m ↦ let msg = with_id x.new_id m in with_message x msg (report_of (x.send msg))
  ]
]

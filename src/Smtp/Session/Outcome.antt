-- ===== src/Smtp/Session/Outcome.antt =====
-- Laws of `Data` (internal/smtpserver/session.go): what the client, the log and the sender get.
use cloudflare_smtp_relay.Shared.{
  ℕ, ◌/◌, ◌≡◌, refl, ◌⊎◌, inl, inr, true, Option, none, some, arith, Bool-cases,
}
use cloudflare_smtp_relay.Shared.Text.{Text, codes}
use cloudflare_smtp_relay.Email.Errors.{
  Fault, ok, Fallible-cases, Error, is_data_too_large, as_delivery_error, DeliveryError,
}
use cloudflare_smtp_relay.Email.Message.{Message}
use cloudflare_smtp_relay.Email.Parse.{parse}
use cloudflare_smtp_relay.Cloudflare.Classify.Laws.{IsReply}
use cloudflare_smtp_relay.Smtp.Session.{Library, SmtpError, Refusal, smtp, other, Session}
use cloudflare_smtp_relay.Smtp.Session.Data.{
  Sending, delivered, undelivered, Incoming, unread, unparsed, refused, report_of, with_id,
  without_message, with_message, handle_data,
}

-- The client gets an SMTP error of the class, by its code and by its status.
pub record IsAnswered (class : ℕ) (returned : Option Refusal) : Type 0 where
  pub error : SmtpError
  pub answered : returned ≡ some (smtp error)
  pub code : error.code / 100 ≡ class
  pub enhanced : error.enhanced_code.class ≡ class

-- The logged result agrees with what the client is told: success is "sent", a temporary error is
-- "deferred", and a permanent one, go-smtp's own for too much data included, is "rejected".
abbrev pub IsTold : Text → Option Refusal → Type 0
IsTold result returned =
    ((result ≡ codes "sent") × (returned ≡ none))
    ⊎ ((result ≡ codes "deferred") × IsAnswered 4 returned)
    ⊎ ((result ≡ codes "rejected")
        × (IsAnswered 5 returned
            ⊎ ((f : Fault) × (returned ≡ some (other f)) × (is_data_too_large f ≡ true))))

abbrev OfFound : Option DeliveryError → Type 0
OfFound none = Unit
OfFound (some de) = IsReply de

-- A delivery error that a sender returns has a well-formed reply.
abbrev pub OfSending : Sending → Type 0
OfSending (delivered res) = Unit
OfSending (undelivered err) = OfFound (as_delivery_error err)

unread-IsTold : (e : Fault) → IsTold (unread e).result (unread e).returned
unfolding unread
unread-IsTold e = elim (Bool-cases (is_data_too_large e)) [
  | inl large ↦ rw (large, unread) (inr (inr (refl, inr (e, refl, large))))
  | inr read ↦
      rw (read, unread)
        (inr (inl (refl, record { error = _; answered = refl; code = refl; enhanced = refl })))
]

refused-IsTold :
    (e : Error) (found : Option DeliveryError)
    → OfFound found
    → IsTold (refused e found).result (refused e found).returned
unfolding refused
refused-IsTold e none good =
    inr (inl (refl, record { error = _; answered = refl; code = refl; enhanced = refl }))
refused-IsTold e (some de) good = elim (Bool-cases de.temporary) [
  | inl temporary ↦
      let code : de.smtp_code ≡ 451 = rw temporary at good.smtp_code in
      let class : de.enhanced_code.class ≡ 4 = rw temporary at good.class in
      rw (temporary, refused)
        (inr (
          inl (refl, record { error = _; answered = refl; code = rw code refl; enhanced = class })))
  | inr permanent ↦
      let code : de.smtp_code ≡ 550 = rw permanent at good.smtp_code in
      let class : de.enhanced_code.class ≡ 5 = rw permanent at good.class in
      rw (permanent, refused)
        (inr (
          inr (
            refl,
            inl (record { error = _; answered = refl; code = rw code refl; enhanced = class }),
          )))
]

report_of-IsTold : (s : Sending) → OfSending s → IsTold (report_of s).result (report_of s).returned
unfolding report_of
report_of-IsTold (delivered res) good = inl (refl, refl)
report_of-IsTold (undelivered e) good = refused-IsTold e (as_delivery_error e) good

module _ (lib : Library) (s : Session) (x : Incoming) where
  -- If every delivery error of the sender has a well-formed reply, then the result that a DATA
  -- command logs and what the client is told agree on each of its branches.
  pub handle_data-IsTold :
      ((m : Message) → OfSending (x.send m))
      → IsTold (handle_data lib s x).delivery.result (handle_data lib s x).returned
  unfolding handle_data without_message with_message unparsed
  handle_data-IsTold good = elim (Fallible-cases x.body) [
    | inr (e, lost) ↦ rw (lost, handle_data) (unread-IsTold e)
    | inl (raw, read) ↦
        elim (Fallible-cases (parse lib.unicode lib.create_reader x.now raw s.from s.recipients)) [
          | inr (e, bad) ↦
              rw (read, handle_data)
                (rw bad (
                  inr (
                    inr (
                      refl,
                      inl (record { error = _; answered = refl; code = refl; enhanced = refl }),
                    ))))
          | inl (m, parsed) ↦
              rw (read, handle_data)
                (rw parsed
                  (report_of-IsTold (x.send (with_id x.new_id m)) (good (with_id x.new_id m))))
        ]
  ]

  -- A message that reached the sender was parsed from what the client sent.
  pub handed-parse :
      {m : Message}
      → (handle_data lib s x).handed ≡ some m
      → (raw : Text) × (p : Message) × (x.body ≡ ok raw)
        × (parse lib.unicode lib.create_reader x.now raw s.from s.recipients ≡ ok p)
        × (with_id x.new_id p ≡ m)
        × (handle_data lib s x
            ≡ with_message x (with_id x.new_id p) (report_of (x.send (with_id x.new_id p))))
  unfolding handle_data without_message with_message
  handed-parse h = elim (Fallible-cases x.body) [
    | inr (e, lost) ↦ absurd (cc (rw (lost, handle_data) at h))
    | inl (raw, read) ↦
        elim (Fallible-cases (parse lib.unicode lib.create_reader x.now raw s.from s.recipients)) [
          | inr (e, bad) ↦ absurd (cc (rw (bad, handle_data) at (rw (read, handle_data) at h)))
          | inl (p, parsed) ↦
              (raw, p, read, parsed, ground arith, rw (read, handle_data) (rw parsed refl))
        ]
  ]

-- ===== src/Smtp/Audience/Refines.antt =====
-- The session of internal/smtpserver/session.go implements the abstract transaction.
use cloudflare_smtp_relay.Shared.{
  ◌≡◌, refl, ap, inl, inr, true, false, not, ◌&&◌, ◌||◌, Option, none, some, List, [], ◌∷◌, ◌++◌,
  arith, Bool-cases, Option-cases, All, All-append, if◌then◌else◌,
}
use mathlib.Core.Quot
use cloudflare_smtp_relay.Shared.Text.{Text, text_eq, is_empty, Unicode, to_lower, trim_space}
use cloudflare_smtp_relay.Email.Message.{Message}
use cloudflare_smtp_relay.Email.Policy.{allows, check}
use cloudflare_smtp_relay.Email.Policy.Laws.{check-eq-none_iff}
use cloudflare_smtp_relay.Email.Parse.Laws.{parse_lem}
use cloudflare_smtp_relay.Email.Recipients.Assign.{keys, envelope_keys}
use cloudflare_smtp_relay.Smtp.Session.{
  Library, Settings, Session, authenticate, mail, rcpt, reset, logout,
}
use cloudflare_smtp_relay.Smtp.Session.Data.{Incoming, handle_data}
use cloudflare_smtp_relay.Smtp.Session.Outcome.{handed-parse}
use cloudflare_smtp_relay.Smtp.Calls.{
  Call, authenticates, mails, rcpts, resets, logs_out, reads_data, perform, Handover, handover,
  perform_all,
}
use cloudflare_smtp_relay.Smtp.Calls.Laws.{sender_of}
use cloudflare_smtp_relay.Smtp.Audience.{
  Audience, audience_of, join, Transaction, name_recipient, meaning, meaning_all,
}

module _ (u : Unicode) where
  -- The transaction that a session stands for.
  abbrev pub view : Session → Transaction
  view s = record {
    known = s.authenticated;
    sender = s.from;
    audience = audience_of (envelope_keys u s.recipients);
  }

  -- Whom a message is addressed to.
  abbrev pub addressees : Message → Audience
  addressees m = audience_of ((keys u m.to ++ keys u m.cc) ++ keys u m.bcc)

  envelope_keys-snoc :
      (rs : List Text) (r : Text)
      → envelope_keys u (rs ++ r ∷ []) ≡ (
          if is_empty (to_lower u (trim_space u r))
          then envelope_keys u rs
          else envelope_keys u rs ++ to_lower u (trim_space u r) ∷ [])
  envelope_keys-snoc [] r = refl
  envelope_keys-snoc (q ∷ rs) r =
      let here = envelope_keys-snoc rs r in
      elim (Bool-cases (is_empty (to_lower u (trim_space u q)))) [
        | inl blank ↦ rw blank here
        | inr named ↦ elim (Bool-cases (is_empty (to_lower u (trim_space u r)))) [
          | inl nobody ↦
              rw (named, nobody) (ap (λ ks. to_lower u (trim_space u q) ∷ ks) (rw nobody at here))
          | inr somebody ↦
              rw (named, somebody)
                (ap (λ ks. to_lower u (trim_space u q) ∷ ks) (rw somebody at here))
        ]
      ]

  audience_of-snoc :
      (rs : List Text) (r : Text)
      → audience_of (envelope_keys u (rs ++ r ∷ []))
        ≡ name_recipient u r (audience_of (envelope_keys u rs))
  unfolding join
  audience_of-snoc rs r = elim (Bool-cases (is_empty (to_lower u (trim_space u r)))) [
    | inl nobody ↦ rw (envelope_keys-snoc rs r, nobody) refl
    | inr somebody ↦ rw (envelope_keys-snoc rs r, somebody) refl
  ]

module _ (lib : Library) (opts : Settings) where
  view-authenticate :
      (s : Session) (username password : Text)
      → view lib.unicode (authenticate lib opts s username password).1
        ≡ meaning lib.unicode opts (view lib.unicode s) (authenticates username password)
  unfolding authenticate meaning
  view-authenticate s username password =
      let given = text_eq username opts.username && text_eq password opts.password in
      elim (Bool-cases given) [
        | inl right ↦
            let wrong : (not (text_eq username opts.username)
                  || not (text_eq password opts.password))
                ≡ false =
              ground arith in
            let known : (s.authenticated || given) ≡ true = ground arith in
            simp (wrong, known, authenticate) refl
        | inr wrong ↦
            let refused : (not (text_eq username opts.username)
                  || not (text_eq password opts.password))
                ≡ true =
              ground arith in
            let same : (s.authenticated || given) ≡ s.authenticated = ground arith in
            simp (refused, same, authenticate) refl
      ]

  view-mail :
      (s : Session) (from : Text)
      → view lib.unicode (mail lib opts s from).1
        ≡ meaning lib.unicode opts (view lib.unicode s) (mails from)
  unfolding mail meaning
  view-mail s from = elim (Bool-cases s.authenticated) [
    | inr anonymous ↦ simp (anonymous, mail) refl
    | inl known ↦ elim (Option-cases (check opts.policy (sender_of from))) [
      | inr (e, refused) ↦
          let banned : allows opts.policy (sender_of from) ≡ false =
            ground (arith, check-eq-none_iff opts.policy (sender_of from)) in
          simp (known, refused, banned, mail) refl
      | inl passed ↦
          let allowed = (check-eq-none_iff opts.policy (sender_of from)).0 passed in
          simp (known, passed, allowed, mail) refl
    ]
  ]

  view-perform :
      (s : Session) (c : Call)
      → view lib.unicode (perform lib opts s c).after
        ≡ meaning lib.unicode opts (view lib.unicode s) c
  unfolding perform meaning rcpt reset logout
  view-perform s (authenticates username password) = view-authenticate s username password
  view-perform s (mails from) = view-mail s from
  view-perform s (rcpts to) = rw (audience_of-snoc lib.unicode s.recipients to) refl
  view-perform s resets = refl
  view-perform s logs_out = refl
  view-perform s (reads_data x) = refl

  -- A message that was handed over has the sender and the audience of the transaction.
  abbrev pub IsAddressed : Handover → Type 0
  IsAddressed h =
      (h.message.from.address ≡ trim_space lib.unicode (view lib.unicode h.by).sender)
      × (addressees lib.unicode h.message ≡ (view lib.unicode h.by).audience)

  handover-IsAddressed :
      (s : Session) (x : Incoming) (o : Option Message)
      → (handle_data lib s x).handed ≡ o
      → All IsAddressed (handover s o)
  handover-IsAddressed s x none e = tt
  handover-IsAddressed s x (some m) e =
      let (raw, p, read, parsed, named, whole) = handed-parse lib s x e in
      let facts = λ (k : Text).
        parse_lem lib.unicode lib.create_reader x.now raw s.from s.recipients k parsed in
      let same : IsAddressed (record { by = s; message = m }) =
        rw (← named) ((facts []).0, Quot.sound (λ k. (facts k).1)) in
      (same, tt)

  turn-IsAddressed :
      (s : Session) (c : Call) → All IsAddressed (handover s (perform lib opts s c).handed)
  unfolding perform
  turn-IsAddressed s (authenticates username password) = tt
  turn-IsAddressed s (mails from) = tt
  turn-IsAddressed s (rcpts to) = tt
  turn-IsAddressed s resets = tt
  turn-IsAddressed s logs_out = tt
  turn-IsAddressed s (reads_data x) = handover-IsAddressed s x (handle_data lib s x).handed refl

  -- A session implements an abstract transaction, where the recipients are a set of addresses:
  -- after any calls it stands for what the calls mean one after the other, and each message that
  -- reaches the sender has the sender of the transaction at that moment, and its To, Cc and Bcc
  -- lists together are the set of its recipients.
  pub perform_all-meaning_all :
      (s : Session) (calls : List Call)
      → (view lib.unicode (perform_all lib opts s calls).0
          ≡ meaning_all lib.unicode opts (view lib.unicode s) calls)
        × All IsAddressed (perform_all lib opts s calls).1
  unfolding perform_all meaning_all
  perform_all-meaning_all s [] = (refl, tt)
  perform_all-meaning_all s (c ∷ calls) =
      let t = perform lib opts s c in
      let (end, later) = perform_all-meaning_all t.after calls in
      (
        rw (view-perform s c) at end,
        All-append IsAddressed (handover s t.handed) (perform_all lib opts t.after calls).1
            (turn-IsAddressed s c) later,
      )

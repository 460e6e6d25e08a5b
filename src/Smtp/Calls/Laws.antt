-- ===== src/Smtp/Calls/Laws.antt =====
-- Laws of the session (internal/smtpserver/session.go) over a whole connection: what reaches the
-- sender.
use cloudflare_smtp_relay.Shared.{
  ◌≡◌, refl, inl, inr, Bool, true, false, not, ◌||◌, Option, none, some, List, [], ◌∷◌, ◌++◌, arith,
  Bool-cases, Option-cases, All, All-append,
}
use cloudflare_smtp_relay.Shared.Text.{Text, text_eq, contains, IsDistinct, trim_space}
use cloudflare_smtp_relay.Email.Message.{Address, Message}
use cloudflare_smtp_relay.Email.Policy.{allows, check}
use cloudflare_smtp_relay.Email.Policy.Laws.{check-eq-none_iff}
use cloudflare_smtp_relay.Email.Parse.Laws.{parse_lem}
use cloudflare_smtp_relay.Email.Recipients.Assign.{keys, envelope_keys}
use cloudflare_smtp_relay.Smtp.Session.{
  Library, Settings, Session, authenticate, mail, rcpt, new_session,
}
use cloudflare_smtp_relay.Smtp.Session.Data.{Incoming, handle_data}
use cloudflare_smtp_relay.Smtp.Session.Outcome.{handed-parse}
use cloudflare_smtp_relay.Smtp.Calls.{
  Call, authenticates, mails, rcpts, resets, logs_out, reads_data, succeeds_with, perform, Handover,
  handover, perform_all, stays_open, is_data, in_order,
}

abbrev pub sender_of : Text → Address
sender_of from = record { name = []; address = from }

-- The session belongs to an authenticated client and to a sender that the policy lets through.
pub record IsOpen (opts : Settings) (s : Session) : Type 0 where
  pub authenticated : s.authenticated ≡ true
  pub allowed : allows opts.policy (sender_of s.from) ≡ true

abbrev pub IsOpenIf : Settings → Bool → Session → Type 0
IsOpenIf opts true s = IsOpen opts s
IsOpenIf opts false s = Unit

-- A message that the sender got: it comes from an authenticated client, its sender is the one of
-- the envelope, whom the policy lets through, and it goes to each recipient of the envelope once.
pub record IsAuthorised (lib : Library) (opts : Settings) (h : Handover) : Type 0 where
  pub by_open : IsOpen opts h.by
  pub from : h.message.from.address ≡ trim_space lib.unicode h.by.from
  pub all :
      (k : Text)
      → contains k (
          (keys lib.unicode h.message.to ++ keys lib.unicode h.message.cc)
          ++ keys lib.unicode h.message.bcc)
        ≡ contains k (envelope_keys lib.unicode h.by.recipients)
  pub once : IsDistinct (
      (keys lib.unicode h.message.to ++ keys lib.unicode h.message.cc)
      ++ keys lib.unicode h.message.bcc)

module _ (lib : Library) (opts : Settings) where
  kept : (begun : Bool) (s : Session) → IsOpenIf opts begun s → IsOpenIf opts (begun || false) s
  kept true s h = h
  kept false s h = tt

  started : (begun : Bool) (s : Session) → IsOpen opts s → IsOpenIf opts (begun || true) s
  started true s h = h
  started false s h = h

  mail-IsOpen :
      (begun : Bool) (s : Session) (from : Text)
      → IsOpenIf opts begun s
      → IsOpenIf opts (begun || succeeds_with (mail lib opts s from).0) (mail lib opts s from).1
  unfolding mail
  mail-IsOpen begun s from h = elim (Bool-cases s.authenticated) [
    | inr anonymous ↦ simp (anonymous, mail) (kept begun s h)
    | inl known ↦ elim (Option-cases (check opts.policy (sender_of from))) [
      | inr (e, refused) ↦ rw (known, refused, mail) (kept begun s h)
      | inl passed ↦
          rw (known, passed, mail)
            (started begun _ (record {
              authenticated = known;
              allowed = (check-eq-none_iff opts.policy (sender_of from)).0 passed;
            }))
    ]
  ]

  authenticate-IsOpen :
      (begun : Bool) (s : Session) (username password : Text)
      → IsOpenIf opts begun s
      → IsOpenIf opts begun (authenticate lib opts s username password).1
  unfolding authenticate
  authenticate-IsOpen false s username password h = tt
  authenticate-IsOpen true s username password h =
      elim (Bool-cases
        (not (text_eq username opts.username) || not (text_eq password opts.password))) [
          | inl wrong ↦ rw (wrong, authenticate) h
          | inr right ↦
              rw (right, authenticate) (record { authenticated = refl; allowed = h.allowed })
        ]

  rcpt-IsOpen :
      (begun : Bool) (s : Session) (to : Text)
      → IsOpenIf opts begun s
      → IsOpenIf opts begun (rcpt s to)
  unfolding rcpt
  rcpt-IsOpen true s to h = record { authenticated = h.authenticated; allowed = h.allowed }
  rcpt-IsOpen false s to h = tt

  -- Each call keeps an open transaction in the hands of an authenticated client with an allowed
  -- sender.
  perform-IsOpen :
      (begun : Bool) (s : Session) (c : Call)
      → IsOpenIf opts begun s
      → IsOpenIf opts
          (stays_open begun c (perform lib opts s c).succeeded)
          (perform lib opts s c).after
  unfolding perform stays_open
  perform-IsOpen begun s (authenticates username password) h =
      authenticate-IsOpen begun s username password h
  perform-IsOpen begun s (mails from) h = mail-IsOpen begun s from h
  perform-IsOpen begun s (rcpts to) h = rcpt-IsOpen begun s to h
  perform-IsOpen begun s resets h = tt
  perform-IsOpen begun s logs_out h = tt
  perform-IsOpen begun s (reads_data x) h = h

  handed-IsAuthorised :
      (s : Session) (x : Incoming) {m : Message}
      → IsOpen opts s
      → (handle_data lib s x).handed ≡ some m
      → IsAuthorised lib opts (record { by = s; message = m })
  handed-IsAuthorised s x {m} h e =
      let (raw, p, read, parsed, named, whole) = handed-parse lib s x e in
      let (from, all, once, _, _, _, _) =
        parse_lem lib.unicode lib.create_reader x.now raw s.from s.recipients [] parsed in
      rw (← named) (record {
        by_open = h;
        from = from;
        all =
            λ k. (parse_lem lib.unicode lib.create_reader x.now raw s.from s.recipients k parsed).1;
        once = once;
      })

  handover-IsAuthorised :
      (s : Session) (x : Incoming) (o : Option Message)
      → IsOpen opts s
      → (handle_data lib s x).handed ≡ o
      → All (IsAuthorised lib opts) (handover s o)
  handover-IsAuthorised s x none h e = tt
  handover-IsAuthorised s x (some m) h e = (handed-IsAuthorised s x h e, tt)

  -- One call hands over nothing, or as its guard demands.
  turn-IsAuthorised :
      (begun : Bool) (s : Session) (c : Call)
      → IsOpenIf opts begun s
      → (not (is_data c) || begun) ≡ true
      → All (IsAuthorised lib opts) (handover s (perform lib opts s c).handed)
  unfolding perform
  turn-IsAuthorised begun s (authenticates username password) h g = tt
  turn-IsAuthorised begun s (mails from) h g = tt
  turn-IsAuthorised begun s (rcpts to) h g = tt
  turn-IsAuthorised begun s resets h g = tt
  turn-IsAuthorised begun s logs_out h g = tt
  turn-IsAuthorised true s (reads_data x) h g =
      handover-IsAuthorised s x (handle_data lib s x).handed h refl
  turn-IsAuthorised false s (reads_data x) h g = absurd (cc g)

  perform_all_open-IsAuthorised :
      (begun : Bool) (s : Session) (calls : List Call)
      → IsOpenIf opts begun s
      → in_order lib opts begun s calls ≡ true
      → All (IsAuthorised lib opts) (perform_all lib opts s calls).1
  unfolding perform_all in_order
  perform_all_open-IsAuthorised begun s [] h g = tt
  perform_all_open-IsAuthorised begun s (c ∷ calls) h g =
      let t = perform lib opts s c in
      let here : (not (is_data c) || begun) ≡ true = ground arith in
      let there : in_order lib opts (stays_open begun c t.succeeded) t.after calls ≡ true =
        ground arith in
      All-append (IsAuthorised lib opts) (handover s t.handed)
        (perform_all lib opts t.after calls).1 (turn-IsAuthorised begun s c h here)
        (perform_all_open-IsAuthorised (stays_open begun c t.succeeded) t.after calls
          (perform-IsOpen begun s c h) there)

  -- In every list of calls that gives DATA only in an open transaction, each message that reaches
  -- the sender comes from a client that has authenticated, its sender is the one of the envelope
  -- and allowed by the policy, and it is addressed to each recipient of that envelope that is not
  -- blank, once, and to nobody else.
  pub perform_all-IsAuthorised :
      (calls : List Call)
      → in_order lib opts false new_session calls ≡ true
      → All (IsAuthorised lib opts) (perform_all lib opts new_session calls).1
  perform_all-IsAuthorised calls g = perform_all_open-IsAuthorised false new_session calls tt g

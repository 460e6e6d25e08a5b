-- ===== src/Smtp/Calls/Fresh.antt =====
-- Laws of the session (internal/smtpserver/session.go) from one transaction to the next.
use mathlib.Core.List.{append_assoc, append-nil}
use cloudflare_smtp_relay.Shared.{
  ◌≡◌, refl, inl, inr, Bool, true, false, ◌&&◌, ◌||◌, none, List, [], ◌∷◌, ◌++◌, map, arith,
  Bool-cases, Option-cases,
}
use cloudflare_smtp_relay.Shared.Text.{Text, text_eq}
use cloudflare_smtp_relay.Email.Policy.{allows, check}
use cloudflare_smtp_relay.Email.Policy.Laws.{check-eq-none_iff}
use cloudflare_smtp_relay.Smtp.Session.{
  Library, Settings, Session, authenticate, mail, rcpt, reset, logout,
}
use cloudflare_smtp_relay.Smtp.Calls.{
  Call, authenticates, mails, rcpts, resets, logs_out, reads_data, perform, perform_all,
}
use cloudflare_smtp_relay.Smtp.Calls.Laws.{sender_of}

-- Whether a call gives the configured credentials, both of them.
abbrev pub gives_credentials : Settings → Call → Bool
gives_credentials opts (authenticates username password) =
    text_eq username opts.username && text_eq password opts.password
gives_credentials opts _ = false

unfoldable pub any_credentials : Settings → List Call → Bool
any_credentials opts [] = false
any_credentials opts (c ∷ calls) = gives_credentials opts c || any_credentials opts calls

module _ (lib : Library) (opts : Settings) where
  authenticated-authenticate :
      (s : Session) (username password : Text)
      → (authenticate lib opts s username password).1.authenticated
        ≡ (s.authenticated || (text_eq username opts.username && text_eq password opts.password))
  unfolding authenticate
  authenticated-authenticate s username password = ground arith

  authenticated-mail :
      (s : Session) (from : Text) → (mail lib opts s from).1.authenticated ≡ s.authenticated
  unfolding mail
  authenticated-mail s from = elim (Bool-cases s.authenticated) [
    | inr anonymous ↦ simp (anonymous, mail) refl
    | inl known ↦ elim (Option-cases (check opts.policy (sender_of from))) [
      | inr (e, refused) ↦ simp (known, refused, mail) refl
      | inl passed ↦ simp (known, passed, mail) refl
    ]
  ]

  authenticated-perform :
      (s : Session) (c : Call)
      → (perform lib opts s c).after.authenticated ≡ (s.authenticated || gives_credentials opts c)
  unfolding perform rcpt reset logout
  authenticated-perform s (authenticates username password) =
      authenticated-authenticate s username password
  authenticated-perform s (mails from) = ground (arith, authenticated-mail s from)
  authenticated-perform s (rcpts to) = ground arith
  authenticated-perform s resets = ground arith
  authenticated-perform s logs_out = ground arith
  authenticated-perform s (reads_data x) = ground arith

  -- A session is authenticated after a list of calls exactly if it was before, or some call gave
  -- the configured user name and password, both of them.
  pub authenticated-perform_all :
      (s : Session) (calls : List Call)
      → (perform_all lib opts s calls).0.authenticated
        ≡ (s.authenticated || any_credentials opts calls)
  unfolding perform_all any_credentials
  authenticated-perform_all s [] = ground arith
  authenticated-perform_all s (c ∷ calls) = ground (
    arith,
    authenticated-perform s c,
    authenticated-perform_all (perform lib opts s c).after calls,
  )

  rcpts_lem :
      (a : Bool) (from : Text) (done tos : List Text)
      → perform_all lib opts
          (record { authenticated = a; from = from; recipients = done })
          (map rcpts tos)
        ≡ (record { authenticated = a; from = from; recipients = done ++ tos }, [])
  unfolding perform_all perform rcpt
  rcpts_lem a from done [] = rw append-nil refl
  rcpts_lem a from done (to ∷ tos) =
      rw (rcpts_lem a from (done ++ to ∷ []) tos) (rw append_assoc refl)

  mail-eq :
      (s : Session) (from : Text)
      → s.authenticated ≡ true
      → allows opts.policy (sender_of from) ≡ true
      → mail lib opts s from ≡ (none, record { authenticated = true; from = from; recipients = [] })
  unfolding mail
  mail-eq s from known allowed =
      let passed = (check-eq-none_iff opts.policy (sender_of from)).1 allowed in
      simp (known, passed, mail) refl

  -- Whatever an authenticated session holds of earlier transactions, MAIL from an allowed sender
  -- and then RCPT for each of a list of recipients leave exactly that sender and those recipients,
  -- in their order, and hand nothing to the sender.
  pub perform_all-transaction :
      (s : Session) (from : Text) (tos : List Text)
      → s.authenticated ≡ true
      → allows opts.policy (sender_of from) ≡ true
      → perform_all lib opts s (mails from ∷ map rcpts tos)
        ≡ (record { authenticated = true; from = from; recipients = tos }, [])
  unfolding perform_all perform
  perform_all-transaction s from tos known allowed =
      rw (mail-eq s from known allowed) (rw (rcpts_lem true from [] tos) refl)

-- ===== src/Smtp/Session.antt =====
-- internal/smtpserver/session.go: the session of one connection, all but `Data`. What go-smtp,
-- go-sasl and go-message bring is the record `Library`.
pub mod Data
pub mod Outcome
use cloudflare_smtp_relay.Shared.{
  ℕ, Bool, true, false, not, ◌||◌, Option, none, some, List, [], ◌∷◌, ◌++◌, if◌then◌else◌,
}
use cloudflare_smtp_relay.Shared.Text.{Text, codes, text_eq, Unicode}
use cloudflare_smtp_relay.Email.Errors.{
  Fault, Fallible, ok, failed, EnhancedCode, is_sender_not_allowed,
}
use cloudflare_smtp_relay.Email.Message.{Address, domain}
use cloudflare_smtp_relay.Email.Policy.{SenderPolicy, check}
use cloudflare_smtp_relay.Email.Parse.{Created}
use cloudflare_smtp_relay.Smtp.Login.{LoginServer, new_login_server}

-- `auth_failed` and `unknown_mechanism` are go-smtp's errors; `quote` is the verb %q of fmt.
pub record Library : Type 0 where
  pub unicode : Unicode
  pub quote : Text → Text
  pub create_reader : Text → Created
  pub auth_failed : Fault
  pub unknown_mechanism : Fault

-- The options that a session uses and that are data.
pub record Settings : Type 0 where
  pub username : Text
  pub password : Text
  pub policy : SenderPolicy

pub record SmtpError : Type 0 where
  pub code : ℕ
  pub enhanced_code : EnhancedCode
  pub message : Text

-- An error that a session returns to go-smtp.
pub data Refusal : Type 0 where
  smtp : SmtpError → Refusal
  other : Fault → Refusal

abbrev pub status : ℕ → ℕ → ℕ → EnhancedCode
status c s d = record { class = c; subject = s; detail = d }

abbrev pub err_auth_required : SmtpError
err_auth_required = record {
  code = 530;
  enhanced_code = status 5 7 0;
  message = codes "Authentication required";
}

pub record Session : Type 0 where
  pub authenticated : Bool
  pub from : Text
  pub recipients : List Text

-- `NewSession`
unfoldable pub new_session : Session
new_session = record { authenticated = false; from = []; recipients = [] }

-- The server of a mechanism, each with the session's `authenticate`.
pub data Mechanism : Type 0 where
  plain_server : Mechanism
  login_server : LoginServer → Mechanism

abbrev pub auth_mechanisms : List Text
auth_mechanisms = codes "PLAIN" ∷ codes "LOGIN" ∷ []

unfoldable pub auth : Library → Text → Fallible Mechanism
auth lib mech =
    if text_eq mech (codes "PLAIN")
    then ok plain_server
    else if text_eq mech (codes "LOGIN")
    then ok (login_server new_login_server)
    else failed lib.unknown_mechanism

unfoldable pub authenticate : Library → Settings → Session → Text → Text → Option Fault × Session
authenticate lib opts s username password =
    let valid_user = text_eq username opts.username in
    let valid_pass = text_eq password opts.password in
    if not valid_user || not valid_pass
    then (some lib.auth_failed, s)
    else (none, record { authenticated = true; from = s.from; recipients = s.recipients })

unfoldable pub reset : Session → Session
reset s = record { authenticated = s.authenticated; from = []; recipients = [] }

-- Its error is always nil.
unfoldable pub logout : Session → Session
unfolding reset
logout s = reset s

unfoldable pub mail : Library → Settings → Session → Text → Option Refusal × Session
mail lib opts s from =
    if not s.authenticated
    then (some (smtp err_auth_required), s)
    else let addr : Address = record { name = []; address = from } in
      elim (check opts.policy addr) [
        | some err ↦ (
          some (
              smtp (record {
                code = 550;
                enhanced_code = status 5 7 1;
                message =
                    if is_sender_not_allowed err
                    then codes "sender domain "
                      ++ (lib.quote (domain addr) ++ codes " is not allowed")
                    else codes "sender rejected";
              })),
          s,
        )
        | none ↦ (none, record { authenticated = s.authenticated; from = from; recipients = [] })
      ]

-- Its error is always nil.
unfoldable pub rcpt : Session → Text → Session
rcpt s to = record {
  authenticated = s.authenticated;
  from = s.from;
  recipients = s.recipients ++ to ∷ [];
}

-- ===== src/Smtp/Options.antt =====
-- internal/smtpserver/options.go and server.go: the options, and the server that they make. The types
-- of the seams are parameters: TLS configuration, sender, logger, identifier source and clock.
use cloudflare_smtp_relay.Shared.{
  ◌≡◌, refl, Bool, true, false, not, ◌&&◌, Option, none, some, [], ◌∷◌, arith, if◌then◌else◌,
}
use cloudflare_smtp_relay.Shared.Int.{ℤ, pos, leb_ℤ}
use cloudflare_smtp_relay.Shared.Text.{Text, codes, is_empty}
use cloudflare_smtp_relay.Email.Errors.{Fault, outside, Fallible, ok, failed}
use cloudflare_smtp_relay.Email.Message.{Address}
use cloudflare_smtp_relay.Email.Policy.{SenderPolicy, new_sender_policy, allows}
use cloudflare_smtp_relay.Email.Policy.Laws.{allows-new_sender_policy}

pub record Options (Tls Send Log Gen Now : Type 0) : Type 0 where
  pub addr : Text
  pub domain : Text
  pub username : Text
  pub password : Text
  pub max_message_bytes : ℤ
  pub max_recipients : ℤ
  pub read_timeout : ℤ
  pub write_timeout : ℤ
  pub tls_config : Option Tls
  pub policy : Option SenderPolicy
  pub sender : Option Send
  pub logger : Option Log
  pub new_id : Option Gen
  pub now : Option Now

-- The server of go-smtp, as `New` fills it in.
pub record Inner (Tls : Type 0) : Type 0 where
  pub addr : Text
  pub domain : Text
  pub max_message_bytes : ℤ
  pub max_recipients : ℤ
  pub read_timeout : ℤ
  pub write_timeout : ℤ
  pub tls_config : Option Tls
  pub allow_insecure_auth : Bool

abbrev pub or_default : {A : Type 0} → Option A → A → A
or_default none d = d
or_default (some a) d = a

abbrev pub is_given {ℓ} : {A : Type ℓ} → Option A → Bool
is_given none = false
is_given (some a) = true

domain_given : (d : Text) → is_empty (if is_empty d then codes "localhost" else d) ≡ false
unfolding codes
domain_given [] = refl
domain_given (c ∷ d) = refl

-- The errors of `New`.
abbrev pub err_sender_required : Fault
err_sender_required = outside (codes "smtpserver: Sender is required")

abbrev pub err_username_required : Fault
err_username_required = outside (codes "smtpserver: Username is required")

abbrev pub err_password_required : Fault
err_password_required = outside (codes "smtpserver: Password is required")

abbrev pub err_max_message_bytes_invalid : Fault
err_max_message_bytes_invalid = outside (codes "smtpserver: MaxMessageBytes must be positive")

abbrev pub err_max_recipients_invalid : Fault
err_max_recipients_invalid = outside (codes "smtpserver: MaxRecipients must be positive")

-- The defaults are slog.Default, the generator of UUIDs, and time.Now.
module _ {Tls Send Log Gen Now : Type 0} (log : Log) (gen : Gen) (clock : Now) where
  with_defaults : Options Tls Send Log Gen Now → Options Tls Send Log Gen Now
  with_defaults o = record {
    addr = o.addr;
    domain = if is_empty o.domain then codes "localhost" else o.domain;
    username = o.username;
    password = o.password;
    max_message_bytes = o.max_message_bytes;
    max_recipients = o.max_recipients;
    read_timeout = o.read_timeout;
    write_timeout = o.write_timeout;
    tls_config = o.tls_config;
    policy = some (or_default o.policy (new_sender_policy []));
    sender = o.sender;
    logger = some (or_default o.logger log);
    new_id = some (or_default o.new_id gen);
    now = some (or_default o.now clock);
  }

  unfoldable pub validate : Options Tls Send Log Gen Now → Fallible (Options Tls Send Log Gen Now)
  unfolding with_defaults
  validate o =
      if not (is_given o.sender)
      then failed err_sender_required
      else if is_empty o.username
      then failed err_username_required
      else if is_empty o.password
      then failed err_password_required
      else if leb_ℤ o.max_message_bytes (pos 0)
      then failed err_max_message_bytes_invalid
      else if leb_ℤ o.max_recipients (pos 0)
      then failed err_max_recipients_invalid
      else ok (with_defaults o)

  abbrev inner_of : Options Tls Send Log Gen Now → Inner Tls
  inner_of o = record {
    addr = o.addr;
    domain = o.domain;
    max_message_bytes = o.max_message_bytes;
    max_recipients = o.max_recipients;
    read_timeout = o.read_timeout;
    write_timeout = o.write_timeout;
    tls_config = o.tls_config;
    allow_insecure_auth = not (is_given o.tls_config);
  }

  -- `New`: the options of the backend, and the server around it.
  unfoldable pub new_server :
      Options Tls Send Log Gen Now → Fallible (Options Tls Send Log Gen Now × Inner Tls)
  unfolding validate
  new_server o = elim (validate o) [
    | failed e ↦ failed e
    | ok effective ↦ ok (effective, inner_of effective)
  ]

  abbrev pub is_complete : Options Tls Send Log Gen Now → Bool
  is_complete o =
      is_given o.sender
      && (not (is_empty o.username)
          && (not (is_empty o.password)
              && (not (leb_ℤ o.max_message_bytes (pos 0)) && not (leb_ℤ o.max_recipients (pos 0)))))

  validate-eq-ok :
      (o : Options Tls Send Log Gen Now) → is_complete o ≡ true → validate o ≡ ok (with_defaults o)
  unfolding validate
  validate-eq-ok o complete =
      let sender : is_given o.sender ≡ true = ground arith in
      let username : is_empty o.username ≡ false = ground arith in
      let password : is_empty o.password ≡ false = ground arith in
      let bytes : leb_ℤ o.max_message_bytes (pos 0) ≡ false = ground arith in
      let recipients : leb_ℤ o.max_recipients (pos 0) ≡ false = ground arith in
      simp (sender, username, password, bytes, recipients, validate) refl

  -- Options with a sender, with credentials that are not empty and with limits that are positive
  -- make a server, which has those limits, the same address, timeouts and TLS configuration, and
  -- takes a password in the clear exactly if there is no TLS configuration; its backend has the same
  -- credentials and sender, and the given policy.
  pub new_server-ok :
      (o : Options Tls Send Log Gen Now) (policy : SenderPolicy)
      → is_complete o ≡ true
      → o.policy ≡ some policy
      → (eff : Options Tls Send Log Gen Now) × (inner : Inner Tls) × (new_server o
          ≡ ok (eff, inner))
        × (inner.max_message_bytes ≡ o.max_message_bytes)
        × (inner.max_recipients ≡ o.max_recipients)
        × (inner.allow_insecure_auth ≡ not (is_given o.tls_config))
        × (is_empty inner.domain ≡ false)
        × (eff.username ≡ o.username)
        × (eff.password ≡ o.password)
        × (eff.policy ≡ some policy)
        × (inner.addr ≡ o.addr)
        × (inner.read_timeout ≡ o.read_timeout)
        × (inner.write_timeout ≡ o.write_timeout)
        × (inner.tls_config ≡ o.tls_config)
        × (eff.sender ≡ o.sender)
  unfolding new_server with_defaults
  new_server-ok o policy complete given = (
    with_defaults o,
    inner_of (with_defaults o),
    simp (validate-eq-ok o complete, new_server) refl,
    refl,
    refl,
    refl,
    domain_given o.domain,
    refl,
    refl,
    rw given refl,
    refl,
    refl,
    refl,
    refl,
    refl,
  )

  -- Options that are complete but for the policy make a server whose policy lets every sender
  -- through.
  pub new_server_policy :
      (o : Options Tls Send Log Gen Now) (a : Address)
      → is_complete o ≡ true
      → o.policy ≡ none
      → (eff : Options Tls Send Log Gen Now) × (inner : Inner Tls) × (p : SenderPolicy)
        × (new_server o ≡ ok (eff, inner))
        × (eff.policy ≡ some p)
        × (allows p a ≡ true)
  unfolding new_server with_defaults
  new_server_policy o a complete absent = (
    with_defaults o,
    inner_of (with_defaults o),
    new_sender_policy [],
    simp (validate-eq-ok o complete, new_server) refl,
    rw absent refl,
    allows-new_sender_policy [] a,
  )

-- ===== src/Relay/Start.antt =====
-- Laws of `run` (cmd/relay/main.go), up to the server.
use cloudflare_smtp_relay.Shared.{
  ◌≡◌, refl, ap, ◌∙◌, inl, inr, true, false, not, Option, none, some, arith, Bool-cases,
}
use cloudflare_smtp_relay.Shared.Int.{ℤ, pos, ltb_ℤ}
use cloudflare_smtp_relay.Shared.Text.{
  Text, codes, text_eq, text_eq_iff, is_empty, Unicode, is_ascii, to_lower,
}
use cloudflare_smtp_relay.Email.Errors.{Fallible, ok}
use cloudflare_smtp_relay.Email.Policy.{new_sender_policy}
use cloudflare_smtp_relay.Cloudflare.Rest.{Rest, new_rest, effective_timeout}
use cloudflare_smtp_relay.Cloudflare.Worker.{Worker, new_worker}
use cloudflare_smtp_relay.Config.{
  transport_rest, transport_worker, Standard, Config, Env, smtp_addr, health_addr,
}
use cloudflare_smtp_relay.Health.Server.{new_health}
use cloudflare_smtp_relay.Config.Checks.{
  is_level, within, cloudflare_max_message_bytes, cloudflare_max_recipients,
}
use cloudflare_smtp_relay.Config.Laws.{load_from-IsValid}
use cloudflare_smtp_relay.Config.Laws.Checked.{is_transport}
use cloudflare_smtp_relay.Config.Load.{load_from}
use cloudflare_smtp_relay.Logging.{Level, debug, info, warn, error, parse_level, new_logger}
use cloudflare_smtp_relay.Smtp.Options.{is_given, is_complete, new_server-ok}
use cloudflare_smtp_relay.Relay.{
  Adapter, rest, worker, build_sender, TlsConfig, build_tls, Started, options_of, start,
}

-- The levels that a configuration may have are the ones that the logger knows.
new_logger-is_level :
    (u : Unicode) (quote : Text → Text) (s : Text)
    → is_level s ≡ true
    → (level : Level) × (new_logger u quote s ≡ ok level)
unfolding new_logger parse_level text_eq codes to_lower is_ascii
new_logger-is_level u quote s h = elim (Bool-cases (text_eq s (codes "debug"))) [
  | inl e ↦ (debug, rw ((text_eq_iff s (codes "debug")).0 e) refl)
  | inr a ↦ elim (Bool-cases (text_eq s (codes "info"))) [
    | inl e ↦ (info, rw ((text_eq_iff s (codes "info")).0 e) refl)
    | inr b ↦ elim (Bool-cases (text_eq s (codes "warn"))) [
      | inl e ↦ (warn, rw ((text_eq_iff s (codes "warn")).0 e) refl)
      | inr c ↦
          let last : text_eq s (codes "error") ≡ true = ground (arith, rw (a, b, c) at h) in
          (error, rw ((text_eq_iff s (codes "error")).0 last) refl)
    ]
  ]
]

abbrev pub retries_of : Adapter → ℤ
retries_of (rest c) = c.max_retries
retries_of (worker c) = c.max_retries

-- The adapters that a configuration makes.
abbrev rest_of : Config → Rest
rest_of c = record {
  base_url = c.cloudflare_api_base_url;
  account_id = c.cloudflare_account_id;
  api_token = c.cloudflare_api_token;
  timeout = effective_timeout c.cloudflare_timeout;
  max_retries = c.cloudflare_max_retries;
}

abbrev worker_of : Config → Worker
worker_of c = record {
  url = c.worker_url;
  secret = c.worker_secret;
  timeout = effective_timeout c.cloudflare_timeout;
  max_retries = c.cloudflare_max_retries;
}

-- The adapter is the one of the configured transport, with its credentials.
abbrev pub IsAdapterOf : Config → Adapter → Type 0
IsAdapterOf c (rest r) =
    (c.cloudflare_transport ≡ transport_rest)
    × (r.base_url ≡ c.cloudflare_api_base_url)
    × (r.account_id ≡ c.cloudflare_account_id)
    × (r.api_token ≡ c.cloudflare_api_token)
    × (r.max_retries ≡ c.cloudflare_max_retries)
IsAdapterOf c (worker a) =
    (c.cloudflare_transport ≡ transport_worker)
    × (a.url ≡ c.worker_url)
    × (a.secret ≡ c.worker_secret)
    × (a.max_retries ≡ c.cloudflare_max_retries)

retries_of-IsAdapterOf :
    (c : Config) (a : Adapter) → IsAdapterOf c a → retries_of a ≡ c.cloudflare_max_retries
retries_of-IsAdapterOf c (rest r) (transport, base, account, token, retries) = retries
retries_of-IsAdapterOf c (worker a) (transport, url, secret, retries) = retries

build_sender-ok :
    (std : Standard) (c : Config)
    → is_transport std c ≡ true
    → within (pos 0) (pos 5) c.cloudflare_max_retries ≡ true
    → is_empty c.cloudflare_api_base_url ≡ false
    → (a : Adapter) × (build_sender std c ≡ ok a) × IsAdapterOf c a
unfolding build_sender new_rest new_worker text_eq codes
build_sender-ok std c transport retries base =
    let high : ltb_ℤ c.cloudflare_max_retries (pos 0) ≡ false = ground arith in
    elim (Bool-cases (text_eq c.cloudflare_transport transport_rest)) [
      | inl by_rest ↦
          let not_worker : text_eq c.cloudflare_transport transport_worker ≡ false =
            rw ((text_eq_iff c.cloudflare_transport transport_rest).0 by_rest) refl in
          let given = rw (by_rest, not_worker) at transport in
          let account : is_empty c.cloudflare_account_id ≡ false = ground arith in
          let token : is_empty c.cloudflare_api_token ≡ false = ground arith in
          (
            rest (rest_of c),
            simp (by_rest, base, account, token, high, build_sender, new_rest) refl,
            ((text_eq_iff c.cloudflare_transport transport_rest).0 by_rest, refl, refl, refl, refl),
          )
      | inr other ↦
          let by_worker : text_eq c.cloudflare_transport transport_worker ≡ true = ground arith in
          let url : is_empty c.worker_url ≡ false = ground arith in
          let secret : is_empty c.worker_secret ≡ false = ground arith in
          (
            worker (worker_of c),
            simp (other, by_worker, url, secret, high, build_sender, new_worker) refl,
            ((text_eq_iff c.cloudflare_transport transport_worker).0 by_worker, refl, refl, refl),
          )
    ]

module _ {Cert Gen Now : Type 0} (std : Standard) (load_pair : Text → Text → Fallible Cert)
    (log : Level) (gen : Gen) (clock : Now) where
  -- What the two files of the configuration give: no certificate where neither is named, and the
  -- one that they load to where both are.
  abbrev pub LoadsPair : Config → Option Cert → Type 0
  LoadsPair c none = (is_empty c.smtp_tls_cert ≡ true) × (is_empty c.smtp_tls_key ≡ true)
  LoadsPair c (some cert) =
      (is_empty c.smtp_tls_cert ≡ false)
      × (is_empty c.smtp_tls_key ≡ false)
      × (load_pair c.smtp_tls_cert c.smtp_tls_key ≡ ok cert)

  -- TLS from version 1.2 on, with the certificate.
  abbrev pub tls_of : Option Cert → Option (TlsConfig Cert)
  tls_of none = none
  tls_of (some cert) = some (record { certificate = cert; min_version = 0x303 })

  build_tls-LoadsPair :
      (c : Config) (pair : Option Cert)
      → LoadsPair c pair
      → build_tls load_pair c ≡ ok (tls_of pair)
  unfolding build_tls
  build_tls-LoadsPair c none (no_cert, no_key) = rw (no_cert, build_tls) refl
  build_tls-LoadsPair c (some cert) (a_cert, a_key, loads) =
      rw (a_cert, a_key, loads, build_tls) refl

  -- The server is ready, as the configuration and its certificate say.
  pub record IsReady (c : Config) (pair : Option Cert) (s : Started Cert Gen Now) : Type 0 where
    pub config : s.config ≡ c
    pub addr : s.inner.addr ≡ smtp_addr std c
    pub bytes : s.inner.max_message_bytes ≡ c.smtp_max_message_bytes
    pub recipients : s.inner.max_recipients ≡ c.smtp_max_recipients
    pub read_timeout : s.inner.read_timeout ≡ c.smtp_read_timeout
    pub write_timeout : s.inner.write_timeout ≡ c.smtp_write_timeout
    pub bytes_capped : within (pos 1) cloudflare_max_message_bytes c.smtp_max_message_bytes ≡ true
    pub recipients_capped : within (pos 1) cloudflare_max_recipients c.smtp_max_recipients ≡ true
    pub sender : IsAdapterOf c s.sender
    pub backend_sender : s.backend.sender ≡ some s.sender
    pub retries_capped : within (pos 0) (pos 5) (retries_of s.sender) ≡ true
    pub tls : s.inner.tls_config ≡ tls_of pair
    pub insecure : s.inner.allow_insecure_auth ≡ not (is_given pair)
    pub username : s.backend.username ≡ c.smtp_user
    pub password : s.backend.password ≡ c.smtp_password
    pub policy : s.backend.policy ≡ some (new_sender_policy c.allowed_from_domains)
    pub health : s.health.addr ≡ health_addr std c

  is_given-tls_of : (pair : Option Cert) → is_given (tls_of pair) ≡ is_given pair
  is_given-tls_of none = refl
  is_given-tls_of (some cert) = refl

  -- A configuration that loads, with a base URL that is not empty and a key pair that loads where
  -- the two files are named, starts, and the server is as it says: its address, its two limits,
  -- which are Cloudflare's at most, its two timeouts, its user, its password and the policy of its
  -- domains; the sender is the adapter of its transport, with the URL, the credentials and the
  -- retries, which are five at most; TLS has the certificate of the two files, from version 1.2
  -- on, and there is no TLS exactly if they are not named, and then alone a password is taken in
  -- the clear; and the health server has its address.
  pub start-IsReady :
      (env : Env) (c : Config) (pair : Option Cert)
      → load_from std env ≡ ok c
      → is_empty c.cloudflare_api_base_url ≡ false
      → LoadsPair c pair
      → (s : Started Cert Gen Now) × (start std load_pair log gen clock env ≡ ok s)
        × IsReady c pair s
  unfolding start
  start-IsReady env c pair loaded base pair_loads =
      let valid = load_from-IsValid std env c loaded in
      let limits = valid.limits in
      let (level, leveled) = new_logger-is_level std.unicode std.quote c.log_level valid.level in
      let (sender, built, adapter) = build_sender-ok std c valid.transport limits.retries base in
      let o = options_of std load_pair log gen clock c level sender (tls_of pair) in
      let user_given = valid.user in
      let password_given = valid.password in
      let bytes_given = limits.bytes in
      let recipients_given = limits.recipients in
      let complete : is_complete log gen clock o ≡ true = ground arith in
      let (
        eff, inner, made, bytes, recipients, insecure, _, user, password, policy, addr, reading,
        writing, tls, sends,
      ) =
        new_server-ok log gen clock o (new_sender_policy c.allowed_from_domains) complete refl in
      (
        record {
          config = c;
          level = level;
          sender = sender;
          backend = eff;
          inner = inner;
          health = new_health (health_addr std c);
        },
        simp (loaded, leveled, built, build_tls-LoadsPair c pair pair_loads, made, start) refl,
        record {
          config = refl;
          addr = addr;
          bytes = bytes;
          recipients = recipients;
          read_timeout = reading;
          write_timeout = writing;
          bytes_capped = limits.bytes;
          recipients_capped = limits.recipients;
          sender = adapter;
          backend_sender = sends;
          retries_capped = rw (retries_of-IsAdapterOf c sender adapter) limits.retries;
          tls = tls;
          insecure = insecure ∙ ap not (is_given-tls_of pair);
          username = user;
          password = password;
          policy = policy;
          health = unfold new_health in refl;
        },
      )

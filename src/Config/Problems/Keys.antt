-- ===== src/Config/Problems/Keys.antt =====
-- internal/config: the variables that the problems of `loadFrom` name are those whose rules are
-- broken.
use cloudflare_smtp_relay.Shared.{
  ◌≡◌, refl, ap, ◌∙◌, inl, inr, Bool, true, false, not, ◌&&◌, ◌||◌, Option, none, some, List, [],
  ◌∷◌, ◌++◌, map, arith, if◌then◌else◌, ◌==◌, Bool-cases, Option-cases,
}
use mathlib.Core.List.{append_assoc, append-nil}
use cloudflare_smtp_relay.Shared.Int.{ℤ, pos, ltb_ℤ, leb_ℤ}
use cloudflare_smtp_relay.Shared.Text.{
  Text, codes, text_eq, text_eq_iff, is_empty, to_lower, atoi, lacks, Lacks,
}
use cloudflare_smtp_relay.Email.Errors.{Fallible-cases}
use cloudflare_smtp_relay.Config.{
  transport_rest, transport_worker, Url, Standard, Config, Env, problem, parsed_with,
  require_string, int_or_default, int64_or_default, duration_or_default,
}
use cloudflare_smtp_relay.Config.Checks.{
  within, is_http, is_level, problem_if, validate_port_range, validate_absolute_http_url,
  check_limits, check_pair, check_level, check_transport,
}
use cloudflare_smtp_relay.Config.Load.{raw_log_level, read_config, check_config}
use cloudflare_smtp_relay.Config.Problems.Rules.{
  key_if, broken_keys, unreadable, missing, is_http_url, reading_rules, transport_rules,
  value_rules, wrong_keys, before_colon,
}

abbrev keys : List Text → List Text
keys ps = map before_colon ps

keys-append : (xs ys : List Text) → keys (xs ++ ys) ≡ keys xs ++ keys ys
keys-append [] ys = refl
keys-append (x ∷ xs) ys = ap (λ l. before_colon x ∷ l) (keys-append xs ys)

before_colon-key : (key rest : Text) → Lacks b':' key → before_colon (key ++ b':' ∷ rest) ≡ key
unfolding before_colon lacks
before_colon-key [] rest h = ground arith
before_colon-key (c ∷ key) rest h =
    let other : (c == b':') ≡ false = ground arith in
    rw other (ap (λ t. c ∷ t) (before_colon-key key rest (ground arith)))

keys-problem : (key what : Text) → Lacks b':' key → keys (problem key what) ≡ key ∷ []
unfolding codes
keys-problem key what h = ap (λ t. t ∷ []) (before_colon-key key _ h)

module _ (key : Text) (h : Lacks b':' key) where
  keys-problem_if : (b : Bool) (what : Text) → keys (problem_if b key what) ≡ key_if b key
  keys-problem_if true what = keys-problem key what h
  keys-problem_if false what = refl

  -- A problem whose test is the rule's in other words.
  keys-checked :
      (b broken : Bool) (what : Text)
      → b ≡ broken
      → keys (problem_if b key what) ≡ key_if broken key
  keys-checked b broken what same = keys-problem_if b what ∙ ap (λ x. key_if x key) same

  keys-within :
      (lo hi n : ℤ) (what : Text)
      → keys (problem_if (ltb_ℤ n lo || ltb_ℤ hi n) key what) ≡ key_if (not (within lo hi n)) key
  keys-within lo hi n what =
      keys-checked (ltb_ℤ n lo || ltb_ℤ hi n) (not (within lo hi n)) what (ground arith)

  keys-positive :
      (hi n : ℤ) (what : Text)
      → keys (problem_if (leb_ℤ n (pos 0) || ltb_ℤ hi n) key what)
        ≡ key_if (not (within (pos 1) hi n)) key
  keys-positive hi n what =
      keys-checked (leb_ℤ n (pos 0) || ltb_ℤ hi n) (not (within (pos 1) hi n)) what (ground arith)

keys-parsed_with :
    (std : Standard) (key : Text) (d : ℤ) (expected : Text) (parse : Text → Option ℤ)
    (o : Option Text)
    → Lacks b':' key
    → keys (parsed_with std key d expected parse o).1 ≡ key_if (unreadable parse o) key
keys-parsed_with std key d expected parse none h = refl
keys-parsed_with std key d expected parse (some []) h = refl
keys-parsed_with std key d expected parse (some (c ∷ v)) h = elim (Option-cases (parse (c ∷ v))) [
  | inl bad ↦ rw bad (rw (bad, unreadable) (keys-problem key _ h))
  | inr (n, good) ↦ rw good (rw (good, unreadable) refl)
]

module _ (std : Standard) (env : Env) (key : Text) (h : Lacks b':' key) where
  keys-require_string : keys (require_string env key).1 ≡ key_if (missing (env key)) key
  unfolding require_string
  keys-require_string = elim (Option-cases (env key)) [
    | inl absent ↦ rw (absent, require_string) (keys-problem key _ h)
    | inr ([], given) ↦ rw (given, require_string) (keys-problem key _ h)
    | inr (c ∷ v, given) ↦ rw (given, require_string) refl
  ]

  module _ (d : ℤ) where
    keys-int_or_default :
        keys (int_or_default std env key d).1 ≡ key_if (unreadable atoi (env key)) key
    unfolding int_or_default
    keys-int_or_default = keys-parsed_with std key d _ atoi (env key) h

    keys-int64_or_default :
        keys (int64_or_default std env key d).1 ≡ key_if (unreadable atoi (env key)) key
    unfolding int64_or_default
    keys-int64_or_default = keys-parsed_with std key d _ atoi (env key) h

    keys-duration_or_default :
        keys (duration_or_default std env key d).1
        ≡ key_if (unreadable std.parse_duration (env key)) key
    unfolding duration_or_default
    keys-duration_or_default = keys-parsed_with std key d _ std.parse_duration (env key) h

outside-http :
    (u : Url)
    → (not u.absolute
        || ((not (text_eq u.scheme (codes "http")) && not (text_eq u.scheme (codes "https")))
            || is_empty u.host))
      ≡ not (is_http u)
outside-http u = ground arith

module _ (std : Standard) (env : Env) where
  keys-read_config : keys (read_config std env).1 ≡ broken_keys (reading_rules std env)
  unfolding read_config lacks codes
  keys-read_config = simp (
    keys-append,
    keys-int_or_default std env (codes "SMTP_PORT") refl,
    keys-require_string std env (codes "SMTP_USER") refl,
    keys-require_string std env (codes "SMTP_PASSWORD") refl,
    keys-int64_or_default std env (codes "SMTP_MAX_MESSAGE_BYTES") refl,
    keys-int_or_default std env (codes "SMTP_MAX_RECIPIENTS") refl,
    keys-duration_or_default std env (codes "SMTP_READ_TIMEOUT") refl,
    keys-duration_or_default std env (codes "SMTP_WRITE_TIMEOUT") refl,
    keys-duration_or_default std env (codes "CLOUDFLARE_TIMEOUT") refl,
    keys-int_or_default std env (codes "CLOUDFLARE_MAX_RETRIES") refl,
    keys-int_or_default std env (codes "HEALTH_PORT") refl,
    append-nil,
  )

  keys-port :
      (port : ℤ) (key : Text)
      → Lacks b':' key
      → keys (validate_port_range port key) ≡ key_if (not (within (pos 1) (pos 65535) port)) key
  unfolding validate_port_range
  keys-port port key h = keys-within key h (pos 1) (pos 65535) port _

  keys-limits :
      (c : Config)
      → keys (check_limits c)
        ≡ broken_keys (
            (
              not (within (pos 1) (pos 5242880) c.smtp_max_message_bytes),
              codes "SMTP_MAX_MESSAGE_BYTES",
            )
            ∷ (not (within (pos 1) (pos 50) c.smtp_max_recipients), codes "SMTP_MAX_RECIPIENTS")
            ∷ (
              not (within (pos 0) (pos 5) c.cloudflare_max_retries),
              codes "CLOUDFLARE_MAX_RETRIES",
            )
            ∷ [])
  unfolding check_limits lacks codes
  keys-limits c = simp (
    keys-append,
    keys-positive (codes "SMTP_MAX_MESSAGE_BYTES") refl (pos 5242880) c.smtp_max_message_bytes,
    keys-positive (codes "SMTP_MAX_RECIPIENTS") refl (pos 50) c.smtp_max_recipients,
    keys-within (codes "CLOUDFLARE_MAX_RETRIES") refl (pos 0) (pos 5) c.cloudflare_max_retries,
    append-nil,
  )

  keys-pair :
      (c : Config)
      → keys (check_pair c)
        ≡ broken_keys (
            (is_empty c.smtp_tls_cert && not (is_empty c.smtp_tls_key), codes "SMTP_TLS_CERT")
            ∷ (not (is_empty c.smtp_tls_cert) && is_empty c.smtp_tls_key, codes "SMTP_TLS_KEY")
            ∷ [])
  unfolding check_pair lacks codes before_colon
  keys-pair c = elim (Bool-cases (is_empty c.smtp_tls_cert)) [
    | inl no_cert ↦ elim (Bool-cases (is_empty c.smtp_tls_key)) [
      | inl no_key ↦ rw (no_cert, no_key, check_pair) refl
      | inr a_key ↦ rw (no_cert, a_key, check_pair) refl
    ]
    | inr a_cert ↦ elim (Bool-cases (is_empty c.smtp_tls_key)) [
      | inl no_key ↦ rw (a_cert, no_key, check_pair) refl
      | inr a_key ↦ rw (a_cert, a_key, check_pair) refl
    ]
  ]

  keys-level :
      (raw : Text)
      → keys (check_level std raw)
        ≡ key_if (not (is_level (to_lower std.unicode raw))) (codes "LOG_LEVEL")
  unfolding check_level lacks codes
  keys-level raw = keys-problem_if (codes "LOG_LEVEL") refl _ _

  keys-url :
      (raw key : Text)
      → Lacks b':' key
      → keys (validate_absolute_http_url std raw key) ≡ key_if (not (is_http_url std raw)) key
  unfolding validate_absolute_http_url
  keys-url raw key h = elim (Fallible-cases (std.parse_url raw)) [
    | inr (e, bad) ↦
        rw (bad, validate_absolute_http_url) (rw (bad, is_http_url) (keys-problem key _ h))
    | inl (u, good) ↦
        rw (good, validate_absolute_http_url)
          (rw (good, is_http_url) (keys-checked key h _ _ _ (outside-http u)))
  ]

  keys-worker_url :
      (c : Config)
      → keys (
          if is_empty c.worker_url
          then problem_if
              (is_empty c.worker_url)
              (codes "WORKER_URL")
              (codes "required when CLOUDFLARE_TRANSPORT is " ++ std.quote transport_worker)
          else validate_absolute_http_url std c.worker_url (codes "WORKER_URL"))
        ≡ key_if (is_empty c.worker_url || not (is_http_url std c.worker_url)) (codes "WORKER_URL")
  unfolding lacks codes
  keys-worker_url c = elim (Bool-cases (is_empty c.worker_url)) [
    | inl no_url ↦ rw no_url (keys-problem (codes "WORKER_URL") _ refl)
    | inr a_url ↦ rw a_url (keys-url c.worker_url (codes "WORKER_URL") refl)
  ]

  keys-transport : (c : Config) → keys (check_transport std c) ≡ broken_keys (transport_rules std c)
  unfolding check_transport lacks codes text_eq
  keys-transport c = elim (Bool-cases (text_eq c.cloudflare_transport transport_rest)) [
    | inl by_rest ↦
        let not_worker : text_eq c.cloudflare_transport transport_worker ≡ false =
          rw ((text_eq_iff c.cloudflare_transport transport_rest).0 by_rest) refl in
        rw (by_rest, not_worker, check_transport)
          (simp (
            keys-append,
            keys-problem_if (codes "CLOUDFLARE_ACCOUNT_ID") refl,
            keys-problem_if (codes "CLOUDFLARE_API_TOKEN") refl,
            append-nil,
          ))
    | inr other ↦ elim (Bool-cases (text_eq c.cloudflare_transport transport_worker)) [
      | inr neither ↦
          rw (other, neither, check_transport) (keys-problem (codes "CLOUDFLARE_TRANSPORT") _ refl)
      | inl by_worker ↦
          rw (other, by_worker, check_transport)
            (simp (
              keys-append,
              keys-worker_url c,
              keys-problem_if (codes "WORKER_SECRET") refl,
              append-nil,
            ))
    ]
  ]

  keys-check_config :
      (c : Config)
      → keys (check_config std env c) ≡ broken_keys (value_rules std (raw_log_level env) c)
  unfolding check_config lacks codes
  keys-check_config c = simp (
    keys-append,
    keys-port c.smtp_port (codes "SMTP_PORT") refl,
    keys-port c.health_port (codes "HEALTH_PORT") refl,
    keys-limits c,
    keys-pair c,
    keys-level (raw_log_level env),
    keys-transport c,
    append_assoc,
    append-nil,
  )

  pub keys-problems :
      map before_colon ((read_config std env).1 ++ check_config std env (read_config std env).0)
      ≡ wrong_keys std env
  keys-problems =
      keys-append (read_config std env).1 _
      ∙ rw (keys-read_config, keys-check_config (read_config std env).0) refl

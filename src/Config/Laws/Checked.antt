-- ===== src/Config/Laws/Checked.antt =====
-- Laws of the checks of `loadFrom` (internal/config/config.go), one by one.
use cloudflare_smtp_relay.Shared.{
  ◌≡◌, refl, sym, ◌∙◌, inl, inr, Bool, true, false, not, ◌&&◌, ◌||◌, List, [], ◌∷◌, ◌++◌, arith,
  Bool-cases,
}
use cloudflare_smtp_relay.Shared.Int.{ℤ, pos, ltb_ℤ, leb_ℤ}
use cloudflare_smtp_relay.Shared.Text.{Text, codes, text_eq, is_empty}
use cloudflare_smtp_relay.Email.Errors.{ok, failed, Fallible-cases}
use cloudflare_smtp_relay.Config.{transport_rest, transport_worker, Standard, Config}
use cloudflare_smtp_relay.Config.Checks.{
  problem_if, within, is_http, validate_port_range, validate_absolute_http_url,
  cloudflare_max_message_bytes, cloudflare_max_recipients, check_limits, check_pair,
  check_transport,
}

pub is_empty-append : (xs ys : List Text) → is_empty (xs ++ ys) ≡ (is_empty xs && is_empty ys)
is_empty-append [] ys = refl
is_empty-append (x ∷ xs) ys = refl

-- The limits that a loaded configuration keeps.
pub record IsLimited (c : Config) : Type 0 where
  pub smtp_port : within (pos 1) (pos 65535) c.smtp_port ≡ true
  pub health_port : within (pos 1) (pos 65535) c.health_port ≡ true
  pub bytes : within (pos 1) cloudflare_max_message_bytes c.smtp_max_message_bytes ≡ true
  pub recipients : within (pos 1) cloudflare_max_recipients c.smtp_max_recipients ≡ true
  pub retries : within (pos 0) (pos 5) c.cloudflare_max_retries ≡ true

-- The URL parses, as an absolute one of http or https with a host.
abbrev pub is_http_url : Standard → Text → Bool
is_http_url std raw = elim (std.parse_url raw) [ failed e ↦ false | ok u ↦ is_http u ]

-- The transport is one of the two, with all that its adapter requires.
abbrev pub is_transport : Standard → Config → Bool
is_transport std c =
    (text_eq c.cloudflare_transport transport_rest
      && (not (is_empty c.cloudflare_account_id) && not (is_empty c.cloudflare_api_token)))
    || (text_eq c.cloudflare_transport transport_worker
        && (not (is_empty c.worker_url)
            && (is_http_url std c.worker_url && not (is_empty c.worker_secret))))

pub is_empty-problem_if : (b : Bool) (key what : Text) → is_empty (problem_if b key what) ≡ not b
is_empty-problem_if true key what = refl
is_empty-problem_if false key what = refl

pub out_of_range : (lo hi n : ℤ) → not (ltb_ℤ n lo || ltb_ℤ hi n) ≡ within lo hi n
out_of_range lo hi n = ground arith

pub not_positive : (hi n : ℤ) → not (leb_ℤ n (pos 0) || ltb_ℤ hi n) ≡ within (pos 1) hi n
not_positive hi n = ground arith

pub port_lem :
    (port : ℤ) (key : Text)
    → is_empty (validate_port_range port key) ≡ within (pos 1) (pos 65535) port
unfolding validate_port_range
port_lem port key = rw is_empty-problem_if (out_of_range (pos 1) (pos 65535) port)

pub limits_lem :
    (c : Config)
    → is_empty (check_limits c) ≡ (
        within (pos 1) cloudflare_max_message_bytes c.smtp_max_message_bytes
        && (within (pos 1) cloudflare_max_recipients c.smtp_max_recipients
            && within (pos 0) (pos 5) c.cloudflare_max_retries))
unfolding check_limits
limits_lem c =
    rw
      (
        is_empty-append, is_empty-append, is_empty-problem_if, is_empty-problem_if,
        is_empty-problem_if,
      )
      (rw
        (
          not_positive cloudflare_max_message_bytes c.smtp_max_message_bytes,
          not_positive cloudflare_max_recipients c.smtp_max_recipients,
          out_of_range (pos 0) (pos 5) c.cloudflare_max_retries,
        )
        refl)

pub url_lem :
    (std : Standard) (raw key : Text)
    → is_empty (validate_absolute_http_url std raw key) ≡ is_http_url std raw
unfolding validate_absolute_http_url
url_lem std raw key = elim (Fallible-cases (std.parse_url raw)) [
  | inr (e, bad) ↦ rw (bad, validate_absolute_http_url) (rw (bad, is_http_url) refl)
  | inl (u, parsed) ↦
      rw (parsed, validate_absolute_http_url)
        (rw is_empty-problem_if (rw (parsed, is_http_url) (ground arith)))
]

pub limited_lem :
    (c : Config)
    → is_empty (validate_port_range c.smtp_port (codes "SMTP_PORT")) ≡ true
    → is_empty (validate_port_range c.health_port (codes "HEALTH_PORT")) ≡ true
    → is_empty (check_limits c) ≡ true
    → IsLimited c
limited_lem c smtp health limits =
    let all = rw (limits_lem c) at limits in
    record {
      smtp_port = sym (port_lem c.smtp_port (codes "SMTP_PORT")) ∙ smtp;
      health_port = sym (port_lem c.health_port (codes "HEALTH_PORT")) ∙ health;
      bytes = ground arith;
      recipients = ground arith;
      retries = ground arith;
    }

pub pair_lem :
    (c : Config)
    → is_empty (check_pair c) ≡ true
    → is_empty c.smtp_tls_cert ≡ is_empty c.smtp_tls_key
unfolding check_pair
pair_lem c h = ground arith

pub transport_lem :
    (std : Standard) (c : Config)
    → is_empty (check_transport std c) ≡ true
    → is_transport std c ≡ true
unfolding check_transport
transport_lem std c h = elim (Bool-cases (text_eq c.cloudflare_transport transport_rest)) [
  | inl rest ↦
      let both = rw (rest, is_empty-append, is_empty-problem_if, is_empty-problem_if) at h in
      ground arith
  | inr other ↦ elim (Bool-cases (text_eq c.cloudflare_transport transport_worker)) [
    | inr neither ↦ absurd (cc (rw (other, neither) at h))
    | inl worker ↦ elim (Bool-cases (is_empty c.worker_url)) [
      | inl missing ↦ absurd (cc (rw (other, worker, missing) at h))
      | inr given ↦
          let both =
            rw
              (
                other,
                worker,
                given,
                is_empty-append,
                url_lem std c.worker_url (codes "WORKER_URL"),
                is_empty-problem_if,
              )
              at h in
          ground arith
    ]
  ]
]

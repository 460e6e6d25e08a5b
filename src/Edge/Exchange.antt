-- ===== src/Edge/Exchange.antt =====
-- One request of the Worker adapter (internal/cloudflare/worker.go) to the Worker
-- (worker/src/index.js).
use cloudflare_smtp_relay.Shared.{◌≡◌, refl, inl, inr, false, Option, none, some, Option-cases}
use cloudflare_smtp_relay.Shared.Text.{Text, codes, text_eq_refl, is_empty}
use cloudflare_smtp_relay.Email.Message.{Message}
use cloudflare_smtp_relay.Cloudflare.Loop.{Request}
use cloudflare_smtp_relay.Cloudflare.Rest.{json_post}
use cloudflare_smtp_relay.Edge.{
  max_body_bytes, Env, HttpRequest, Answer, refuse, or_else, answer_of, fetch,
}
use cloudflare_smtp_relay.Edge.Secret.{authorized-bearer}
use cloudflare_smtp_relay.Edge.Values.{Json, Runtime}
use cloudflare_smtp_relay.Edge.Binding.{BindingMessage}
use cloudflare_smtp_relay.Edge.Relayed.{relayed_json, complaint, binding_of, IsAddressed}
use cloudflare_smtp_relay.Edge.Relayed.Laws.{to_binding_message-relayed_json}

-- The Worker's view of a request, whose body has this length and parses to this value.
abbrev pub seen : Request → Text → Json → HttpRequest
seen r content_length json = record {
  method = r.method;
  authorization = some r.authorization;
  content_length = some content_length;
  json = some json;
}

-- What the Worker does with a message that the relay sends.
abbrev pub handled : Env → Message → Answer × Option BindingMessage
handled env m = elim (complaint m) [
  | none ↦ (answer_of (env.send (binding_of m)), some (binding_of m))
  | some why ↦ refuse 400 (codes "E_INVALID_REQUEST") why
]

module _ (js : Runtime) (env : Env) (url secret payload size : Text) (m : Message) where
  -- Where the relay and the Worker have the same secret, the body is not too big and reads as the
  -- JSON that the relay sent, and each recipient has an address: the binding is given the message
  -- that says the same as the relay's, field by field, and the Worker answers what the binding
  -- makes of it; or, if the sender, every recipient, the subject or both bodies are missing, the
  -- binding is given none, and the answer has status 400 and the first of these.
  pub fetch-relayed :
      env.relay_secret ≡ some secret
      → is_empty secret ≡ false
      → js.exceeds (or_else (some size) (codes "0")) max_body_bytes ≡ false
      → IsAddressed m.to
      → IsAddressed m.cc
      → IsAddressed m.bcc
      → fetch js env (seen (json_post url secret payload) size (relayed_json m)) ≡ handled env m
  unfolding fetch
  fetch-relayed shared filled small ht hc hb =
      rw (shared, filled, text_eq_refl (codes "POST"), fetch)
        (rw (authorized-bearer secret, small, to_binding_message-relayed_json js m ht hc hb)
          (elim (Option-cases (complaint m)) [
            | inl fine ↦ rw (filled, fine) (rw (fine, handled) refl)
            | inr (why, bad) ↦ rw (filled, bad) (rw (bad, handled) refl)
          ]))

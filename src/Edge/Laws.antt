-- ===== src/Edge/Laws.antt =====
-- Laws of the Worker (worker/src/index.js).
use cloudflare_smtp_relay.Shared.{
  ℕ, ◌≡◌, refl, ◌↔◌, true, false, Option, none, some, [], ◌∷◌, ◌++◌, inl, inr, Bool-cases,
  Option-cases, All, ◌⊎◌,
}
use cloudflare_smtp_relay.Shared.Text.{Text, codes, text_eq, text_eq_iff, is_empty}
use cloudflare_smtp_relay.Edge.{
  Answer, refuse, max_body_bytes, Env, HttpRequest, or_else, answer_of, fetch,
}
use cloudflare_smtp_relay.Edge.Secret.{authorized, IsUnits, authorized_iff}
use cloudflare_smtp_relay.Edge.Values.{Runtime, Json}
use cloudflare_smtp_relay.Edge.Binding.{Attempt, done, thrown, BindingMessage, to_binding_message}

-- What must hold of a request whose message reaches the binding, besides its credentials.
pub record IsAdmitted (js : Runtime) (env : Env) (request : HttpRequest) (message : BindingMessage)
    : Type 0 where
  pub post : request.method ≡ codes "POST"
  pub configured : is_empty (or_else env.relay_secret []) ≡ false
  pub small : js.exceeds (or_else request.content_length (codes "0")) max_body_bytes ≡ false
  pub payload : Json
  pub parsed : request.json ≡ some payload
  pub translated : to_binding_message js payload ≡ done message

Attempt-cases :
    {A : Type 0} (r : Attempt A) → ((a : A) × (r ≡ done a)) ⊎ ((why : Text) × (r ≡ thrown why))
Attempt-cases (done a) = inl (a, refl)
Attempt-cases (thrown why) = inr (why, refl)

-- What holds of every answer before the binding is reached, and of what the binding makes of a
-- message that is admitted, holds of what `fetch` does.
pub fetch-P {ℓ} :
    (P : Answer × Option BindingMessage → Type ℓ) (js : Runtime) (env : Env) (request : HttpRequest)
    → ((status : ℕ) (code error : Text) → P (refuse status code error))
    → ((message : BindingMessage)
        → authorized request.authorization (or_else env.relay_secret []) ≡ true
        → IsAdmitted js env request message
        → P (answer_of (env.send message), some message))
    → P (fetch js env request)
unfolding fetch
fetch-P P js env request early admitted =
    elim (Bool-cases (text_eq request.method (codes "POST"))) [
      | inr other ↦ rw (other, fetch) (early _ _ _)
      | inl post ↦ elim (Bool-cases (is_empty (or_else env.relay_secret []))) [
        | inl unset ↦ rw (post, unset, fetch) (early _ _ _)
        | inr configured ↦
            elim (Bool-cases (authorized request.authorization (or_else env.relay_secret []))) [
              | inr stranger ↦ rw (post, configured, stranger, fetch) (early _ _ _)
              | inl known ↦
                  elim (Bool-cases
                    (js.exceeds (or_else request.content_length (codes "0")) max_body_bytes)) [
                      | inl big ↦ rw (post, configured, known, big, fetch) (early _ _ _)
                      | inr small ↦ elim (Option-cases request.json) [
                        | inl broken ↦
                            rw (post, configured, known, small, broken, fetch) (early _ _ _)
                        | inr (payload, parsed) ↦
                            elim (Attempt-cases (to_binding_message js payload)) [
                              | inr (why, bad) ↦
                                  rw (post, configured, known, small, parsed, bad, fetch)
                                    (early _ _ _)
                              | inl (message, translated) ↦
                                  rw (post, configured, known, small, parsed, translated, fetch)
                                    (admitted message known (record {
                                      post = (text_eq_iff request.method (codes "POST")).0 post;
                                      configured = configured;
                                      small = small;
                                      payload = payload;
                                      parsed = parsed;
                                      translated = translated;
                                    }))
                            ]
                      ]
                    ]
            ]
      ]
    ]

module _ (js : Runtime) (env : Env) (request : HttpRequest) where
  pub fetch-admits :
      (message : BindingMessage)
      → authorized request.authorization (or_else env.relay_secret []) ≡ true
      → IsAdmitted js env request message
      → fetch js env request ≡ (answer_of (env.send message), some message)
  unfolding fetch
  fetch-admits message known a =
      rw ((text_eq_iff request.method (codes "POST")).1 a.post, a.configured, fetch)
        (rw (known, a.small, a.parsed, a.translated) refl)

  fetch-IsAdmitted :
      (message : BindingMessage)
      → (fetch js env request).1 ≡ some message
      → (authorized request.authorization (or_else env.relay_secret []) ≡ true)
        × IsAdmitted js env request message
  fetch-IsAdmitted message =
      fetch-P
        (λ r.
          r.1 ≡ some message
          → (authorized request.authorization (or_else env.relay_secret []) ≡ true)
            × IsAdmitted js env request message)
        js env request (λ status code error e. absurd (cc e))
        (λ m known a e. let same : message ≡ m = cc e in (known, rw same a))

  -- A message is given to the binding exactly if the request is a POST, the Worker has a secret
  -- that is not empty, the header is "Bearer " and the secret, the body is not declared too big,
  -- it is JSON, and it translates to the message. Units of strings are assumed to fit 32 bits.
  pub fetch_iff :
      (message : BindingMessage)
      → All IsUnits (elim request.authorization [ some h ↦ h ∷ [] | none ↦ [] ])
      → IsUnits (or_else env.relay_secret [])
      → ((fetch js env request).1 ≡ some message) ↔ (
          (request.authorization ≡ some (codes "Bearer " ++ or_else env.relay_secret []))
          × IsAdmitted js env request message)
  fetch_iff message hh hs = (
    λ e.
        let (known, a) = fetch-IsAdmitted message e in
        (
          (authorized_iff request.authorization (or_else env.relay_secret []) hh hs a.configured).0
              known,
          a,
        ),
    λ (bearer, a).
        let known =
          (authorized_iff request.authorization (or_else env.relay_secret []) hh hs a.configured).1
            bearer in
        rw (fetch-admits message known a) refl,
  )

-- ===== src/Email/Parse/Headers.antt =====
-- Laws of `resolveFrom` and `extractHeaders` (internal/email/parse.go).
use cloudflare_smtp_relay.Shared.{
  ◌≡◌, refl, ◌⊎◌, inl, inr, Bool, true, false, Option, none, some, List, [], ◌∷◌, arith,
  if◌then◌else◌, Bool-cases,
}
use cloudflare_smtp_relay.Shared.Text.{
  Text, codes, text_eq, text_eq_iff, contains, Unicode, to_lower, trim_space, equal_fold,
}
use cloudflare_smtp_relay.Email.Errors.{Fallible, ok, failed}
use cloudflare_smtp_relay.Email.Message.{Address, HeaderMap}
use cloudflare_smtp_relay.Email.Parse.{
  Field, Header, excluded_headers, or_else, resolve_from, set_header, extract_headers,
}

-- The sender of the message is the envelope's sender, whatever the From header says.
pub resolve_from-address :
    (u : Unicode) (h : Header) (envelope_from : Text)
    → (resolve_from u h envelope_from).address ≡ trim_space u envelope_from
unfolding resolve_from
resolve_from-address u h envelope_from = ground arith

-- A display name is adopted only of the first From address, where that is the envelope's sender
-- but for case; in all other cases there is none.
pub resolve_from-name :
    (u : Unicode) (h : Header) (envelope_from : Text)
    → ((resolve_from u h envelope_from).name ≡ [])
      ⊎ ((a : Address) × (addrs : List Address) × (h.address_list (codes "From") ≡ ok (a ∷ addrs))
          × (equal_fold u a.address (trim_space u envelope_from) ≡ true)
          × ((resolve_from u h envelope_from).name ≡ a.name))
unfolding resolve_from
resolve_from-name u h envelope_from = go (h.address_list (codes "From")) refl
  where
    go :
        (r : Fallible (List Address))
        → h.address_list (codes "From") ≡ r
        → ((resolve_from u h envelope_from).name ≡ [])
          ⊎ ((a : Address) × (addrs : List Address) × (h.address_list (codes "From")
                ≡ ok (a ∷ addrs))
              × (equal_fold u a.address (trim_space u envelope_from) ≡ true)
              × ((resolve_from u h envelope_from).name ≡ a.name))
    go (failed e) q = inl (rw (q, resolve_from))
    go (ok []) q = inl (rw (q, resolve_from))
    go (ok (a ∷ addrs)) q =
        elim (Bool-cases (equal_fold u a.address (trim_space u envelope_from))) [
          | inl same ↦ inr (a, addrs, q, same, rw (q, resolve_from) (rw same))
          | inr other ↦ inl (rw (q, resolve_from) (rw other))
        ]

-- Go's `m[k]`, with its presence.
abbrev pub get_header : Text → HeaderMap → Option Text
get_header k [] = none
get_header k ((j, w) ∷ m) = if text_eq k j then some w else get_header k m

-- The value of the last field of a key.
abbrev pub last_field : Text → Option Text → List Field → Option Text
last_field k found [] = found
last_field k found (f ∷ fields) =
    last_field k (if text_eq k f.key then some (or_else f.text f.value) else found) fields

get_header-set_header :
    (k j v : Text) (m : HeaderMap)
    → get_header k (set_header j v m) ≡ (if text_eq k j then some v else get_header k m)
unfolding set_header
get_header-set_header k j v [] = refl
get_header-set_header k j v ((i, w) ∷ m) =
    ground (arith, text_eq_iff k j, text_eq_iff j i, text_eq_iff k i, get_header-set_header k j v m)

excluded_of_eq :
    (u : Unicode) (k j : Text) (b : Bool)
    → k ≡ j
    → contains (to_lower u j) excluded_headers ≡ b
    → contains (to_lower u k) excluded_headers ≡ b
excluded_of_eq u k j b e h = rw e h

get_header-extract_headers :
    (u : Unicode) (k : Text) (out : HeaderMap) (fields : List Field)
    → get_header k (extract_headers u out fields) ≡ (
        if contains (to_lower u k) excluded_headers
        then get_header k out
        else last_field k (get_header k out) fields)
unfolding extract_headers
get_header-extract_headers u k out [] = ground arith
get_header-extract_headers u k out (f ∷ fields) =
    let v = or_else f.text f.value in
    elim (Bool-cases (contains (to_lower u f.key) excluded_headers)) [
      | inl skipped ↦
          rw (skipped, get_header-extract_headers u k out fields)
            (elim (Bool-cases (text_eq k f.key)) [
              | inl same ↦ rw (excluded_of_eq u k f.key true ((text_eq_iff k f.key).0 same) skipped)
              | inr other ↦ rw other
            ])
      | inr kept ↦
          rw
            (
              kept,
              get_header-extract_headers u k (set_header f.key v out) fields,
              get_header-set_header k f.key v out,
            )
            (elim (Bool-cases (text_eq k f.key)) [
              | inl same ↦ rw (excluded_of_eq u k f.key false ((text_eq_iff k f.key).0 same) kept)
              | inr other ↦ rw other
            ])
    ]

-- The headers that are forwarded: none of a key that is excluded in any spelling, and of every
-- other key the value of its last field.
pub extract_headers_lem :
    (u : Unicode) (k : Text) (fields : List Field)
    → get_header k (extract_headers u [] fields)
      ≡ (if contains (to_lower u k) excluded_headers then none else last_field k none fields)
extract_headers_lem u k fields = get_header-extract_headers u k [] fields

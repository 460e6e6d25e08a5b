-- ===== src/Email/Parse/Laws.antt =====
-- Laws of `Parse` (internal/email/parse.go).
use cloudflare_smtp_relay.Shared.{
  ◌≡◌, refl, inl, inr, ◌&&◌, none, List, [], ◌++◌, arith, if◌then◌else◌, Option-cases, length,
}
use cloudflare_smtp_relay.Shared.Int.{ℤ}
use cloudflare_smtp_relay.Shared.Text.{
  Text, codes, contains, IsDistinct, Unicode, to_lower, trim_space,
}
use cloudflare_smtp_relay.Email.Errors.{ok, Fallible-cases}
use cloudflare_smtp_relay.Email.Message.{Message}
use cloudflare_smtp_relay.Email.Recipients.Assign.{keys, envelope_keys}
use cloudflare_smtp_relay.Email.Recipients.Laws.{split_recipients_partition, split_recipients_plain}
use cloudflare_smtp_relay.Email.Parse.{
  Bodies, Created, excluded_headers, header_addresses, read_body_parts, create_fatal, assemble,
  parse,
}
use cloudflare_smtp_relay.Email.Parse.Headers.{
  resolve_from-address, get_header, last_field, extract_headers_lem,
}
use cloudflare_smtp_relay.Email.Parse.Parts.{
  succeeds, can_read_header, is_none-create_fatal, all_readable, succeeds-read_body_parts,
  last_body, is_plain, is_html, read_body_parts_lem,
}

module _ (u : Unicode) (create_reader : Text → Created) (now : ℤ) (raw envelope_from : Text)
    (rcpts : List Text) where
  -- Parse succeeds exactly when the header comes with no error but an unknown charset, each part
  -- with none but an unknown charset or an unknown encoding, and the body of each inline part can
  -- be read.
  pub succeeds-parse :
      succeeds (parse u create_reader now raw envelope_from rcpts)
      ≡ (can_read_header (create_reader raw).err && all_readable (create_reader raw).reader.parts)
  unfolding parse
  succeeds-parse = elim (Option-cases (create_fatal (create_reader raw).err)) [
    | inr (e, fatal) ↦ rw (← is_none-create_fatal (create_reader raw).err) (rw (fatal, parse) refl)
    | inl fine ↦
        rw
          (
            ← is_none-create_fatal (create_reader raw).err,
            ← succeeds-read_body_parts (create_reader raw).reader.parts
                (record { text = []; html = [] }),
          )
          (elim (Fallible-cases
            (read_body_parts (create_reader raw).reader.parts (record { text = []; html = [] }))) [
              | inl (b, read) ↦ rw (fine, read, parse) refl
              | inr (e, broken) ↦ rw (fine, broken, parse) refl
            ])
  ]

  -- A message that `Parse` returns was assembled from the bodies that were read.
  parse-eq-ok :
      {m : Message}
      → parse u create_reader now raw envelope_from rcpts ≡ ok m
      → (b : Bodies) × (read_body_parts
            (create_reader raw).reader.parts
            (record { text = []; html = [] })
          ≡ ok b)
        × (assemble u (length raw) now (create_reader raw).reader.header envelope_from rcpts b ≡ m)
  unfolding parse
  parse-eq-ok h = elim (Option-cases (create_fatal (create_reader raw).err)) [
    | inr (e, fatal) ↦ absurd (cc (rw (fatal, parse) at h))
    | inl fine ↦
        elim (Fallible-cases
          (read_body_parts (create_reader raw).reader.parts (record { text = []; html = [] }))) [
            | inl (b, read) ↦ (b, read, ground arith)
            | inr (e, broken) ↦ absurd (ground arith)
          ]
  ]

  -- A message that Parse returns has the envelope's sender, goes to every recipient of the
  -- envelope that is not blank, to each once and to nobody else; of a key that the provider
  -- rebuilds it forwards no header, and of any other the last field; and its bodies are the last
  -- text/plain and text/html parts.
  pub parse_lem :
      (k : Text) {m : Message}
      → parse u create_reader now raw envelope_from rcpts ≡ ok m
      → (m.from.address ≡ trim_space u envelope_from)
        × (contains k ((keys u m.to ++ keys u m.cc) ++ keys u m.bcc)
            ≡ contains k (envelope_keys u rcpts))
        × IsDistinct ((keys u m.to ++ keys u m.cc) ++ keys u m.bcc)
        × (get_header k m.headers ≡ (
            if contains (to_lower u k) excluded_headers
            then none
            else last_field k none (create_reader raw).reader.header.fields))
        × (m.text ≡ last_body is_plain [] (create_reader raw).reader.parts)
        × (m.html ≡ last_body is_html [] (create_reader raw).reader.parts)
        × (m.size ≡ length raw)
  unfolding assemble
  parse_lem k h =
      let (b, read, built) = parse-eq-ok h in
      let head = (create_reader raw).reader.header in
      let (all, once) =
        split_recipients_partition u (header_addresses head (codes "To"))
          (header_addresses head (codes "Cc")) rcpts k in
      let (text, html) = read_body_parts_lem (create_reader raw).reader.parts _ read in
      rw (← built) (
        resolve_from-address u head envelope_from,
        all,
        once,
        extract_headers_lem u k head.fields,
        text,
        html,
        refl,
      )

  -- Where neither the To nor the Cc header yields an address, because it is missing, because it is
  -- malformed, or because it names an empty group, the To list has every recipient of the
  -- envelope.
  pub parse_plain :
      (k : Text) {m : Message}
      → parse u create_reader now raw envelope_from rcpts ≡ ok m
      → header_addresses (create_reader raw).reader.header (codes "To") ≡ []
      → header_addresses (create_reader raw).reader.header (codes "Cc") ≡ []
      → (contains k (keys u m.to) ≡ contains k (envelope_keys u rcpts)) × (m.cc ≡ []) × (m.bcc ≡ [])
  unfolding assemble
  parse_plain k h no_to no_cc =
      let (b, read, built) = parse-eq-ok h in
      rw (← built, no_to, no_cc) (split_recipients_plain u [] [] rcpts k refl)

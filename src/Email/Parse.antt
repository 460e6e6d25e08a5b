-- ===== src/Email/Parse.antt =====
-- internal/email/parse.go: from the bytes of a message and its envelope to a `Message`. The reader
-- of go-message is the parameter: what it finds of the header, and the results of `NextPart`, whose
-- list ends where `NextPart` returns io.EOF.
pub mod Headers
pub mod Parts
pub mod Laws
use cloudflare_smtp_relay.Shared.{
  ℕ, Bool, not, ◌&&◌, ◌||◌, Option, none, some, List, [], ◌∷◌, if◌then◌else◌, length,
}
use cloudflare_smtp_relay.Shared.Int.{ℤ}
use cloudflare_smtp_relay.Shared.Text.{
  Text, codes, text_eq, contains, Unicode, to_lower, trim_space, equal_fold, has_prefix,
}
use cloudflare_smtp_relay.Email.Errors.{Fault, wrapped, Fallible, ok, failed}
use cloudflare_smtp_relay.Email.Message.{Address, HeaderMap, Message}
use cloudflare_smtp_relay.Email.Recipients.{split_recipients}

-- One field of a header, by `Key`, `Text` and `Value` of go-message's iterator.
pub record Field : Type 0 where
  pub key : Text
  pub text : Fallible Text
  pub value : Text

-- The header as go-message reads it; the two functions are for a key, "To" or "Cc".
pub record Header : Type 0 where
  pub subject : Fallible Text
  pub message_id : Fallible Text
  pub text_of : Text → Fallible Text
  pub get : Text → Text
  pub address_list : Text → Fallible (List Address)
  pub fields : List Field

-- An error of go-message, with what `IsUnknownCharset` and `IsUnknownEncoding` say of it.
pub record ReadError : Type 0 where
  pub fault : Fault
  pub unknown_charset : Bool
  pub unknown_encoding : Bool

-- A part with an inline header, by its content type and what reading its body gives; or another.
pub data Part : Type 0 where
  inline : Text → Fallible Text → Part
  attachment : Part

-- One result of `NextPart`: a part or nil, and an error or nil.
pub record NextPart : Type 0 where
  pub part : Option Part
  pub err : Option ReadError

pub record Reader : Type 0 where
  pub header : Header
  pub parts : List NextPart

-- What `CreateReader` returns for the bytes of a message.
pub record Created : Type 0 where
  pub reader : Reader
  pub err : Option ReadError

abbrev pub excluded_headers : List Text
excluded_headers =
    codes "from"
    ∷ codes "to"
    ∷ codes "cc"
    ∷ codes "bcc"
    ∷ codes "subject"
    ∷ codes "message-id"
    ∷ codes "reply-to"
    ∷ codes "date"
    ∷ codes "mime-version"
    ∷ codes "content-type"
    ∷ codes "content-transfer-encoding"
    ∷ codes "content-disposition"
    ∷ codes "received"
    ∷ codes "return-path"
    ∷ []

abbrev or_else : Fallible Text → Text → Text
or_else (ok v) d = v
or_else (failed e) d = d

unfoldable pub resolve_from : Unicode → Header → Text → Address
resolve_from u h envelope_from =
    let address = trim_space u envelope_from in
    let from : Address = record { name = []; address = address } in
    elim (h.address_list (codes "From")) [
      | failed e ↦ from
      | ok [] ↦ from
      | ok (header_from ∷ addrs) ↦
          if equal_fold u header_from.address address
          then record { name = header_from.name; address = address }
          else from
    ]

unfoldable pub header_addresses : Header → Text → List Address
header_addresses h key = elim (h.address_list key) [ failed e ↦ [] | ok addrs ↦ addrs ]

-- Go's `out[key] = value`.
unfoldable pub set_header : Text → Text → HeaderMap → HeaderMap
set_header k v [] = (k, v) ∷ []
set_header k v ((j, w) ∷ m) = if text_eq k j then (j, v) ∷ m else (j, w) ∷ set_header k v m

unfoldable pub extract_headers : Unicode → HeaderMap → List Field → HeaderMap
extract_headers u out [] = out
extract_headers u out (f ∷ fields) =
    extract_headers u
      (if contains (to_lower u f.key) excluded_headers
        then out
        else set_header f.key (or_else f.text f.value) out)
      fields

-- The text and HTML bodies found so far.
pub record Bodies : Type 0 where
  pub text : Text
  pub html : Text

-- The `switch` on the content type.
unfoldable pub store_body : Text → Text → Bodies → Bodies
store_body content_type body b =
    if has_prefix content_type (codes "text/plain")
    then record b { text = body }
    else if has_prefix content_type (codes "text/html")
    then record b { html = body }
    else b

-- The loop body of `readBodyParts`, past its check of the error.
unfoldable pub take_part : Option Part → Bodies → Fallible Bodies
take_part none b = ok b
take_part (some attachment) b = ok b
take_part (some (inline content_type (failed e))) b =
    failed (wrapped (codes "email: read message part: ") e [])
take_part (some (inline content_type (ok body))) b = ok (store_body content_type body b)

-- An error that only says that a charset or an encoding is not known does not stop the loop.
abbrev pub is_fatal : Option ReadError → Option Fault
is_fatal none = none
is_fatal (some e) = if not e.unknown_charset && not e.unknown_encoding then some e.fault else none

unfoldable pub read_body_parts : List NextPart → Bodies → Fallible Bodies
read_body_parts [] b = ok b
read_body_parts (n ∷ parts) b = elim (is_fatal n.err) [
  | some e ↦ failed (wrapped (codes "email: parse message body: ") e [])
  | none ↦ elim (take_part n.part b) [ failed e ↦ failed e | ok b' ↦ read_body_parts parts b' ]
]

-- The message that `Parse` builds from the header, with the bodies read.
unfoldable pub assemble : Unicode → ℕ → ℤ → Header → Text → List Text → Bodies → Message
assemble u size now h envelope_from rcpts b =
    let r =
      split_recipients u (header_addresses h (codes "To")) (header_addresses h (codes "Cc"))
        rcpts in
    record {
      id = [];
      rfc_message_id = or_else h.message_id [];
      from = resolve_from u h envelope_from;
      to = r.to;
      cc = r.cc;
      bcc = r.bcc;
      reply_to = or_else (h.text_of (codes "Reply-To")) (h.get (codes "Reply-To"));
      subject = or_else h.subject (h.get (codes "Subject"));
      text = b.text;
      html = b.html;
      headers = extract_headers u [] h.fields;
      size = size;
      received_at = now;
    }

-- An error of `CreateReader` that only says that the charset is not known does not stop `Parse`.
abbrev pub create_fatal : Option ReadError → Option Fault
create_fatal none = none
create_fatal (some e) = if e.unknown_charset then none else some e.fault

-- `Parse`, with `create_reader` of go-message and the time that it reads.
unfoldable pub parse : Unicode → (Text → Created) → ℤ → Text → Text → List Text → Fallible Message
parse u create_reader now raw envelope_from rcpts =
    let c = create_reader raw in
    elim (create_fatal c.err) [
      | some e ↦ failed (wrapped (codes "email: parse message: ") e [])
      | none ↦ elim (read_body_parts c.reader.parts (record { text = []; html = [] })) [
        | failed e ↦ failed e
        | ok b ↦ ok (assemble u (length raw) now c.reader.header envelope_from rcpts b)
      ]
    ]

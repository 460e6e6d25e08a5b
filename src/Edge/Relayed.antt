-- ===== src/Edge/Relayed.antt =====
-- The relay's payload as JSON (the tags of internal/cloudflare/payload.go), and what the Worker
-- (worker/src/index.js) makes of it.
mod Reading
pub mod Laws
use cloudflare_smtp_relay.Shared.{
  ℕ, suc, ltb, length, ◌≡◌, refl, Bool, true, false, not, Option, none, some, List, [], ◌∷◌, ◌&&◌,
  arith, map, All, if◌then◌else◌, inl, inr, Bool-cases,
}
use cloudflare_smtp_relay.Shared.Text.{Text, codes, text_eq, is_empty}
use cloudflare_smtp_relay.Email.Message.{Address, HeaderMap, Message}
use cloudflare_smtp_relay.Cloudflare.Payload.{
  AddressPayload, SendPayload, to_address_payload, to_address_payloads, build_payload,
}
use cloudflare_smtp_relay.Edge.Values.{
  Json, null, string, array, object, Items, nil, cons, Fields, end, field, Runtime, truthy, present,
  find, get, has_keys,
}
use cloudflare_smtp_relay.Edge.Binding.{
  Attempt, done, thrown, BindingAddress, mailbox, BindingMessage, to_binding_address,
  to_binding_addresses, to_binding_address_list, complete, assemble, kept_headers, is_missing,
  with_sender, to_binding_message, object_address,
}

-- A field that `omitempty` drops if it is empty.
unfoldable pub optional : Text → Text → Fields → Fields
optional key s rest = if is_empty s then rest else field key (string s) rest

unfoldable pub json_of_address : AddressPayload → Json
json_of_address a =
    object (field (codes "address") (string a.address) (optional (codes "name") a.name end))

unfoldable pub items_of : List AddressPayload → Items
items_of [] = nil
items_of (a ∷ addrs) = cons (json_of_address a) (items_of addrs)

unfoldable pub optional_list : Text → Option (List AddressPayload) → Fields → Fields
optional_list key (some (a ∷ addrs)) rest = field key (array (items_of (a ∷ addrs))) rest
optional_list key (some []) rest = rest
optional_list key none rest = rest

unfoldable pub fields_of_headers : HeaderMap → Fields
fields_of_headers [] = end
fields_of_headers ((key, value) ∷ headers) = field key (string value) (fields_of_headers headers)

unfoldable pub optional_headers : Option HeaderMap → Fields → Fields
optional_headers (some (h ∷ headers)) rest =
    field (codes "headers") (object (fields_of_headers (h ∷ headers))) rest
optional_headers (some []) rest = rest
optional_headers none rest = rest

unfoldable pub json_of_payload : SendPayload → Json
json_of_payload p = object (
    field (codes "from") (json_of_address p.from) (
      field (codes "to") (array (items_of p.to)) (
        optional_list (codes "cc") p.cc (
          optional_list (codes "bcc") p.bcc (
            optional (codes "reply_to") p.reply_to (
              field (codes "subject") (string p.subject) (
                optional (codes "text") p.text
                  (optional (codes "html") p.html (optional_headers p.headers end)))))))))

-- A string that is not empty, as a value.
abbrev pub filled : Text → Option Json
filled s = if is_empty s then none else some (string s)

abbrev pub mailbox_of : Address → BindingAddress
mailbox_of a = mailbox (string a.address) (filled a.name)

-- Why the Worker refuses a message, if it does.
unfoldable pub complaint : Message → Option Text
complaint m =
    if is_empty m.from.address
    then some (codes "from is required")
    else if is_empty m.to && (is_empty m.cc && is_empty m.bcc)
    then some (codes "at least one recipient is required")
    else if is_empty m.subject
    then some (codes "subject is required")
    else if is_empty m.text && is_empty m.html
    then some (codes "either text or html is required")
    else none

abbrev pub json_of_headers : HeaderMap → Option Json
json_of_headers [] = none
json_of_headers (h ∷ headers) = some (object (fields_of_headers (h ∷ headers)))

-- The message for the binding that says what the message says.
abbrev pub binding_of : Message → BindingMessage
binding_of m = record {
  from = mailbox_of m.from;
  subject = string m.subject;
  to = map mailbox_of m.to;
  cc = map mailbox_of m.cc;
  bcc = map mailbox_of m.bcc;
  text = filled m.text;
  html = filled m.html;
  reply_to = filled m.reply_to;
  headers = json_of_headers m.headers;
}

-- The JSON that the relay sends for a message.
abbrev pub relayed_json : Message → Json
relayed_json m = json_of_payload (build_payload m)

-- Each of the addresses is there.
abbrev pub IsAddressed : List Address → Type 0
IsAddressed addrs = All (λ a. is_empty a.address ≡ false) addrs

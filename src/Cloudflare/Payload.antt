-- ===== src/Cloudflare/Payload.antt =====
-- internal/cloudflare/payload.go: the request body of both adapters. A field that `omitempty` drops
-- is an option where the code tells nil from an empty slice or map.
pub mod Laws
use cloudflare_smtp_relay.Shared.{
  ◌||◌, Option, none, some, List, [], ◌∷◌, ltb, if◌then◌else◌, length,
}
use cloudflare_smtp_relay.Shared.Text.{Text}
use cloudflare_smtp_relay.Email.Message.{Address, HeaderMap, Message}

pub record AddressPayload : Type 0 where
  pub address : Text
  pub name : Text

pub record SendPayload : Type 0 where
  pub from : AddressPayload
  pub to : List AddressPayload
  pub cc : Option (List AddressPayload)
  pub bcc : Option (List AddressPayload)
  pub reply_to : Text
  pub subject : Text
  pub text : Text
  pub html : Text
  pub headers : Option HeaderMap

unfoldable pub to_address_payload : Address → AddressPayload
to_address_payload a = record { address = a.address; name = a.name }

unfoldable pub to_address_payloads : List Address → List AddressPayload
to_address_payloads [] = []
to_address_payloads (a ∷ addrs) = to_address_payload a ∷ to_address_payloads addrs

unfoldable pub build_payload : Message → SendPayload
build_payload m = record {
  from = to_address_payload m.from;
  to = to_address_payloads m.to;
  cc = if ltb 0 (length m.cc) then some (to_address_payloads m.cc) else none;
  bcc = if ltb 0 (length m.bcc) then some (to_address_payloads m.bcc) else none;
  reply_to = m.reply_to;
  subject = m.subject;
  text = m.text;
  html = m.html;
  headers = if ltb 0 (length m.headers) then some m.headers else none;
}

-- ===== src/Edge/Relayed/Reading.antt =====
-- The fields of the relay's payload (internal/cloudflare/payload.go) as the Worker
-- (worker/src/index.js) reads them.
use cloudflare_smtp_relay.Shared.{
  suc, ltb, length, ◌≡◌, refl, true, false, not, Option, none, some, List, [], ◌∷◌, ◌&&◌, arith,
  map, if◌then◌else◌,
}
use cloudflare_smtp_relay.Shared.Text.{Text, codes, text_eq, is_empty}
use cloudflare_smtp_relay.Email.Message.{Address, HeaderMap, Message}
use cloudflare_smtp_relay.Cloudflare.Payload.{
  AddressPayload, to_address_payload, to_address_payloads, build_payload,
}
use cloudflare_smtp_relay.Edge.Values.{
  string, Fields, end, Runtime, truthy, present, find, get, has_keys,
}
use cloudflare_smtp_relay.Edge.Binding.{
  to_binding_address, to_binding_addresses, to_binding_address_list, kept_headers, object_address,
}
use cloudflare_smtp_relay.Edge.Relayed.{
  optional, json_of_address, items_of, optional_list, fields_of_headers, optional_headers,
  json_of_payload, filled, mailbox_of, json_of_headers, IsAddressed, relayed_json,
}

find-optional :
    (k key s : Text) (rest : Fields)
    → find k (optional key s rest)
      ≡ (if text_eq k key && not (is_empty s) then some (string s) else find k rest)
unfolding find optional
find-optional k key [] rest = ground arith
find-optional k key (c ∷ s) rest = ground arith

find-optional_list :
    (k key : Text) (l : Option (List AddressPayload)) (rest : Fields)
    → text_eq k key ≡ false
    → find k (optional_list key l rest) ≡ find k rest
unfolding find optional_list
find-optional_list k key none rest e = refl
find-optional_list k key (some []) rest e = refl
find-optional_list k key (some (a ∷ addrs)) rest e = rw e refl

find-optional_headers :
    (k : Text) (h : Option HeaderMap) (rest : Fields)
    → text_eq k (codes "headers") ≡ false
    → find k (optional_headers h rest) ≡ find k rest
unfolding find optional_headers
find-optional_headers k none rest e = refl
find-optional_headers k (some []) rest e = refl
find-optional_headers k (some (h ∷ headers)) rest e = rw e refl

module _ (js : Runtime) where
  present-string : (s : Text) → present js (some (string s)) ≡ filled s
  unfolding present truthy
  present-string s = ground arith

  headers_lem :
      (hs : HeaderMap)
      → kept_headers (
          present js (
            find
              (codes "headers")
              (optional_headers (if ltb 0 (length hs) then some hs else none) end)))
        ≡ json_of_headers hs
  unfolding kept_headers present truthy has_keys find optional_headers codes text_eq
      fields_of_headers
  headers_lem [] = refl
  headers_lem ((key, value) ∷ hs) =
      let positive : ltb 0 (suc (length hs)) ≡ true = ground arith in
      rw (positive, optional_headers) refl

  present-optional :
      (s : Text) → present js (if not (is_empty s) then some (string s) else none) ≡ filled s
  unfolding present truthy
  present-optional s = ground arith

  to_binding_address-json :
      (a : Address)
      → to_binding_address js (some (json_of_address (to_address_payload a)))
        ≡ (if is_empty a.address then none else some (mailbox_of a))
  unfolding to_binding_address json_of_address to_address_payload present truthy get find codes
      text_eq optional object_address
  to_binding_address-json a = ground arith

  to_binding_addresses-json :
      (addrs : List Address)
      → IsAddressed addrs
      → to_binding_addresses js (items_of (to_address_payloads addrs)) ≡ map mailbox_of addrs
  unfolding to_binding_addresses items_of to_address_payloads
  to_binding_addresses-json [] h = refl
  to_binding_addresses-json (a ∷ addrs) h =
      rw (to_binding_addresses, to_binding_address-json a)
        (rw (h.0, to_binding_addresses-json addrs h.1) refl)

  list_lem :
      (key : Text) (addrs : List Address) (rest : Fields)
      → text_eq key key ≡ true
      → find key rest ≡ none
      → IsAddressed addrs
      → to_binding_address_list js (
          find key (
            optional_list key
              (if ltb 0 (length addrs) then some (to_address_payloads addrs) else none)
              rest))
        ≡ map mailbox_of addrs
  unfolding to_binding_address_list present truthy find optional_list to_address_payloads
  list_lem key [] rest same absent h = rw absent refl
  list_lem key (a ∷ addrs) rest same absent h =
      let positive : ltb 0 (suc (length addrs)) ≡ true = ground arith in
      rw (positive, optional_list, find)
        (rw (same, to_binding_address_list) (to_binding_addresses-json (a ∷ addrs) h))

  pub get-text : (m : Message) → present js (get (codes "text") (relayed_json m)) ≡ filled m.text
  unfolding find codes text_eq get json_of_payload build_payload
  get-text m = simp (find-optional, find-optional_headers, find-optional_list, present-optional)

  pub get-html : (m : Message) → present js (get (codes "html") (relayed_json m)) ≡ filled m.html
  unfolding find codes text_eq get json_of_payload build_payload
  get-html m = simp (find-optional, find-optional_headers, find-optional_list, present-optional)

  pub get-reply_to :
      (m : Message) → present js (get (codes "reply_to") (relayed_json m)) ≡ filled m.reply_to
  unfolding find codes text_eq get json_of_payload build_payload
  get-reply_to m = simp (find-optional, find-optional_headers, find-optional_list, present-optional)

  pub get-subject :
      (m : Message) → present js (get (codes "subject") (relayed_json m)) ≡ filled m.subject
  unfolding find codes text_eq get json_of_payload build_payload present truthy
  get-subject m = simp (find-optional, find-optional_list) (present-string m.subject)

  pub get-headers :
      (m : Message)
      → kept_headers (present js (get (codes "headers") (relayed_json m)))
        ≡ json_of_headers m.headers
  unfolding find codes text_eq get json_of_payload build_payload
  get-headers m = simp (find-optional, find-optional_list) (headers_lem m.headers)

  pub list-to :
      (m : Message)
      → IsAddressed m.to
      → to_binding_address_list js (get (codes "to") (relayed_json m)) ≡ map mailbox_of m.to
  unfolding find codes text_eq get json_of_payload build_payload to_binding_address_list present
      truthy
  list-to m h = to_binding_addresses-json m.to h

  pub list-cc :
      (m : Message)
      → IsAddressed m.cc
      → to_binding_address_list js (get (codes "cc") (relayed_json m)) ≡ map mailbox_of m.cc
  unfolding find codes text_eq get json_of_payload build_payload
  list-cc m h =
      list_lem (codes "cc") m.cc _ refl
        (simp (find-optional, find-optional_headers, find-optional_list)) h

  pub list-bcc :
      (m : Message)
      → IsAddressed m.bcc
      → to_binding_address_list js (get (codes "bcc") (relayed_json m)) ≡ map mailbox_of m.bcc
  unfolding find codes text_eq get json_of_payload build_payload
  list-bcc m h =
      simp find-optional_list
        (list_lem (codes "bcc") m.bcc _ refl (simp (find-optional, find-optional_headers)) h)

  pub from_lem :
      (m : Message)
      → to_binding_address js (get (codes "from") (relayed_json m))
        ≡ (if is_empty m.from.address then none else some (mailbox_of m.from))
  unfolding find codes text_eq get json_of_payload build_payload
  from_lem m = to_binding_address-json m.from

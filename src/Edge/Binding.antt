-- ===== src/Edge/Binding.antt =====
-- `toBindingMessage` of worker/src/index.js: the shape that the send_email binding expects.
use cloudflare_smtp_relay.Shared.{
  Bool, true, false, Option, none, some, List, [], ◌∷◌, ◌&&◌, if◌then◌else◌,
}
use cloudflare_smtp_relay.Shared.Text.{Text, codes, is_empty}
use cloudflare_smtp_relay.Edge.Values.{
  Json, null, string, array, Items, nil, cons, Runtime, present, get, has_keys,
}

abbrev pub is_missing {ℓ} : {A : Type ℓ} → Option A → Bool
is_missing none = true
is_missing (some x) = false

-- A value, or an error that is thrown, with its message.
pub data Attempt (A : Type 0) : Type 0 where
  done : A → Attempt A
  thrown : Text → Attempt A

-- A string, or an object with `email` and perhaps `name`.
pub data BindingAddress : Type 0 where
  plain : Text → BindingAddress
  mailbox : Json → Option Json → BindingAddress

-- The message of the binding. A list is empty where its property is not set.
pub record BindingMessage : Type 0 where
  pub from : BindingAddress
  pub subject : Json
  pub to : List BindingAddress
  pub cc : List BindingAddress
  pub bcc : List BindingAddress
  pub text : Option Json
  pub html : Option Json
  pub reply_to : Option Json
  pub headers : Option Json

-- The address of an object that counts as true.
unfoldable pub object_address : Runtime → Json → Option BindingAddress
object_address js value = elim (present js (get (codes "address") value)) [
  | none ↦ none
  | some address ↦ some (mailbox address (present js (get (codes "name") value)))
]

unfoldable pub to_binding_address : Runtime → Option Json → Option BindingAddress
to_binding_address js value = elim (present js value) [
  | none ↦ none
  | some v ↦ elim v [ string s ↦ some (plain s) | w ↦ object_address js w ]
]

-- `items.map(toBindingAddress).filter(Boolean)`.
unfoldable pub to_binding_addresses : Runtime → Items → List BindingAddress
to_binding_addresses js nil = []
to_binding_addresses js (cons v items) = elim (to_binding_address js (some v)) [
  | none ↦ to_binding_addresses js items
  | some a ↦ a ∷ to_binding_addresses js items
]

unfoldable pub to_binding_address_list : Runtime → Option Json → List BindingAddress
to_binding_address_list js value = elim (present js value) [
  | none ↦ []
  | some v ↦ elim v [
    | array items ↦ to_binding_addresses js items
    | w ↦ to_binding_addresses js (cons w nil)
  ]
]

-- The checks of the fields that were read, and the message that has them.
unfoldable pub assemble :
    BindingAddress
    → (to cc_list bcc : List BindingAddress) → (subject text html : Option Json)
    → (reply_to headers : Option Json) → Attempt BindingMessage
assemble from to cc_list bcc subject text html reply_to headers =
    if is_empty to && (is_empty cc_list && is_empty bcc)
    then thrown (codes "at least one recipient is required")
    else elim subject [
      | none ↦ thrown (codes "subject is required")
      | some line ↦
          if is_missing text && is_missing html
          then thrown (codes "either text or html is required")
          else done (record {
            from = from;
            subject = line;
            to = to;
            cc = cc_list;
            bcc = bcc;
            text = text;
            html = html;
            reply_to = reply_to;
            headers = headers;
          })
    ]

-- The headers that are passed on: those of an object that has any.
unfoldable pub kept_headers : Option Json → Option Json
kept_headers none = none
kept_headers (some h) = if has_keys h then some h else none

-- The message, once the sender is known and the payload is not null.
unfoldable pub complete : Runtime → Json → BindingAddress → Attempt BindingMessage
complete js payload from =
    assemble from (to_binding_address_list js (get (codes "to") payload))
      (to_binding_address_list js (get (codes "cc") payload))
      (to_binding_address_list js (get (codes "bcc") payload))
      (present js (get (codes "subject") payload)) (present js (get (codes "text") payload))
      (present js (get (codes "html") payload)) (present js (get (codes "reply_to") payload))
      (kept_headers (present js (get (codes "headers") payload)))

-- The message, once the sender was read.
unfoldable pub with_sender : Runtime → Json → Option BindingAddress → Attempt BindingMessage
with_sender js payload none = thrown (codes "from is required")
with_sender js payload (some from) = complete js payload from

unfoldable pub to_binding_message : Runtime → Json → Attempt BindingMessage
to_binding_message js null = thrown js.type_error
to_binding_message js payload =
    with_sender js payload (to_binding_address js (get (codes "from") payload))

-- ===== src/Edge/Relayed/Laws.antt =====
-- What the Worker (worker/src/index.js) makes of the relay's payload.
use cloudflare_smtp_relay.Shared.{
  ◌≡◌, refl, false, none, some, List, [], ◌∷◌, ◌&&◌, map, inl, inr, Bool-cases,
}
use cloudflare_smtp_relay.Shared.Text.{Text, codes, is_empty}
use cloudflare_smtp_relay.Email.Message.{Address, Message}
use cloudflare_smtp_relay.Edge.Values.{Runtime, get}
use cloudflare_smtp_relay.Edge.Binding.{
  done, thrown, to_binding_address, complete, assemble, is_missing, with_sender, to_binding_message,
}
use cloudflare_smtp_relay.Edge.Relayed.Reading.{
  get-text, get-html, get-reply_to, get-subject, get-headers, list-to, list-cc, list-bcc, from_lem,
}
use cloudflare_smtp_relay.Edge.Relayed.{
  json_of_payload, filled, mailbox_of, complaint, json_of_headers, binding_of, IsAddressed,
  relayed_json,
}

is_empty-map : (addrs : List Address) → is_empty (map mailbox_of addrs) ≡ is_empty addrs
is_empty-map [] = refl
is_empty-map (a ∷ addrs) = refl

is_missing-filled : (s : Text) → is_missing (filled s) ≡ is_empty s
is_missing-filled [] = refl
is_missing-filled (c ∷ s) = refl

assemble_lem :
    (m : Message)
    → is_empty m.from.address ≡ false
    → assemble
        (mailbox_of m.from)
        (map mailbox_of m.to)
        (map mailbox_of m.cc)
        (map mailbox_of m.bcc)
        (filled m.subject)
        (filled m.text)
        (filled m.html)
        (filled m.reply_to)
        (json_of_headers m.headers)
      ≡ elim (complaint m) [ none ↦ done (binding_of m) | some why ↦ thrown why ]
unfolding assemble complaint
assemble_lem m someone =
    rw (is_empty-map m.to, is_empty-map m.cc, is_empty-map m.bcc, someone, assemble, complaint)
      (elim (Bool-cases (is_empty m.to && (is_empty m.cc && is_empty m.bcc))) [
        | inl alone ↦ rw alone refl
        | inr addressed ↦ elim (Bool-cases (is_empty m.subject)) [
          | inl untitled ↦ rw (addressed, untitled) refl
          | inr titled ↦
              rw (addressed, titled)
                (rw (is_missing-filled m.text, is_missing-filled m.html)
                  (elim (Bool-cases (is_empty m.text && is_empty m.html)) [
                    | inl blank ↦ rw blank refl
                    | inr written ↦ rw written refl
                  ]))
        ]
      ])

module _ (js : Runtime) where
  complete_lem :
      (m : Message)
      → IsAddressed m.to
      → IsAddressed m.cc
      → IsAddressed m.bcc
      → is_empty m.from.address ≡ false
      → complete js (relayed_json m) (mailbox_of m.from)
        ≡ elim (complaint m) [ none ↦ done (binding_of m) | some why ↦ thrown why ]
  unfolding complete
  complete_lem m ht hc hb hf =
      rw
        (
          list-to js m ht,
          list-cc js m hc,
          list-bcc js m hb,
          get-subject js m,
          get-text js m,
          get-html js m,
          get-reply_to js m,
          get-headers js m,
          complete,
        )
        (assemble_lem m hf)

  unfold_lem :
      (m : Message)
      → to_binding_message js (relayed_json m)
        ≡ with_sender js
            (relayed_json m)
            (to_binding_address js (get (codes "from") (relayed_json m)))
  unfolding to_binding_message json_of_payload
  unfold_lem m = refl

  -- What the relay sends for a message translates to the message for the binding that says the same,
  -- field by field; or it is refused, with the first of: the sender, every recipient, the subject,
  -- both bodies missing. Each recipient is assumed to have an address.
  pub to_binding_message-relayed_json :
      (m : Message)
      → IsAddressed m.to
      → IsAddressed m.cc
      → IsAddressed m.bcc
      → to_binding_message js (relayed_json m)
        ≡ elim (complaint m) [ none ↦ done (binding_of m) | some why ↦ thrown why ]
  unfolding with_sender complaint
  to_binding_message-relayed_json m ht hc hb = elim (Bool-cases (is_empty m.from.address)) [
    | inl nobody ↦ rw (unfold_lem m, from_lem js m, nobody, complaint) refl
    | inr someone ↦
        rw (unfold_lem m, from_lem js m)
          (rw (someone, with_sender, complaint)
            (rw (someone, complaint) at (complete_lem m ht hc hb someone)))
  ]

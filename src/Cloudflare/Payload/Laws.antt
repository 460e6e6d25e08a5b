-- ===== src/Cloudflare/Payload/Laws.antt =====
-- Laws of `buildPayload` (internal/cloudflare/payload.go).
use mathlib.Core.List.{map-append}
use cloudflare_smtp_relay.Shared.{
  suc, ◌≡◌, refl, ◌↔◌, true, Option, none, some, List, [], ◌∷◌, ◌++◌, map, arith, ltb,
  if◌then◌else◌, length,
}
use cloudflare_smtp_relay.Email.Message.{Address, Message, all_recipients}
use cloudflare_smtp_relay.Email.Message.Counts.{all_recipients-eq-map}
use cloudflare_smtp_relay.Cloudflare.Payload.{
  AddressPayload, to_address_payload, to_address_payloads, build_payload,
}

-- A list that is left out has no members.
abbrev pub members {ℓ} : {A : Type ℓ} → Option (List A) → List A
members none = []
members (some xs) = xs

addresses-to_address_payloads :
    (addrs : List Address)
    → map (λ (p : AddressPayload). p.address) (to_address_payloads addrs)
      ≡ map (λ a. a.address) addrs
unfolding to_address_payloads to_address_payload
addresses-to_address_payloads [] = refl
addresses-to_address_payloads (a ∷ addrs) = rw (addresses-to_address_payloads addrs)

members-nonempty :
    (addrs : List Address)
    → members (if ltb 0 (length addrs) then some (to_address_payloads addrs) else none)
      ≡ to_address_payloads addrs
unfolding to_address_payloads
members-nonempty [] = refl
members-nonempty (a ∷ addrs) = let e : ltb 0 (suc (length addrs)) ≡ true = ground arith in rw e refl

left_out {ℓ} :
    {A B : Type ℓ} (xs : List A) (b : B)
    → ((if ltb 0 (length xs) then some b else none) ≡ none) ↔ (xs ≡ [])
left_out [] b = (λ e. refl, λ e. refl)
left_out (x ∷ xs) b =
    let e : ltb 0 (suc (length xs)) ≡ true = ground arith in
    (λ h. absurd (cc (rw e at h)), λ h. absurd (cc h))

-- The recipients on the wire are those of the message, in To, Cc and Bcc order; the Cc and Bcc
-- lists and the headers are left out exactly where the message has none; and the sender is the
-- message's.
pub build_payload_lem :
    (m : Message)
    → (map
          (λ (p : AddressPayload). p.address)
          ((build_payload m).to ++ (members (build_payload m).cc ++ members (build_payload m).bcc))
        ≡ all_recipients m)
      × (((build_payload m).cc ≡ none) ↔ (m.cc ≡ []))
      × (((build_payload m).bcc ≡ none) ↔ (m.bcc ≡ []))
      × (((build_payload m).headers ≡ none) ↔ (m.headers ≡ []))
      × ((build_payload m).from.address ≡ m.from.address)
unfolding build_payload to_address_payload
build_payload_lem m = (
  simp (members-nonempty, map-append, addresses-to_address_payloads, all_recipients-eq-map),
  left_out m.cc (to_address_payloads m.cc),
  left_out m.bcc (to_address_payloads m.bcc),
  left_out m.headers m.headers,
  refl,
)

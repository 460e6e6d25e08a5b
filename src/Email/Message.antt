-- ===== src/Email/Message.antt =====
-- internal/email/message.go: addresses, the normalised message, and the result of a delivery.
pub mod Domain
pub mod Counts
use cloudflare_smtp_relay.Shared.{
  ℕ, zero, suc, ◌+◌, List, [], ◌∷◌, ◌++◌, if◌then◌else◌, length, get_or, drop, ◌==◌,
}
use cloudflare_smtp_relay.Shared.Int.{ℤ}
use cloudflare_smtp_relay.Shared.Text.{Text, codes, is_empty, lower_byte}

pub record Address : Type 0 where
  pub name : Text
  pub address : Text

-- `lowerASCII`: the loop over the bytes.
unfoldable pub lower_ascii : Text → Text
lower_ascii [] = []
lower_ascii (c ∷ s) = lower_byte c ∷ lower_ascii s

-- The loop of `Domain`, with `i` the number of bytes still to look at.
domain_from : Text → ℕ → Text
domain_from s zero = []
domain_from s (suc i) =
    let rest = domain_from s i in
    if get_or s i 0 == b'@' then lower_ascii (drop (suc i) s) else rest

unfoldable pub domain : Address → Text
unfolding domain_from
domain a = domain_from a.address (length a.address)

unfoldable pub address_string : Address → Text
address_string a =
    if is_empty a.name then a.address else a.name ++ (codes " <" ++ (a.address ++ codes ">"))

-- A header map, as its entries in the order of their first insertion.
abbrev pub HeaderMap : Type 0
HeaderMap = List (Text × Text)

pub record Message : Type 0 where
  pub id : Text
  pub rfc_message_id : Text
  pub from : Address
  pub to : List Address
  pub cc : List Address
  pub bcc : List Address
  pub reply_to : Text
  pub subject : Text
  pub text : Text
  pub html : Text
  pub headers : HeaderMap
  pub size : ℕ
  pub received_at : ℤ

unfoldable pub recipient_count : Message → ℕ
recipient_count m = length m.to + length m.cc + length m.bcc

-- The inner loop of `AllRecipients`, over one group.
append_group : List Text → List Address → List Text
append_group out [] = out
append_group out (a ∷ group) = append_group (out ++ a.address ∷ []) group

-- The outer loop of `AllRecipients`.
append_groups : List Text → List (List Address) → List Text
append_groups out [] = out
append_groups out (group ∷ groups) = append_groups (append_group out group) groups

unfoldable pub all_recipients : Message → List Text
unfolding append_groups append_group
all_recipients m = append_groups [] (m.to ∷ m.cc ∷ m.bcc ∷ [])

-- `Result`: an accepted delivery.
pub record Delivered : Type 0 where
  pub provider_id : Text
  pub http_status : ℕ
  pub attempts : ℕ

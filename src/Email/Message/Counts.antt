-- ===== src/Email/Message/Counts.antt =====
-- Laws of `RecipientCount` and `AllRecipients` (internal/email/message.go).
use mathlib.Core.List.{append_assoc, append-nil, map-append}
use cloudflare_smtp_relay.Shared.{
  ◌≡◌, sym, ◌∙◌, List, [], ◌∷◌, ◌++◌, map, length, arith, length-append, length-map,
}
use cloudflare_smtp_relay.Shared.Text.{Text}
use cloudflare_smtp_relay.Email.Message.{
  Address, Message, recipient_count, append_group, all_recipients,
}

append_group_lem :
    (out : List Text) (group : List Address)
    → append_group out group ≡ out ++ map (λ a. a.address) group
unfolding append_group
append_group_lem out [] = sym (append-nil out)
append_group_lem out (a ∷ group) =
    rw (append_group_lem (out ++ a.address ∷ []) group) (append_assoc out (a.address ∷ []) _)

pub all_recipients-eq-map :
    (m : Message) → all_recipients m ≡ map (λ a. a.address) (m.to ++ (m.cc ++ m.bcc))
unfolding all_recipients
all_recipients-eq-map m = simp (append_group_lem, map-append, append_assoc)

recipient_count-eq-length : (m : Message) → recipient_count m ≡ length (m.to ++ (m.cc ++ m.bcc))
unfolding recipient_count
recipient_count-eq-length m =
    omega (arith, length-append m.to (m.cc ++ m.bcc), length-append m.cc m.bcc)

-- AllRecipients lists the addresses of To, then of Cc, then of Bcc, and RecipientCount is the
-- number of them.
pub all_recipients_lem :
    (m : Message)
    → (all_recipients m ≡ map (λ a. a.address) (m.to ++ (m.cc ++ m.bcc)))
      × (recipient_count m ≡ length (all_recipients m))
all_recipients_lem m = (
  all_recipients-eq-map m,
  rw (all_recipients-eq-map m) (recipient_count-eq-length m ∙ sym (length-map _ _)),
)

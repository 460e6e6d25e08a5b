-- ===== src/Email/Policy.antt =====
-- internal/email/policy.go: which envelope senders may use the relay.
pub mod Laws
use cloudflare_smtp_relay.Shared.{
  Bool, true, false, Option, none, some, List, [], ◌∷◌, ◌++◌, if◌then◌else◌,
}
use cloudflare_smtp_relay.Shared.Text.{Text, codes, is_empty, contains}
use cloudflare_smtp_relay.Email.Errors.{Fault, wrapped, sender_not_allowed}
use cloudflare_smtp_relay.Email.Message.{Address, lower_ascii, domain}

-- The map `allowed` is its keys; a nil map has none.
pub record SenderPolicy : Type 0 where
  pub allowed : List Text

-- The loop of `NewSenderPolicy` that fills the map.
add_domains : List Text → List Text → List Text
add_domains allowed [] = allowed
add_domains allowed (d ∷ domains) = add_domains (lower_ascii d ∷ allowed) domains

unfoldable pub new_sender_policy : List Text → SenderPolicy
unfolding add_domains
new_sender_policy domains =
    if is_empty domains
    then record { allowed = [] }
    else record { allowed = add_domains [] domains }

unfoldable pub allows : SenderPolicy → Address → Bool
allows p from =
    if is_empty p.allowed
    then true
    else if is_empty (domain from)
    then false
    else contains (domain from) p.allowed

unfoldable pub check : SenderPolicy → Address → Option Fault
check p from =
    if allows p from then none else some (wrapped [] sender_not_allowed (codes ": " ++ domain from))

-- ===== src/Email/Policy/Laws.antt =====
-- Laws of `SenderPolicy` (internal/email/policy.go).
use cloudflare_smtp_relay.Shared.{
  ◌≡◌, refl, ◌↔◌, true, false, not, ◌||◌, ◌&&◌, none, some, List, [], ◌∷◌, ◌++◌, map, arith,
}
use cloudflare_smtp_relay.Shared.Text.{Text, is_empty, contains, codes}
use cloudflare_smtp_relay.Email.Errors.{Fault, fault_text, is_sender_not_allowed}
use cloudflare_smtp_relay.Email.Message.{Address, lower_ascii, domain}
use cloudflare_smtp_relay.Email.Message.Domain.{NoAt, domain_lem}
use cloudflare_smtp_relay.Email.Policy.{SenderPolicy, add_domains, new_sender_policy, allows, check}

contains-add_domains :
    (k : Text) (allowed ds : List Text)
    → contains k (add_domains allowed ds) ≡ (contains k allowed || contains k (map lower_ascii ds))
unfolding add_domains contains
contains-add_domains k allowed [] = ground arith
contains-add_domains k allowed (d ∷ ds) =
    ground (arith, contains-add_domains k (lower_ascii d ∷ allowed) ds)

add_domains-ne-nil :
    (a : Text) (allowed ds : List Text) → is_empty (add_domains (a ∷ allowed) ds) ≡ false
unfolding add_domains
add_domains-ne-nil a allowed [] = refl
add_domains-ne-nil a allowed (d ∷ ds) = add_domains-ne-nil (lower_ascii d) (a ∷ allowed) ds

pub allows-new_sender_policy :
    (ds : List Text) (a : Address)
    → allows (new_sender_policy ds) a
      ≡ (is_empty ds || not (is_empty (domain a)) && contains (domain a) (map lower_ascii ds))
unfolding allows new_sender_policy contains
allows-new_sender_policy [] a = refl
allows-new_sender_policy (d ∷ ds) a = ground (
  arith,
  add_domains-ne-nil (lower_ascii d) [] ds,
  contains-add_domains (domain a) (lower_ascii d ∷ []) ds,
)

lower_ascii-is_empty : (s : Text) → is_empty (lower_ascii s) ≡ is_empty s
unfolding lower_ascii
lower_ascii-is_empty [] = refl
lower_ascii-is_empty (c ∷ s) = refl

-- Under a list of domains that is not empty, a sender with an "@" is let through exactly when what
-- stands behind its last "@" is not empty and, in ASCII lower case, one of the listed domains; one
-- without an "@" never is. Under the empty list every sender is.
pub allows_lem :
    (ds : List Text) (name l r : Text) (a : Address)
    → NoAt r
    → (allows (new_sender_policy ds) (record { name = name; address = l ++ b'@' ∷ r })
        ≡ (is_empty ds || not (is_empty r) && contains (lower_ascii r) (map lower_ascii ds)))
      × (allows (new_sender_policy ds) (record { name = name; address = r }) ≡ is_empty ds)
      × (allows (new_sender_policy []) a ≡ true)
allows_lem ds name l r a h =
    let (split, whole) = domain_lem name l r h in
    (
      rw (allows-new_sender_policy, split, lower_ascii-is_empty) refl,
      rw (allows-new_sender_policy, whole) (ground arith),
      allows-new_sender_policy [] a,
    )

-- `Check` passes a sender exactly when `Allows` does.
pub check-eq-none_iff : (p : SenderPolicy) (a : Address) → (check p a ≡ none) ↔ (allows p a ≡ true)
unfolding check
check-eq-none_iff p a = ground arith

-- A refusal of `Check` is an `ErrSenderNotAllowed` for a sender that `Allows` rejects, and its text
-- names the domain of the sender.
pub check_refusal :
    (p : SenderPolicy) (a : Address) (e : Fault)
    → check p a ≡ some e
    → (is_sender_not_allowed e ≡ true)
      × (allows p a ≡ false)
      × (fault_text e ≡ codes "sender domain not allowed" ++ (codes ": " ++ domain a))
unfolding check is_sender_not_allowed fault_text
check_refusal p a e h = ground arith

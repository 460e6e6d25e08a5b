-- ===== src/Email/Message/Domain.antt =====
-- Laws of `Address.Domain` and `lowerASCII` (internal/email/message.go).
use cloudflare_smtp_relay.Shared.{
  ℕ, zero, suc, ◌+◌, ◌≤◌, ◌<◌, ◌≡◌, refl, ◌≢◌, [], ◌∷◌, ◌++◌, map, length, get_or, drop, All, arith,
  length-append,
}
use cloudflare_smtp_relay.Shared.Text.{Text, lower_byte, lower_byte_idem}
use cloudflare_smtp_relay.Email.Message.{Address, lower_ascii, domain_from, domain}

-- No byte is an "@".
abbrev pub NoAt : Text → Type 0
NoAt s = All (λ c. c ≢ b'@') s

get_or-append : (l r : Text) (i d : ℕ) → get_or (l ++ r) (length l + i) d ≡ get_or r i d
get_or-append [] r i d = let e : 0 + i ≡ i = omega arith in rw e
get_or-append (c ∷ l) r i d =
    let e : suc (length l) + i ≡ suc (length l + i) = omega arith in rw e (get_or-append l r i d)

drop-append_suc : (l r : Text) (c : ℕ) → drop (suc (length l)) (l ++ c ∷ r) ≡ r
drop-append_suc [] r c = refl
drop-append_suc (d ∷ l) r c = drop-append_suc l r c

get_or-append_at : (l r : Text) (c d : ℕ) → get_or (l ++ c ∷ r) (length l) d ≡ c
get_or-append_at [] r c d = refl
get_or-append_at (b ∷ l) r c d = get_or-append_at l r c d

get_or-ne_at : (r : Text) (i : ℕ) → NoAt r → i < length r → get_or r i 0 ≢ b'@'
get_or-ne_at [] i h k = absurd (omega arith)
get_or-ne_at (c ∷ r) zero h k = h.0
get_or-ne_at (c ∷ r) (suc i) h k = get_or-ne_at r i h.1 (omega arith)

-- From `j` bytes into a last part without "@", the loop finds the "@" in front of it.
domain_from-split :
    (l r : Text) (j k : ℕ)
    → k ≡ suc (length l + j)
    → NoAt r
    → j ≤ length r
    → domain_from (l ++ b'@' ∷ r) k ≡ lower_ascii r
unfolding domain_from
domain_from-split l r j zero e h le = absurd (omega arith)
domain_from-split l r zero (suc k) e h le =
    let at : k ≡ length l = omega arith in
    rw (at, get_or-append_at l r b'@' 0, drop-append_suc l r b'@')
domain_from-split l r (suc j) (suc k) e h le =
    let here : k ≡ length l + suc j = omega arith in
    let miss : get_or (l ++ b'@' ∷ r) k 0 ≢ b'@' =
      rw (here, get_or-append l (b'@' ∷ r) (suc j) 0) (get_or-ne_at r j h (omega arith)) in
    ground (arith, domain_from-split l r j k)

domain_from-NoAt : (s : Text) (k : ℕ) → NoAt s → k ≤ length s → domain_from s k ≡ []
unfolding domain_from
domain_from-NoAt s zero h le = refl
domain_from-NoAt s (suc k) h le =
    let miss = get_or-ne_at s k h (omega arith) in
    ground (arith, domain_from-NoAt s k h (omega arith))

-- The domain of an address is what stands behind its last "@", in lower case; an address with no
-- "@" has the empty domain.
pub domain_lem :
    (name l r : Text)
    → NoAt r
    → (domain (record { name = name; address = l ++ b'@' ∷ r }) ≡ lower_ascii r)
      × (domain (record { name = name; address = r }) ≡ [])
unfolding domain
domain_lem name l r h = (
  domain_from-split l r (length r) (length (l ++ b'@' ∷ r))
      (omega (arith, length-append l (b'@' ∷ r))) h (omega arith),
  domain_from-NoAt r (length r) h (omega arith),
)

pub lower_ascii_idem : (s : Text) → lower_ascii (lower_ascii s) ≡ lower_ascii s
unfolding lower_ascii
lower_ascii_idem [] = refl
lower_ascii_idem (c ∷ s) = cc (lower_byte_idem c, lower_ascii_idem s)

pub lower_ascii-eq-map : (s : Text) → lower_ascii s ≡ map lower_byte s
unfolding lower_ascii
lower_ascii-eq-map [] = refl
lower_ascii-eq-map (c ∷ s) = rw (lower_ascii-eq-map s)

lower_ascii-domain_from : (s : Text) (k : ℕ) → lower_ascii (domain_from s k) ≡ domain_from s k
unfolding domain_from
lower_ascii-domain_from s zero = unfold lower_ascii in refl
lower_ascii-domain_from s (suc k) =
    ground (arith, lower_ascii-domain_from s k, lower_ascii_idem (drop (suc k) s))

-- A domain is in lower case already.
pub lower_ascii-domain : (a : Address) → lower_ascii (domain a) ≡ domain a
unfolding domain
lower_ascii-domain a = lower_ascii-domain_from a.address (length a.address)

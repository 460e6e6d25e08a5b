-- ===== src/Smtp/Audience.antt =====
-- What a connection means (internal/smtpserver/session.go): an abstract transaction, whose recipients
-- are a set of addresses, with neither an order nor repetitions.
pub mod Refines
use mathlib.Core.Quot
use mathlib.Core.Quot.{Quot, Quot-set}
use mathlib.Core.Bool.{Bool-set}
use cloudflare_smtp_relay.Shared.{◌≡◌, Bool, ◌&&◌, ◌||◌, List, [], ◌∷◌, ◌++◌, arith, if◌then◌else◌}
use cloudflare_smtp_relay.Shared.Text.{
  Text, text_eq, is_empty, contains, contains-snoc, Unicode, to_lower, trim_space,
}
use cloudflare_smtp_relay.Email.Policy.{allows}
use cloudflare_smtp_relay.Smtp.Session.{Settings}
use cloudflare_smtp_relay.Smtp.Calls.{
  Call, authenticates, mails, rcpts, resets, logs_out, reads_data,
}
use cloudflare_smtp_relay.Smtp.Calls.Laws.{sender_of}

-- Two lists of addresses reach the same people.
abbrev pub SameMembers : List Text → List Text → Type 0
SameMembers xs ys = (k : Text) → contains k xs ≡ contains k ys

abbrev pub Audience : Type 0
Audience = Quot SameMembers

abbrev pub audience_of : List Text → Audience
audience_of ks = Quot.mk ks

unfoldable pub reaches : Text → Audience → Bool
reaches k = Quot.lift Bool-set (contains k) (λ xs ys h. h k)

pub SameMembers-snoc :
    (k : Text) (xs ys : List Text) → SameMembers xs ys → SameMembers (xs ++ k ∷ []) (ys ++ k ∷ [])
SameMembers-snoc k xs ys h j = ground (arith, contains-snoc j k xs, contains-snoc j k ys, h j)

unfoldable pub join : Text → Audience → Audience
join k =
    Quot.lift Quot-set (λ xs. Quot.mk (xs ++ k ∷ []))
      (λ xs ys h. Quot.sound (SameMembers-snoc k xs ys h))

-- It does not matter who is named first, nor how often.
pub join_comm : (j k : Text) (a : Audience) → join j (join k a) ≡ join k (join j a)
unfolding join
join_comm j k =
    Quot.ind (λ a. Quot-set _ _)
      (λ xs. Quot.sound (λ i. ground (
        arith,
        contains-snoc i j (xs ++ k ∷ []),
        contains-snoc i k xs,
        contains-snoc i k (xs ++ j ∷ []),
        contains-snoc i j xs,
      )))

pub join_idem : (k : Text) (a : Audience) → join k (join k a) ≡ join k a
unfolding join
join_idem k =
    Quot.ind (λ a. Quot-set _ _)
      (λ xs.
        Quot.sound (λ i. ground (arith, contains-snoc i k (xs ++ k ∷ []), contains-snoc i k xs)))

-- A transaction: whether the client is known, the sender, and whom the message is for.
pub record Transaction : Type 0 where
  pub known : Bool
  pub sender : Text
  pub audience : Audience

-- A recipient is named: a blank one is nobody.
abbrev pub name_recipient : Unicode → Text → Audience → Audience
name_recipient u to a =
    let key = to_lower u (trim_space u to) in if is_empty key then a else join key a

-- What each call means. DATA leaves the transaction as it is.
unfoldable pub meaning : Unicode → Settings → Transaction → Call → Transaction
meaning u opts t (authenticates username password) = record {
  known = t.known || (text_eq username opts.username && text_eq password opts.password);
  sender = t.sender;
  audience = t.audience;
}
meaning u opts t (mails from) =
    if t.known && allows opts.policy (sender_of from)
    then record { known = t.known; sender = from; audience = audience_of [] }
    else t
meaning u opts t (rcpts to) = record {
  known = t.known;
  sender = t.sender;
  audience = name_recipient u to t.audience;
}
meaning u opts t resets = record { known = t.known; sender = []; audience = audience_of [] }
meaning u opts t logs_out = record { known = t.known; sender = []; audience = audience_of [] }
meaning u opts t (reads_data x) = t

unfoldable pub meaning_all : Unicode → Settings → Transaction → List Call → Transaction
unfolding meaning
meaning_all u opts t [] = t
meaning_all u opts t (c ∷ calls) = meaning_all u opts (meaning u opts t c) calls

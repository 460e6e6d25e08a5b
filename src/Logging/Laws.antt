-- ===== src/Logging/Laws.antt =====
-- Laws of `TruncateSubject` (internal/logging/delivery.go).
use cloudflare_smtp_relay.Shared.{
  ℕ, zero, suc, ◌+◌, ◌*◌, ◌≤◌, inl, inr, List, [], ◌∷◌, arith, leb, Bool-cases, length, take, ◌≡◌,
  refl, ap, if◌then◌else◌, ◌++◌, length-append, length-take,
}
use cloudflare_smtp_relay.Shared.Text.{Text}
use cloudflare_smtp_relay.Logging.Runes.{
  two_bytes, three_bytes, four_bytes, decode_rune, runes_from, runes, encode_rune, encode_runes,
}
use mathlib.Core.List.{append-nil}
use cloudflare_smtp_relay.Logging.Runes.RoundTrip.{runes_from-encode_runes}
use cloudflare_smtp_relay.Logging.Runes.Valid.{runes-IsRune, take-IsRune}
use cloudflare_smtp_relay.Logging.Delivery.{truncate_subject}

two_bytes_le : (a : ℕ) (s : Text) → (two_bytes a s).1 ≤ 3
two_bytes_le a [] = ground arith
two_bytes_le a (b ∷ s) = ground arith

three_bytes_le : (lo hi a : ℕ) (s : Text) → (three_bytes lo hi a s).1 ≤ 3
three_bytes_le lo hi a [] = ground arith
three_bytes_le lo hi a (b ∷ []) = ground arith
three_bytes_le lo hi a (b ∷ c ∷ s) = ground arith

four_bytes_le : (lo hi a : ℕ) (s : Text) → (four_bytes lo hi a s).1 ≤ 3
four_bytes_le lo hi a [] = ground arith
four_bytes_le lo hi a (b ∷ []) = ground arith
four_bytes_le lo hi a (b ∷ c ∷ []) = ground arith
four_bytes_le lo hi a (b ∷ c ∷ d ∷ s) = ground arith

decode_rune_le : (a : ℕ) (s : Text) → (decode_rune a s).1 ≤ 3
unfolding decode_rune
decode_rune_le a s = ground (
  arith,
  two_bytes_le a s,
  three_bytes_le 0xa0 0xbf a s,
  three_bytes_le 0x80 0x9f a s,
  three_bytes_le 0x80 0xbf a s,
  four_bytes_le 0x90 0xbf a s,
  four_bytes_le 0x80 0xbf a s,
  four_bytes_le 0x80 0x8f a s,
)

runes_from_le : (skip : ℕ) (s : Text) → length s ≤ skip + 4 * length (runes_from skip s)
unfolding runes_from
runes_from_le skip [] = omega arith
runes_from_le (suc skip) (a ∷ s) = omega (arith, runes_from_le skip s)
runes_from_le zero (a ∷ s) = omega (arith, decode_rune_le a s, runes_from_le (decode_rune a s).1 s)

encode_rune_le : (r : ℕ) → length (encode_rune r) ≤ 4
unfolding encode_rune
encode_rune_le r = ground arith

encode_runes_le : (rs : List ℕ) → length (encode_runes rs) ≤ 4 * length rs
unfolding encode_runes
encode_runes_le [] = omega arith
encode_runes_le (r ∷ rs) =
    omega
      (arith, length-append (encode_rune r) (encode_runes rs), encode_rune_le r, encode_runes_le rs)

-- However long a subject is, and whatever its bytes, a logged one has at most four bytes for each
-- of the runes that are kept, and three for the ellipsis.
pub length-truncate_subject : (s : Text) (max : ℕ) → length (truncate_subject s max) ≤ 4 * max + 3
unfolding truncate_subject runes
length-truncate_subject s max = elim (Bool-cases (leb (length (runes s)) max)) [
  | inl short ↦
      rw (short, truncate_subject)
        (let few : length (runes_from 0 s) ≤ max = ground arith in omega (arith, runes_from_le 0 s))
  | inr long ↦
      rw (long, truncate_subject)
        (omega (
          arith,
          length-append (encode_runes (take max (runes s))) (0xe2 ∷ 0x80 ∷ 0xa6 ∷ []),
          encode_runes_le (take max (runes s)),
          length-take max (runes s),
        ))
]

take_of_ge : (n : ℕ) (xs : List ℕ) → length xs ≤ n → take n xs ≡ xs
take_of_ge zero [] h = refl
take_of_ge zero (x ∷ xs) h = absurd (omega arith)
take_of_ge (suc n) [] h = refl
take_of_ge (suc n) (x ∷ xs) h = ap (λ l. x ∷ l) (take_of_ge n xs (omega arith))

-- A truncated subject is read back, rune by rune, as the first runes of the subject, at most as
-- many as are kept, and an ellipsis exactly where some were cut off: no rune is split, whatever
-- the bytes.
pub runes-truncate_subject :
    (s : Text) (max : ℕ)
    → runes (truncate_subject s max)
      ≡ take max (runes s) ++ (if leb (length (runes s)) max then [] else 0x2026 ∷ [])
unfolding truncate_subject
runes-truncate_subject s max = elim (Bool-cases (leb (length (runes s)) max)) [
  | inl short ↦
      let few : length (runes s) ≤ max = ground arith in
      rw (short, truncate_subject) (rw (take_of_ge max (runes s) few, append-nil) refl)
  | inr long ↦
      rw (long, truncate_subject)
        (unfold runes in
          runes_from-encode_runes (take max (runes s)) (0xe2 ∷ 0x80 ∷ 0xa6 ∷ [])
            (take-IsRune max (runes s) (runes-IsRune s)))
]

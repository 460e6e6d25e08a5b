-- ===== src/Logging/Runes.antt =====
-- Go's conversions between a string and its runes: an invalid byte is the rune U+FFFD.
pub mod Valid
pub mod RoundTrip
use cloudflare_smtp_relay.Shared.{
  ℕ, zero, suc, ◌+◌, ◌*◌, ◌/◌, ◌%◌, Bool, ◌&&◌, List, [], ◌∷◌, ◌++◌, ltb, leb, ◌==◌, if◌then◌else◌,
}
use cloudflare_smtp_relay.Shared.Text.{Text}

abbrev in_bytes : ℕ → ℕ → ℕ → Bool
in_bytes lo hi b = leb lo b && leb b hi

abbrev pub rune_error : ℕ
rune_error = 0xfffd

abbrev tail_bits : ℕ → ℕ
tail_bits b = b % 64

-- A rune and the number of bytes behind its first.
abbrev pub two_bytes : ℕ → List ℕ → ℕ × ℕ
two_bytes a (b ∷ s) =
    if in_bytes 0x80 0xbf b then (a % 32 * 64 + tail_bits b, 1) else (rune_error, 0)
two_bytes a [] = (rune_error, 0)

abbrev pub three_bytes : ℕ → ℕ → ℕ → List ℕ → ℕ × ℕ
three_bytes lo hi a (b ∷ c ∷ s) =
    if in_bytes lo hi b && in_bytes 0x80 0xbf c
    then (a % 16 * 4096 + tail_bits b * 64 + tail_bits c, 2)
    else (rune_error, 0)
three_bytes lo hi a _ = (rune_error, 0)

abbrev pub four_bytes : ℕ → ℕ → ℕ → List ℕ → ℕ × ℕ
four_bytes lo hi a (b ∷ c ∷ d ∷ s) =
    if in_bytes lo hi b && (in_bytes 0x80 0xbf c && in_bytes 0x80 0xbf d)
    then (a % 8 * 262144 + tail_bits b * 4096 + tail_bits c * 64 + tail_bits d, 3)
    else (rune_error, 0)
four_bytes lo hi a _ = (rune_error, 0)

unfoldable pub decode_rune : ℕ → List ℕ → ℕ × ℕ
decode_rune a s =
    if ltb a 0x80
    then (a, 0)
    else if in_bytes 0xc2 0xdf a
    then two_bytes a s
    else if a == 0xe0
    then three_bytes 0xa0 0xbf a s
    else if a == 0xed
    then three_bytes 0x80 0x9f a s
    else if in_bytes 0xe1 0xef a
    then three_bytes 0x80 0xbf a s
    else if a == 0xf0
    then four_bytes 0x90 0xbf a s
    else if in_bytes 0xf1 0xf3 a
    then four_bytes 0x80 0xbf a s
    else if a == 0xf4
    then four_bytes 0x80 0x8f a s
    else (rune_error, 0)

unfoldable pub runes_from : ℕ → Text → List ℕ
runes_from skip [] = []
runes_from (suc skip) (a ∷ s) = runes_from skip s
runes_from zero (a ∷ s) = let (r, more) = decode_rune a s in r ∷ runes_from more s

-- []rune(s)
unfoldable pub runes : Text → List ℕ
unfolding runes_from decode_rune
runes s = runes_from 0 s

-- The bytes of one rune; the runes that `runes` yields are all valid.
unfoldable pub encode_rune : ℕ → Text
encode_rune r =
    if ltb r 0x80
    then r ∷ []
    else if ltb r 0x800
    then (0xc0 + r / 64) ∷ (0x80 + r % 64) ∷ []
    else if ltb r 0x10000
    then (0xe0 + r / 4096) ∷ (0x80 + r / 64 % 64) ∷ (0x80 + r % 64) ∷ []
    else (0xf0 + r / 262144) ∷ (0x80 + r / 4096 % 64) ∷ (0x80 + r / 64 % 64) ∷ (0x80 + r % 64) ∷ []

-- string(rs)
unfoldable pub encode_runes : List ℕ → Text
unfolding encode_rune
encode_runes [] = []
encode_runes (r ∷ rs) = encode_rune r ++ encode_runes rs

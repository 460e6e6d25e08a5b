-- ===== src/Logging/Runes/RoundTrip.antt =====
-- Laws of Go's conversions between a string and its runes: what is written is read back.
use mathlib.Core.List.{append_assoc}
use cloudflare_smtp_relay.Shared.{
  ℕ, ◌+◌, ◌*◌, ◌/◌, ◌%◌, ◌≤◌, ◌<◌, ◌≡◌, refl, ap, ◌∙◌, inl, inr, List, [], ◌∷◌, ◌++◌, arith, ltb,
  ltb→lt, Bool-cases, All,
}
use cloudflare_smtp_relay.Shared.Text.{Text}
use cloudflare_smtp_relay.Logging.Runes.{decode_rune, runes_from, encode_rune, encode_runes}
use cloudflare_smtp_relay.Logging.Runes.Valid.{IsRune}

decode_rune_one : (a : ℕ) (s : Text) → a < 0x80 → decode_rune a s ≡ (a, 0)
unfolding decode_rune
decode_rune_one a s lt = ground arith

decode_rune_two :
    (q m : ℕ) (s : Text)
    → 2 ≤ q
    → q < 32
    → m < 64
    → decode_rune (0xc0 + q) ((0x80 + m) ∷ s) ≡ (q * 64 + m, 1)
unfolding decode_rune
decode_rune_two q m s low high small = ground arith

decode_rune_three :
    (q m n : ℕ) (s : Text)
    → q < 16
    → m < 64
    → n < 64
    → 0x800 ≤ q * 4096 + m * 64 + n
    → IsRune (q * 4096 + m * 64 + n)
    → decode_rune (0xe0 + q) ((0x80 + m) ∷ (0x80 + n) ∷ s) ≡ (q * 4096 + m * 64 + n, 2)
unfolding decode_rune
decode_rune_three q m n s hq hm hn low rune = ground arith

decode_rune_four :
    (q m n p : ℕ) (s : Text)
    → q < 5
    → m < 64
    → n < 64
    → p < 64
    → 0x10000 ≤ q * 262144 + m * 4096 + n * 64 + p
    → q * 262144 + m * 4096 + n * 64 + p < 0x110000
    → decode_rune (0xf0 + q) ((0x80 + m) ∷ (0x80 + n) ∷ (0x80 + p) ∷ s)
      ≡ (q * 262144 + m * 4096 + n * 64 + p, 3)
unfolding decode_rune
decode_rune_four q m n p s hq hm hn hp low high = ground arith

-- The code point of a rune that is encoded, and the text behind it.
runes_from-encode_rune :
    (r : ℕ) (s : Text) → IsRune r → runes_from 0 (encode_rune r ++ s) ≡ r ∷ runes_from 0 s
unfolding runes_from encode_rune
runes_from-encode_rune r s rune = elim (Bool-cases (ltb r 0x80)) [
  | inl one ↦ rw one (rw (decode_rune_one r s (ltb→lt r 0x80 one)) refl)
  | inr more ↦ elim (Bool-cases (ltb r 0x800)) [
    | inl two ↦
        let lt = ltb→lt r 0x800 two in
        let ge : 0x80 ≤ r = ground arith in
        let whole : r / 64 * 64 + r % 64 ≡ r = omega arith in
        let d = decode_rune_two (r / 64) (r % 64) s (omega arith) (omega arith) (omega arith) in
        rw (more, two) (rw (d, whole) refl)
    | inr more2 ↦ elim (Bool-cases (ltb r 0x10000)) [
      | inl three ↦
          let lt = ltb→lt r 0x10000 three in
          let ge : 0x800 ≤ r = ground arith in
          let whole : r / 4096 * 4096 + r / 64 % 64 * 64 + r % 64 ≡ r = omega arith in
          let d =
            decode_rune_three (r / 4096) (r / 64 % 64) (r % 64) s (omega arith) (omega arith)
              (omega arith) (omega arith) (rw whole rune) in
          rw (more, more2, three) (rw (d, whole) refl)
      | inr more3 ↦
          let ge : 0x10000 ≤ r = ground arith in
          let lt : r < 0x110000 = ground arith in
          let whole : r / 262144 * 262144 + r / 4096 % 64 * 4096 + r / 64 % 64 * 64 + r % 64 ≡ r =
            omega arith in
          let d =
            decode_rune_four (r / 262144) (r / 4096 % 64) (r / 64 % 64) (r % 64) s (omega arith)
              (omega arith) (omega arith) (omega arith) (omega arith) (omega arith) in
          rw (more, more2, more3) (rw (d, whole) refl)
    ]
  ]
]

-- Encoded runes are decoded to the same runes, whatever stands behind them.
pub runes_from-encode_runes :
    (rs : List ℕ) (s : Text)
    → All IsRune rs
    → runes_from 0 (encode_runes rs ++ s) ≡ rs ++ runes_from 0 s
unfolding encode_runes
runes_from-encode_runes [] s h = refl
runes_from-encode_runes (r ∷ rs) s h = rw append_assoc (
    runes_from-encode_rune r (encode_runes rs ++ s) h.0
    ∙ ap (λ l. r ∷ l) (runes_from-encode_runes rs s h.1))

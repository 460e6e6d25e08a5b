-- ===== src/Shared/Text/Decimal/RoundTrip.antt =====
-- Printing a number and parsing it back: the fuel of the printer covers all of its digits.
use Prim.Native.Nat.{ℕ, zero, suc, ◌+◌, ◌-◌, ◌*◌, ◌/◌, ◌%◌, ◌^◌, ◌≤◌, ◌<◌}
use mathlib.Core.Path.{◌≡◌, refl, ◌∙◌}
use mathlib.Core.Logic.{inl, inr}
use mathlib.Core.Bool.{Bool, true, false, ◌&&◌}
use mathlib.Core.Option.{some}
use mathlib.Core.List.{[], ◌∷◌}
use native.Mathlib.Omega.{arith}
use cloudflare_smtp_relay.Shared.Tests.{leb, ltb, ◌==◌, Bool-cases, ltb→lt}
use cloudflare_smtp_relay.Shared.Int.{ℤ, pos, negsuc, IsInt64}
use cloudflare_smtp_relay.Shared.Text.Split.{lacks, Lacks}
use cloudflare_smtp_relay.Shared.Text.Base.{Text, is_empty}
use cloudflare_smtp_relay.Shared.Text.Decimal.{
  digits_from, show_ℕ, show_ℤ, parse_digits, parse_ℕ, atoi,
}

-- A digit that is printed is read back.
parse_digits-digit :
    (acc d : ℕ) (s : Text)
    → d < 10
    → parse_digits acc ((48 + d) ∷ s) ≡ parse_digits (acc * 10 + d) s
unfolding parse_digits
parse_digits-digit acc d s lt =
    let low : leb 48 (48 + d) ≡ true = ground arith in
    let high : leb (48 + d) 57 ≡ true = ground arith in
    let value : 48 + d - 48 ≡ d = omega arith in rw (low, high, value) refl

-- With more fuel than the number, every digit is printed.
parse_digits-digits_from :
    (fuel n : ℕ) (out : Text)
    → n < fuel
    → parse_digits 0 (digits_from fuel n out) ≡ parse_digits n out
unfolding digits_from
parse_digits-digits_from zero n out lt = absurd (omega arith)
parse_digits-digits_from (suc fuel) n out lt = elim (Bool-cases (ltb n 10)) [
  | inl last ↦
      let small : n < 10 = ltb→lt n 10 last in
      let whole : 0 * 10 + n % 10 ≡ n = omega arith in
      let read = parse_digits-digit 0 (n % 10) out (omega arith) in
      rw (last, digits_from) (rw whole at read)
  | inr more ↦
      let large : 10 ≤ n = ground arith in
      let whole : n / 10 * 10 + n % 10 ≡ n = omega arith in
      let read = parse_digits-digit (n / 10) (n % 10) out (omega arith) in
      rw (more, digits_from)
        (parse_digits-digits_from fuel (n / 10) ((48 + n % 10) ∷ out) (omega arith)
          ∙ rw whole at read)
]

-- A printed number is its decimal numeral: reading the digits gives the number back.
pub parse_digits-show_ℕ : (n : ℕ) → parse_digits 0 (show_ℕ n) ≡ some n
unfolding show_ℕ parse_digits
parse_digits-show_ℕ n = parse_digits-digits_from (suc n) n [] (omega arith)

abbrev is_numeral : Text → Bool
is_numeral [] = false
is_numeral (c ∷ s) = leb 48 c && leb c 57

digits_from-is_numeral :
    (fuel n : ℕ) (out : Text) → n < fuel → is_numeral (digits_from fuel n out) ≡ true
unfolding digits_from
digits_from-is_numeral zero n out lt = absurd (omega arith)
digits_from-is_numeral (suc fuel) n out lt = elim (Bool-cases (ltb n 10)) [
  | inl last ↦ rw (last, digits_from) (ground arith)
  | inr more ↦
      let large : 10 ≤ n = ground arith in
      rw (more, digits_from)
        (digits_from-is_numeral fuel (n / 10) ((48 + n % 10) ∷ out) (omega arith))
]

show_ℕ-is_numeral : (n : ℕ) → is_numeral (show_ℕ n) ≡ true
unfolding show_ℕ
show_ℕ-is_numeral n = digits_from-is_numeral (suc n) n [] (omega arith)

atoi-numeral :
    (t : Text) (n : ℕ)
    → is_numeral t ≡ true
    → parse_digits 0 t ≡ some n
    → n < 2 ^ 63
    → atoi t ≡ some (pos n)
unfolding atoi parse_ℕ
atoi-numeral [] n digit read lt = absurd (cc digit)
atoi-numeral (c ∷ t) n digit read lt =
    let minus : (c == b'-') ≡ false = ground arith in
    let plus : (c == b'+') ≡ false = ground arith in
    let fits : ltb n (2 ^ 63) ≡ true = ground arith in
    rw (minus, plus, atoi) (rw read (rw fits refl))

atoi-minus :
    (t : Text) (n : ℕ)
    → is_numeral t ≡ true
    → parse_digits 0 t ≡ some (suc n)
    → n < 2 ^ 63
    → atoi (b'-' ∷ t) ≡ some (negsuc n)
unfolding atoi parse_ℕ
atoi-minus [] n digit read lt = absurd (cc digit)
atoi-minus (c ∷ t) n digit read lt =
    let fits : ltb n (2 ^ 63) ≡ true = ground arith in rw read (rw fits refl)

-- Every integer of 64 bits is printed as a text that is read back as the same integer.
pub atoi-show_ℤ : (z : ℤ) → IsInt64 z → atoi (show_ℤ z) ≡ some z
unfolding show_ℤ
atoi-show_ℤ (pos n) (above, below) =
    atoi-numeral (show_ℕ n) n (show_ℕ-is_numeral n) (parse_digits-show_ℕ n) above
atoi-show_ℤ (negsuc n) (above, below) =
    atoi-minus (show_ℕ (suc n)) n (show_ℕ-is_numeral (suc n)) (parse_digits-show_ℕ (suc n))
      (omega arith)

is_numeral-nonempty : (t : Text) → is_numeral t ≡ true → is_empty t ≡ false
is_numeral-nonempty [] h = ground arith
is_numeral-nonempty (c ∷ t) h = refl

pub show_ℤ-nonempty : (z : ℤ) → is_empty (show_ℤ z) ≡ false
unfolding show_ℤ
show_ℤ-nonempty (pos n) = is_numeral-nonempty (show_ℕ n) (show_ℕ-is_numeral n)
show_ℤ-nonempty (negsuc n) = refl

-- No line break, for one, stands in a printed number.
digits_from-Lacks : (fuel n : ℕ) (out : Text) → Lacks 10 out → Lacks 10 (digits_from fuel n out)
unfolding digits_from lacks
digits_from-Lacks zero n out h = h
digits_from-Lacks (suc fuel) n out h = elim (Bool-cases (ltb n 10)) [
  | inl last ↦ rw (last, digits_from) (ground arith)
  | inr more ↦
      rw (more, digits_from) (digits_from-Lacks fuel (n / 10) ((48 + n % 10) ∷ out) (ground arith))
]

pub show_ℤ-Lacks : (z : ℤ) → Lacks 10 (show_ℤ z)
unfolding show_ℤ show_ℕ lacks
show_ℤ-Lacks (pos n) = digits_from-Lacks (suc n) n [] refl
show_ℤ-Lacks (negsuc n) =
    let digits = digits_from-Lacks (suc (suc n)) (suc n) [] refl in ground arith

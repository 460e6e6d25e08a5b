-- ===== src/Shared/Text/Decimal.antt =====
-- Decimal print and parse: strconv.Itoa, strconv.Atoi and strconv.ParseInt at base 10, 64 bits.
pub mod RoundTrip
use Prim.Native.Nat.{ℕ, zero, suc, ◌+◌, ◌-◌, ◌*◌, ◌/◌, ◌%◌, ◌^◌}
use mathlib.Core.Path.{◌≡◌, refl}
use mathlib.Core.Bool.{Bool, true, false, ◌&&◌}
use mathlib.Core.Option.{Option, none, some}
use mathlib.Core.List.{[], ◌∷◌}
use cloudflare_smtp_relay.Shared.Tests.{leb, ltb, ◌==◌, if◌then◌else◌}
use cloudflare_smtp_relay.Shared.Int.{ℤ, pos, negsuc}
use cloudflare_smtp_relay.Shared.Text.Base.{Text, codes}

-- The digits of `n` in front of `out`.
digits_from : ℕ → ℕ → Text → Text
digits_from zero n out = out
digits_from (suc fuel) n out =
    let out' = (48 + n % 10) ∷ out in
    let more = digits_from fuel (n / 10) out' in if ltb n 10 then out' else more

unfoldable pub show_ℕ : ℕ → Text
unfolding digits_from
show_ℕ n = digits_from (suc n) n []

unfoldable pub show_ℤ : ℤ → Text
unfolding show_ℕ
show_ℤ (pos n) = show_ℕ n
show_ℤ (negsuc n) = b'-' ∷ show_ℕ (suc n)

-- The value of the digits after those read so far, if all are digits.
unfoldable pub parse_digits : ℕ → Text → Option ℕ
parse_digits acc [] = some acc
parse_digits acc (c ∷ s) =
    let rest = parse_digits (acc * 10 + (c - 48)) s in
    if leb b'0' c && leb c b'9' then rest else none

parse_ℕ : Text → Option ℕ
parse_ℕ [] = none
parse_ℕ (c ∷ s) = parse_digits 0 (c ∷ s)

-- An int64 holds -2 ^ 63 to 2 ^ 63 - 1.
abbrev in_range : Bool → Option ℕ → Option ℤ
in_range negative none = none
in_range true (some zero) = some (pos 0)
in_range true (some (suc n)) = if ltb n (2 ^ 63) then some (negsuc n) else none
in_range false (some n) = if ltb n (2 ^ 63) then some (pos n) else none

-- strconv.Atoi: an optional sign, then digits alone.
unfoldable pub atoi : Text → Option ℤ
unfolding parse_ℕ parse_digits
atoi [] = none
atoi (c ∷ s) =
    if c == b'-'
    then in_range true (parse_ℕ s)
    else if c == b'+'
    then in_range false (parse_ℕ s)
    else in_range false (parse_ℕ (c ∷ s))

shown : show_ℕ 2525 ≡ codes "2525"
unfolding show_ℕ codes
shown = refl

read_back : atoi (codes "-120") ≡ some (negsuc 119)
unfolding atoi codes
read_back = refl

too_large : atoi (codes "9223372036854775808") ≡ none
unfolding atoi codes
too_large = refl

-- ===== src/Edge/Secret.antt =====
-- `authorized` of worker/src/index.js: the bearer token against the secret, in constant time.
-- JavaScript's | and ^ work on integers of 32 bits, whose bits are written out.
use cloudflare_smtp_relay.Shared.{
  ℕ, zero, suc, ◌+◌, ◌*◌, ◌/◌, ◌%◌, ◌^◌, ◌<◌, ◌≡◌, refl, ap, ◌↔◌, Bool, true, false, not, Option,
  some, none, [], ◌∷◌, ◌++◌, drop, arith, ◌==◌, if◌then◌else◌, length, All, inl, inr, Bool-cases,
  ◌∙◌,
}
use cloudflare_smtp_relay.Shared.Text.{Text, codes, has_prefix, is_empty}

-- The lowest bits of `a | b`.
or_bits : ℕ → ℕ → ℕ → ℕ
or_bits zero a b = 0
or_bits (suc w) a b = (if a % 2 + b % 2 == 0 then 0 else 1) + 2 * or_bits w (a / 2) (b / 2)

-- The lowest bits of `a ^ b`.
xor_bits : ℕ → ℕ → ℕ → ℕ
xor_bits zero a b = 0
xor_bits (suc w) a b = (a + b) % 2 + 2 * xor_bits w (a / 2) (b / 2)

abbrev integer_bits : ℕ
integer_bits = 32

-- The loop over the units of the secret. The two strings have one length where it is called.
differences : ℕ → Text → Text → ℕ
differences diff (p ∷ presented) (s ∷ secret) =
    differences (or_bits integer_bits diff (xor_bits integer_bits p s)) presented secret
differences diff presented secret = diff

-- What follows "Bearer " in the header, or "".
abbrev presented_by : Text → Text
presented_by header = if has_prefix header (codes "Bearer ") then drop 7 header else []

unfoldable pub authorized : Option Text → Text → Bool
unfolding differences or_bits xor_bits
authorized header secret =
    let presented = presented_by (elim header [ some h ↦ h | none ↦ [] ]) in
    if not (length presented == length secret) then false else differences 0 presented secret == 0

xor_bits_bounded : (w a b : ℕ) → xor_bits w a b < 2 ^ w
unfolding xor_bits
xor_bits_bounded zero a b = omega arith
xor_bits_bounded (suc w) a b = omega (arith, xor_bits_bounded w (a / 2) (b / 2))

xor_bits_sound : (w a b : ℕ) → a < 2 ^ w → b < 2 ^ w → xor_bits w a b ≡ 0 → a ≡ b
unfolding xor_bits
xor_bits_sound zero a b ha hb e = omega arith
xor_bits_sound (suc w) a b ha hb e =
    let same : a / 2 ≡ b / 2 =
      xor_bits_sound w (a / 2) (b / 2) (omega arith) (omega arith) (omega arith) in
    omega arith

xor_bits_self : (w a : ℕ) → xor_bits w a a ≡ 0
unfolding xor_bits
xor_bits_self zero a = refl
xor_bits_self (suc w) a = omega (arith, xor_bits_self w (a / 2))

or_bits_bounded : (w a b : ℕ) → or_bits w a b < 2 ^ w
unfolding or_bits
or_bits_bounded zero a b = omega arith
or_bits_bounded (suc w) a b = ground (arith, or_bits_bounded w (a / 2) (b / 2))

or_bits-zero : (w a b : ℕ) → a < 2 ^ w → b < 2 ^ w → or_bits w a b ≡ 0 → (a ≡ 0) × (b ≡ 0)
unfolding or_bits
or_bits-zero zero a b ha hb e = (omega arith, omega arith)
or_bits-zero (suc w) a b ha hb e =
    let (low, high) = or_bits-zero w (a / 2) (b / 2) (omega arith) (omega arith) (ground arith) in
    (ground arith, ground arith)

or_bits-none : (w : ℕ) → or_bits w 0 0 ≡ 0
unfolding or_bits
or_bits-none zero = refl
or_bits-none (suc w) = omega (arith, or_bits-none w)

-- Each unit of the string is an integer of 32 bits, as a UTF-16 unit is.
abbrev pub IsUnits : Text → Type 0
IsUnits s = All (λ c. c < 2 ^ integer_bits) s

differences_sound :
    (diff : ℕ) (presented secret : Text)
    → diff < 2 ^ integer_bits
    → IsUnits presented
    → IsUnits secret
    → length presented ≡ length secret
    → differences diff presented secret ≡ 0
    → (diff ≡ 0) × (presented ≡ secret)
unfolding differences
differences_sound diff [] [] hd hp hs el e = (e, refl)
differences_sound diff (p ∷ presented) (s ∷ secret) hd hp hs el e =
    let x = xor_bits integer_bits p s in
    let (d, rest) =
      differences_sound (or_bits integer_bits diff x) presented secret
        (or_bits_bounded integer_bits diff x) hp.1 hs.1 (omega arith) e in
    let (no_diff, same) =
      or_bits-zero integer_bits diff x hd (xor_bits_bounded integer_bits p s) d in
    (no_diff, rw (xor_bits_sound integer_bits p s hp.0 hs.0 same, rest) refl)
differences_sound diff [] (s ∷ secret) hd hp hs el e = absurd (omega arith)
differences_sound diff (p ∷ presented) [] hd hp hs el e = absurd (omega arith)

differences_self : (s : Text) → differences 0 s s ≡ 0
unfolding differences
differences_self [] = refl
differences_self (c ∷ s) =
    rw (xor_bits_self integer_bits c, or_bits-none integer_bits) (differences_self s)

has_prefix-split : (s p : Text) → has_prefix s p ≡ true → s ≡ p ++ drop (length p) s
unfolding has_prefix
has_prefix-split s [] e = refl
has_prefix-split [] (b ∷ p) e = cc
has_prefix-split (a ∷ s) (b ∷ p) e = ground (arith, has_prefix-split s p)

IsUnits-drop : (n : ℕ) (s : Text) → IsUnits s → IsUnits (drop n s)
IsUnits-drop zero s h = h
IsUnits-drop (suc n) [] h = tt
IsUnits-drop (suc n) (c ∷ s) h = IsUnits-drop n s h.1

pub authorized-bearer :
    (secret : Text) → authorized (some (codes "Bearer " ++ secret)) secret ≡ true
unfolding authorized has_prefix codes
authorized-bearer secret = rw (differences_self secret) (ground arith)

presented_by-split :
    (header secret : Text)
    → is_empty secret ≡ false
    → presented_by header ≡ secret
    → header ≡ codes "Bearer " ++ secret
unfolding codes
presented_by-split header secret filled e =
    elim (Bool-cases (has_prefix header (codes "Bearer "))) [
      | inl bearer ↦
          let tail : drop 7 header ≡ secret = rw bearer at e in
          has_prefix-split header (codes "Bearer ") bearer ∙ rw tail refl
      | inr other ↦ let none_presented : [] ≡ secret = rw other at e in ground arith
    ]

authorized-presented :
    (header : Option Text) (secret : Text)
    → IsUnits (presented_by (elim header [ some h ↦ h | none ↦ [] ]))
    → IsUnits secret
    → authorized header secret ≡ true
    → presented_by (elim header [ some h ↦ h | none ↦ [] ]) ≡ secret
unfolding authorized
authorized-presented header secret hp hs e =
    let presented = presented_by (elim header [ some h ↦ h | none ↦ [] ]) in
    elim (Bool-cases (length presented == length secret)) [
      | inl same ↦
          (differences_sound 0 presented secret (omega arith) hp hs (ground arith) (ground arith)).1
      | inr other ↦ absurd (ground arith)
    ]

IsUnits-presented : (header : Text) → IsUnits header → IsUnits (presented_by header)
IsUnits-presented header h = elim (Bool-cases (has_prefix header (codes "Bearer "))) [
  | inl bearer ↦ rw bearer (IsUnits-drop 7 header h)
  | inr other ↦ rw other tt
]

-- Where the secret is not empty, a request is authorized exactly if its header is "Bearer " and the
-- secret.
pub authorized_iff :
    (header : Option Text) (secret : Text)
    → All IsUnits (elim header [ some h ↦ h ∷ [] | none ↦ [] ])
    → IsUnits secret
    → is_empty secret ≡ false
    → (authorized header secret ≡ true) ↔ (header ≡ some (codes "Bearer " ++ secret))
unfolding has_prefix codes
authorized_iff none secret hh hs filled = (
  λ e. let nothing : [] ≡ secret = authorized-presented none secret tt hs e in ground arith,
  λ e. absurd (cc e),
)
authorized_iff (some h) secret hh hs filled = (
  λ e. ap some (
      presented_by-split h secret filled
        (authorized-presented (some h) secret (IsUnits-presented h hh.0) hs e)),
  λ e. rw e (authorized-bearer secret),
)

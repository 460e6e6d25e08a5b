-- ===== src/Logging/Runes/Valid.antt =====
-- Go's conversion of a string to runes: every rune that it yields is one, whatever the bytes.
use cloudflare_smtp_relay.Shared.{
  ℕ, zero, suc, ◌%◌, ◌≤◌, ◌<◌, ◌≡◌, refl, ◌≢◌, ◌⊎◌, inl, inr, Bool, true, false, List, [], ◌∷◌,
  arith, ltb, ◌==◌, if◌then◌else◌, ltb→lt, take, All,
}
use cloudflare_smtp_relay.Shared.Text.{Text}
use cloudflare_smtp_relay.Logging.Runes.{
  in_bytes, rune_error, two_bytes, three_bytes, four_bytes, decode_rune, runes_from, runes,
}

-- A Unicode code point that is no surrogate.
abbrev pub IsRune : ℕ → Type 0
IsRune r = (r < 0xd800) ⊎ ((0xe000 ≤ r) × (r < 0x110000))

two_bytes-IsRune : (a : ℕ) (s : Text) → IsRune (two_bytes a s).0
two_bytes-IsRune a [] = ground arith
two_bytes-IsRune a (b ∷ s) = ground arith

three_bytes-IsRune :
    (lo hi a : ℕ) (s : Text)
    → 0x80 ≤ lo
    → hi ≤ 0xbf
    → (a % 16 ≡ 13 → hi ≤ 0x9f)
    → IsRune (three_bytes lo hi a s).0
three_bytes-IsRune lo hi a [] low high h = ground arith
three_bytes-IsRune lo hi a (b ∷ []) low high h = ground arith
three_bytes-IsRune lo hi a (b ∷ c ∷ s) low high h = ground arith

four_bytes-IsRune :
    (lo hi a : ℕ) (s : Text)
    → 0x80 ≤ lo
    → hi ≤ 0xbf
    → a % 8 ≤ 4
    → (a % 8 ≡ 0 → 0x90 ≤ lo)
    → (a % 8 ≡ 4 → hi ≤ 0x8f)
    → IsRune (four_bytes lo hi a s).0
four_bytes-IsRune lo hi a [] low high few h k = ground arith
four_bytes-IsRune lo hi a (b ∷ []) low high few h k = ground arith
four_bytes-IsRune lo hi a (b ∷ c ∷ []) low high few h k = ground arith
four_bytes-IsRune lo hi a (b ∷ c ∷ d ∷ s) low high few h k = ground arith

-- A test picks a rune where it holds and where it fails.
if_IsRune :
    (b : Bool) (p q : ℕ × ℕ)
    → (b ≡ true → IsRune p.0)
    → (b ≡ false → IsRune q.0)
    → IsRune (if b then p else q).0
if_IsRune true p q holds fails = holds refl
if_IsRune false p q holds fails = fails refl

rune_error-IsRune : IsRune rune_error
rune_error-IsRune = inr (omega arith, omega arith)

-- The branches of `decode_rune`, from the last ones up.
abbrev last_ranges : ℕ → List ℕ → ℕ × ℕ
last_ranges a s =
    if in_bytes 0xf1 0xf3 a
    then four_bytes 0x80 0xbf a s
    else if a == 0xf4
    then four_bytes 0x80 0x8f a s
    else (rune_error, 0)

last_ranges-IsRune : (a : ℕ) (s : Text) → IsRune (last_ranges a s).0
last_ranges-IsRune a s =
    if_IsRune (in_bytes 0xf1 0xf3 a) _ _
      (λ e.
        let low : 0xf1 ≤ a = ground arith in
        let high : a ≤ 0xf3 = ground arith in
        four_bytes-IsRune 0x80 0xbf a s (omega arith) (omega arith) (omega arith) (λ h. omega arith)
          (λ h. omega arith))
      (λ _.
        if_IsRune (a == 0xf4) _ _
          (λ e.
            let eq : a ≡ 0xf4 = ground arith in
            four_bytes-IsRune 0x80 0x8f a s (omega arith) (omega arith) (omega arith)
              (λ h. omega arith) (λ _. omega arith))
          (λ _. rune_error-IsRune))

abbrev middle_ranges : ℕ → List ℕ → ℕ × ℕ
middle_ranges a s =
    if in_bytes 0xe1 0xef a
    then three_bytes 0x80 0xbf a s
    else if a == 0xf0
    then four_bytes 0x90 0xbf a s
    else last_ranges a s

middle_ranges-IsRune : (a : ℕ) (s : Text) → a ≢ 0xed → IsRune (middle_ranges a s).0
middle_ranges-IsRune a s other =
    if_IsRune (in_bytes 0xe1 0xef a) _ _
      (λ e.
        let low : 0xe1 ≤ a = ground arith in
        let high : a ≤ 0xef = ground arith in
        three_bytes-IsRune 0x80 0xbf a s (omega arith) (omega arith)
          (λ h. absurd (other (omega arith))))
      (λ _.
        if_IsRune (a == 0xf0) _ _
          (λ e.
            let eq : a ≡ 0xf0 = ground arith in
            four_bytes-IsRune 0x90 0xbf a s (omega arith) (omega arith) (omega arith)
              (λ _. omega arith) (λ h. omega arith))
          (λ _. last_ranges-IsRune a s))

-- Whatever the bytes, a rune that is decoded is one.
decode_rune-IsRune : (a : ℕ) (s : Text) → IsRune (decode_rune a s).0
unfolding decode_rune
decode_rune-IsRune a s =
    if_IsRune (ltb a 0x80) _ _ (λ e. inl (let lt = ltb→lt a 0x80 e in omega arith))
      (λ _.
        if_IsRune (in_bytes 0xc2 0xdf a) _ _ (λ _. two_bytes-IsRune a s)
          (λ _.
            if_IsRune (a == 0xe0) _ _
              (λ e.
                let eq : a ≡ 0xe0 = ground arith in
                three_bytes-IsRune 0xa0 0xbf a s (omega arith) (omega arith) (λ h. omega arith))
              (λ _.
                if_IsRune (a == 0xed) _ _
                  (λ _.
                    three_bytes-IsRune 0x80 0x9f a s (omega arith) (omega arith) (λ _. omega arith))
                  (λ e. let other : a ≢ 0xed = ground arith in middle_ranges-IsRune a s other))))

runes_from-IsRune : (skip : ℕ) (s : Text) → All IsRune (runes_from skip s)
unfolding runes_from
runes_from-IsRune skip [] = tt
runes_from-IsRune (suc skip) (a ∷ s) = runes_from-IsRune skip s
runes_from-IsRune zero (a ∷ s) = (decode_rune-IsRune a s, runes_from-IsRune (decode_rune a s).1 s)

pub runes-IsRune : (s : Text) → All IsRune (runes s)
unfolding runes
runes-IsRune s = runes_from-IsRune 0 s

pub take-IsRune : (n : ℕ) (rs : List ℕ) → All IsRune rs → All IsRune (take n rs)
take-IsRune zero rs h = tt
take-IsRune (suc n) [] h = tt
take-IsRune (suc n) (r ∷ rs) h = (h.0, take-IsRune n rs h.1)

-- ===== src/Shared/Text/Split.antt =====
-- strings.Split of a text that was put together with the separator between its parts.
use Prim.Native.Nat.{ℕ}
use mathlib.Core.Path.{◌≡◌, refl, ap, ◌∙◌}
use mathlib.Core.Bool.{Bool, true, false, not, ◌&&◌}
use mathlib.Core.List.{List, [], ◌∷◌, ◌++◌, append_assoc, append-nil}
use native.Mathlib.Omega.{arith}
use cloudflare_smtp_relay.Shared.Tests.{◌==◌}
use cloudflare_smtp_relay.Shared.Lists.{All}
use cloudflare_smtp_relay.Shared.Text.Base.{Text, is_empty}
use cloudflare_smtp_relay.Shared.Text.Case.{split, split_from}

-- The texts with the separator between any two.
unfoldable pub joined : ℕ → List Text → Text
joined sep [] = []
joined sep (d ∷ []) = d
joined sep (d ∷ e ∷ ds) = d ++ sep ∷ joined sep (e ∷ ds)

unfoldable pub lacks : ℕ → Text → Bool
lacks sep [] = true
lacks sep (c ∷ s) = not (c == sep) && lacks sep s

abbrev pub Lacks : ℕ → Text → Type 0
Lacks sep s = lacks sep s ≡ true

pub Lacks-append : (sep : ℕ) (s t : Text) → Lacks sep s → Lacks sep t → Lacks sep (s ++ t)
unfolding lacks
Lacks-append sep [] t h k = k
Lacks-append sep (c ∷ s) t h k = ground (arith, Lacks-append sep s t)

split_from-last : (sep : ℕ) (cur d : Text) → Lacks sep d → split_from sep cur d ≡ (cur ++ d) ∷ []
unfolding split_from lacks
split_from-last sep cur [] h = rw append-nil refl
split_from-last sep cur (c ∷ d) h =
    let other : (c == sep) ≡ false = ground arith in
    rw other (split_from-last sep (cur ++ c ∷ []) d (ground arith) ∙ rw append_assoc refl)

split_from-word :
    (sep : ℕ) (cur d s : Text)
    → Lacks sep d
    → split_from sep cur (d ++ sep ∷ s) ≡ (cur ++ d) ∷ split_from sep [] s
unfolding split_from lacks
split_from-word sep cur [] s h =
    let same : (sep == sep) ≡ true = ground arith in rw same (rw append-nil refl)
split_from-word sep cur (c ∷ d) s h =
    let other : (c == sep) ≡ false = ground arith in
    rw other (split_from-word sep (cur ++ c ∷ []) d s (ground arith) ∙ rw append_assoc refl)

-- At least one text, none with the separator in it, is read back.
pub split-joined :
    (sep : ℕ) (d : Text) (ds : List Text)
    → All (Lacks sep) (d ∷ ds)
    → split (joined sep (d ∷ ds)) sep ≡ d ∷ ds
unfolding split joined
split-joined sep d [] h = split_from-last sep [] d h.0
split-joined sep d (e ∷ ds) h =
    split_from-word sep [] d (joined sep (e ∷ ds)) h.0 ∙ ap (λ l. d ∷ l) (split-joined sep e ds h.1)

pub joined-nonempty :
    (sep : ℕ) (d : Text) (ds : List Text)
    → is_empty d ≡ false
    → is_empty (joined sep (d ∷ ds)) ≡ false
unfolding joined
joined-nonempty sep d [] full = full
joined-nonempty sep [] (e ∷ ds) full = absurd (cc full)
joined-nonempty sep (c ∷ d) (e ∷ ds) full = refl

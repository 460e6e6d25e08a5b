-- ===== src/Config/RoundTrip/Domains.antt =====
-- internal/config/validate.go: what `normalizeDomains` makes of a list of domains that is joined
-- by commas.
use mathlib.Core.List.{append_assoc, append-nil}
use cloudflare_smtp_relay.Shared.{◌≡◌, refl, ◌∙◌, false, ◌||◌, List, [], ◌∷◌, ◌++◌, arith, All}
use cloudflare_smtp_relay.Shared.Text.{
  Text, text_eq_iff, is_empty, contains, IsDistinct, contains-append, Unicode, to_lower, trim_space,
  joined, Lacks, split-joined, joined-nonempty,
}
use cloudflare_smtp_relay.Config.{normalize_domains, add_domain}
use cloudflare_smtp_relay.Config.Laws.Domains.{AllNonempty}

-- The domains with a comma between any two.
abbrev pub comma_separated : List Text → Text
comma_separated = joined b','

-- A domain that is trimmed and in lower case already, and has no comma.
abbrev pub IsClean : Unicode → Text → Type 0
IsClean u d = (to_lower u (trim_space u d) ≡ d) × Lacks b',' d

IsClean-Lacks : (u : Unicode) (ds : List Text) → All (IsClean u) ds → All (Lacks b',') ds
IsClean-Lacks u [] clean = tt
IsClean-Lacks u (d ∷ ds) clean = (clean.0.1, IsClean-Lacks u ds clean.1)

-- A domain of a list without repetition does not stand before itself.
contains-before :
    (d : Text) (out ds : List Text) → IsDistinct (out ++ d ∷ ds) → contains d out ≡ false
unfolding contains
contains-before d [] ds h = refl
contains-before d (x ∷ out) ds h =
    let rest = contains-before d out ds h.1 in
    ground (arith, contains-append x out (d ∷ ds), h.0, text_eq_iff x d, text_eq_iff d x)

add_domain-clean :
    (u : Unicode) (out ds : List Text)
    → All (IsClean u) ds
    → AllNonempty ds
    → IsDistinct (out ++ ds)
    → add_domain u out ds ≡ out ++ ds
unfolding add_domain
add_domain-clean u out [] clean full once = rw append-nil refl
add_domain-clean u out (d ∷ ds) clean full once =
    let new : (is_empty d || contains d out) ≡ false =
      rw (contains-before d out ds once, full.0) refl in
    rw (clean.0.0, add_domain)
      (rw (new, add_domain)
        (add_domain-clean u (out ++ d ∷ []) ds clean.1 full.1 (rw append_assoc once)
          ∙ rw append_assoc refl))

pub normalize_domains-comma_separated :
    (u : Unicode) (ds : List Text)
    → All (IsClean u) ds
    → AllNonempty ds
    → IsDistinct ds
    → normalize_domains u (comma_separated ds) ≡ ds
unfolding normalize_domains
normalize_domains-comma_separated u [] clean full once = unfold joined in refl
normalize_domains-comma_separated u (d ∷ ds) clean full once =
    let some_text : is_empty (comma_separated (d ∷ ds)) ≡ false =
      joined-nonempty b',' d ds full.0 in
    rw (some_text, normalize_domains)
      (rw (split-joined b',' d ds (IsClean-Lacks u (d ∷ ds) clean))
        (add_domain-clean u [] (d ∷ ds) clean full once))

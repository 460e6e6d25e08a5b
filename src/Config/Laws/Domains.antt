-- ===== src/Config/Laws/Domains.antt =====
-- Laws of `normalizeDomains` (internal/config/validate.go).
use cloudflare_smtp_relay.Shared.{
  ◌≡◌, refl, ◌∙◌, inl, inr, Bool, true, false, not, ◌&&◌, ◌||◌, List, [], ◌∷◌, ◌++◌, map, arith,
  Bool-cases, All, All-append,
}
use cloudflare_smtp_relay.Shared.Text.{
  Text, text_eq, text_eq_iff, is_empty, contains, IsDistinct, contains-snoc, IsDistinct-snoc,
  Unicode, to_lower, trim_space, split,
}
use cloudflare_smtp_relay.Config.{normalize_domains, add_domain}

abbrev pub AllNonempty : List Text → Type 0
AllNonempty = All (λ d. is_empty d ≡ false)

-- The domains of the parts: each trimmed and in lower case.
abbrev pub cleaned : Unicode → List Text → List Text
cleaned u parts = map (λ p. to_lower u (trim_space u p)) parts

-- A string that equals one that is not empty is not empty.
member_nonempty : (k d : Text) → is_empty d ≡ false → text_eq k d ≡ true → is_empty k ≡ false
member_nonempty k d new same = rw ((text_eq_iff k d).0 same) new

-- An item that is blank or listed already adds no member.
absorbed :
    (k d : Text) (out : List Text) (later : Bool)
    → (is_empty d || contains d out) ≡ true
    → (contains k out || (not (is_empty k) && later))
      ≡ (contains k out || (not (is_empty k) && (text_eq k d || later)))
absorbed k d out later h = elim (Bool-cases (text_eq k d)) [
  | inr other ↦ rw other refl
  | inl same ↦
      let here : (is_empty k || contains k out) ≡ true = rw (← (text_eq_iff k d).0 same) at h in
      ground arith
]

module _ (u : Unicode) where
  add_domain_lem :
      (k : Text) (out parts : List Text)
      → AllNonempty out
      → IsDistinct out
      → AllNonempty (add_domain u out parts)
        × IsDistinct (add_domain u out parts)
        × (contains k (add_domain u out parts)
            ≡ (contains k out || (not (is_empty k) && contains k (cleaned u parts))))
  unfolding add_domain contains
  add_domain_lem k out [] full once = (full, once, ground arith)
  add_domain_lem k out (p ∷ parts) full once =
      let d = to_lower u (trim_space u p) in
      elim (Bool-cases (is_empty d || contains d out)) [
        | inl skipped ↦
            rw (skipped, add_domain)
              (let (full', once', all) = add_domain_lem k out parts full once in
                (full', once', all ∙ absorbed k d out (contains k (cleaned u parts)) skipped))
        | inr kept ↦
            rw (kept, add_domain)
              (let fresh : contains d out ≡ false = ground arith in
                let new : is_empty d ≡ false = ground arith in
                let (full', once', all) =
                  add_domain_lem k (out ++ d ∷ []) parts
                    (All-append (λ e. is_empty e ≡ false) out (d ∷ []) full (new, tt))
                    (IsDistinct-snoc d out once fresh) in
                (full', once', ground (arith, contains-snoc k d out, member_nonempty k d new)))
      ]

  -- The domains of a variable are the trimmed, lower-cased items between its commas that are not
  -- blank, all of them and no others; none of them is empty, and none is listed twice.
  pub normalize_domains_lem :
      (k raw : Text)
      → AllNonempty (normalize_domains u raw)
        × IsDistinct (normalize_domains u raw)
        × (contains k (normalize_domains u raw)
            ≡ (not (is_empty raw) && (not (is_empty k) && contains k (cleaned u (split raw b',')))))
  unfolding normalize_domains contains
  normalize_domains_lem k raw = elim (Bool-cases (is_empty raw)) [
    | inl empty ↦ rw (empty, normalize_domains) (tt, tt, refl)
    | inr given ↦ rw (given, normalize_domains) (add_domain_lem k [] (split raw b',') tt tt)
  ]

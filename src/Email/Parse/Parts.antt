-- ===== src/Email/Parse/Parts.antt =====
-- Laws of `readBodyParts` (internal/email/parse.go).
use cloudflare_smtp_relay.Shared.{
  ◌≡◌, refl, inl, inr, Bool, true, false, not, ◌&&◌, ◌||◌, Option, none, some, List, [], ◌∷◌, arith,
  if◌then◌else◌, Option-cases,
}
use cloudflare_smtp_relay.Shared.Text.{Text, codes, has_prefix}
use cloudflare_smtp_relay.Email.Errors.{Fault, Fallible, ok, failed, Fallible-cases}
use cloudflare_smtp_relay.Email.Parse.{
  Part, inline, attachment, ReadError, NextPart, Bodies, create_fatal, store_body, take_part,
  is_fatal, read_body_parts,
}

-- The body of an inline part that could be read and whose content type passes the test.
body_of : (Text → Bool) → Option Part → Option Text
body_of wanted none = none
body_of wanted (some attachment) = none
body_of wanted (some (inline content_type (failed e))) = none
body_of wanted (some (inline content_type (ok body))) =
    if wanted content_type then some body else none

abbrev pub is_plain : Text → Bool
is_plain t = has_prefix t (codes "text/plain")

abbrev pub is_html : Text → Bool
is_html t = not (is_plain t) && has_prefix t (codes "text/html")

abbrev last_of : Text → Option Text → Text
last_of found none = found
last_of found (some body) = body

-- The last such body among the parts.
unfoldable pub last_body : (Text → Bool) → Text → List NextPart → Text
unfolding body_of
last_body wanted found [] = found
last_body wanted found (n ∷ parts) = last_body wanted (last_of found (body_of wanted n.part)) parts

-- A part whose body can be read, or that is not read at all.
abbrev can_read : Option Part → Bool
can_read none = true
can_read (some attachment) = true
can_read (some (inline content_type (failed e))) = false
can_read (some (inline content_type (ok body))) = true

abbrev pub is_none : Option Fault → Bool
is_none none = true
is_none (some e) = false

-- The error of a part is none, or says only that a charset or an encoding is not known.
abbrev pub is_harmless : Option ReadError → Bool
is_harmless none = true
is_harmless (some e) = e.unknown_charset || e.unknown_encoding

-- The error of the header is none, or says only that the charset is not known.
abbrev pub can_read_header : Option ReadError → Bool
can_read_header none = true
can_read_header (some e) = e.unknown_charset

abbrev pub all_readable : List NextPart → Bool
all_readable [] = true
all_readable (n ∷ parts) = (is_harmless n.err && can_read n.part) && all_readable parts

is_none-is_fatal : (err : Option ReadError) → is_none (is_fatal err) ≡ is_harmless err
is_none-is_fatal none = refl
is_none-is_fatal (some e) = ground arith

pub is_none-create_fatal :
    (err : Option ReadError) → is_none (create_fatal err) ≡ can_read_header err
is_none-create_fatal none = refl
is_none-create_fatal (some e) = ground arith

abbrev pub succeeds {ℓ} : {A : Type ℓ} → Fallible A → Bool
succeeds (ok a) = true
succeeds (failed e) = false

take_part_lem :
    (p : Option Part) (b : Bodies) {b' : Bodies}
    → take_part p b ≡ ok b'
    → (b'.text ≡ last_of b.text (body_of is_plain p))
      × (b'.html ≡ last_of b.html (body_of is_html p))
unfolding take_part store_body body_of
take_part_lem none b h = ground arith
take_part_lem (some attachment) b h = ground arith
take_part_lem (some (inline content_type (failed e))) b h = cc
take_part_lem (some (inline content_type (ok body))) b h = ground arith

succeeds-take_part : (p : Option Part) (b : Bodies) → succeeds (take_part p b) ≡ can_read p
unfolding take_part
succeeds-take_part none b = refl
succeeds-take_part (some attachment) b = refl
succeeds-take_part (some (inline content_type (failed e))) b = refl
succeeds-take_part (some (inline content_type (ok body))) b = refl

-- A loop that succeeds has taken its first part.
read_body_parts-cons :
    (n : NextPart) (parts : List NextPart) (b : Bodies) {b' : Bodies}
    → read_body_parts (n ∷ parts) b ≡ ok b'
    → (b₁ : Bodies) × (take_part n.part b ≡ ok b₁) × (read_body_parts parts b₁ ≡ ok b')
unfolding read_body_parts
read_body_parts-cons n parts b h = elim (Option-cases (is_fatal n.err)) [
  | inr (e, fatal) ↦ absurd (cc (rw (fatal, read_body_parts) at h))
  | inl fine ↦ elim (Fallible-cases (take_part n.part b)) [
    | inl (b₁, taken) ↦ (b₁, taken, ground arith)
    | inr (e, broken) ↦ absurd (ground arith)
  ]
]

-- The bodies that are kept are the last text/plain and the last text/html part; attachments and
-- other parts leave no trace.
pub read_body_parts_lem :
    (parts : List NextPart) (b : Bodies) {b' : Bodies}
    → read_body_parts parts b ≡ ok b'
    → (b'.text ≡ last_body is_plain b.text parts) × (b'.html ≡ last_body is_html b.html parts)
unfolding last_body
read_body_parts_lem [] b h = unfold read_body_parts in ground arith
read_body_parts_lem (n ∷ parts) b h =
    let (b₁, taken, rest) = read_body_parts-cons n parts b h in
    let (text, html) = take_part_lem n.part b taken in
    let ih = read_body_parts_lem parts b₁ rest in rw (← text, ← html) ih

-- Reading succeeds exactly when no part comes with an error other than an unknown charset or
-- encoding and the body of every inline part can be read.
pub succeeds-read_body_parts :
    (parts : List NextPart) (b : Bodies) → succeeds (read_body_parts parts b) ≡ all_readable parts
unfolding read_body_parts
succeeds-read_body_parts [] b = refl
succeeds-read_body_parts (n ∷ parts) b = elim (Option-cases (is_fatal n.err)) [
  | inr (e, fatal) ↦ rw (fatal, read_body_parts, ← is_none-is_fatal n.err) (rw fatal refl)
  | inl fine ↦
      rw (← is_none-is_fatal n.err, ← succeeds-take_part n.part b)
        (elim (Fallible-cases (take_part n.part b)) [
          | inl (b₁, taken) ↦ rw (fine, taken, read_body_parts) (succeeds-read_body_parts parts b₁)
          | inr (e, broken) ↦ rw (fine, broken, read_body_parts) refl
        ])
]

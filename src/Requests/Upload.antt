-- ===== src/Requests/Upload.antt =====
-- backend/internal/pkg/upload/upload.go: the size and the type of an uploaded file.
use reimbursement_system.Base.{
  ℕ, zero, suc, ◌≤◌, ◌<◌, ◌≡◌, refl, Bool, true, false, ◌&&◌, Option, none, some, [], ◌∷◌, arith,
  ltb, leb, ◌==◌, if◌then◌else◌, length, take, drop, Text, text_eq, text_eq_sound, lit, &&-true,
  ==_iff, Bool-cases, inl, inr, ap₂,
}

abbrev pub max_size : ℕ
max_size = 5242880

pub data UploadError : Type 0 where
  too_large empty_file bad_mime read_failed : UploadError

pub data Mime : Type 0 where
  png jpeg webp pdf : Mime

-- bytes.HasPrefix
abbrev pub has_prefix : Text → Text → Bool
has_prefix s [] = true
has_prefix [] (p ∷ ps) = false
has_prefix (c ∷ s) (p ∷ ps) = c == p && has_prefix s ps

abbrev pub png_magic : Text
png_magic = 0x89 ∷ 0x50 ∷ 0x4E ∷ 0x47 ∷ 0x0D ∷ 0x0A ∷ 0x1A ∷ 0x0A ∷ []

abbrev pub jpeg_magic : Text
jpeg_magic = 0xFF ∷ 0xD8 ∷ 0xFF ∷ []

abbrev pub is_webp : Text → Bool
is_webp head =
    leb 12 (length head)
    && (has_prefix head (lit "RIFF") && text_eq (take 4 (drop 8 head)) (lit "WEBP"))

-- Sniff
unfoldable pub sniff : Text → Option Mime
sniff head =
    if has_prefix head png_magic
    then some png
    else if has_prefix head jpeg_magic
    then some jpeg
    else if is_webp head
    then some webp
    else if has_prefix head (lit "%PDF-")
    then some pdf
    else none

pub data Validated : Type 0 where
  accepted : Text → Mime → Validated
  refused : UploadError → Validated

abbrev pub check_content : Text → Validated
check_content content =
    if length content == 0
    then refused empty_file
    else if ltb max_size (length content)
    then refused too_large
    else elim (sniff content) [ none ↦ refused bad_mime | some mime ↦ accepted content mime ]

-- Validate: the reader fails, or it has a body, of which LimitReader lets so much through.
unfoldable pub validate : Option Text → Validated
validate none = refused read_failed
validate (some body) = check_content (take (suc max_size) body)

take_all : (n : ℕ) (s : Text) → length (take n s) < n → take n s ≡ s
take_all zero s h = ground arith
take_all (suc n) [] h = refl
take_all (suc n) (c ∷ s) h = let e = take_all n s (omega arith) in rw e refl

accepted-parts :
    (content t : Text) (mime : Mime)
    → check_content content ≡ accepted t mime
    → (t ≡ content)
      × (1 ≤ length content)
      × (length content ≤ max_size)
      × (sniff content ≡ some mime)
accepted-parts content t mime h = (ground arith, ground arith, ground arith, ground arith)

has_prefix-take : (s p : Text) → has_prefix s p ≡ true → take (length p) s ≡ p
has_prefix-take s [] h = refl
has_prefix-take [] (c ∷ p) h = absurd (ground arith)
has_prefix-take (d ∷ s) (c ∷ p) h =
    let (same, rest) = &&-true (d == c) (has_prefix s p) h in
    ap₂ (λ x xs. x ∷ xs) ((==_iff d c).0 same) (has_prefix-take s p rest)

-- The first bytes of a file of each type.
abbrev pub FirstBytes : Mime → Text → Type 0
FirstBytes png s = take 8 s ≡ 0x89 ∷ 0x50 ∷ 0x4E ∷ 0x47 ∷ 0x0D ∷ 0x0A ∷ 0x1A ∷ 0x0A ∷ []
FirstBytes jpeg s = take 3 s ≡ 0xFF ∷ 0xD8 ∷ 0xFF ∷ []
FirstBytes webp s = (take 4 s ≡ lit "RIFF") × (take 4 (drop 8 s) ≡ lit "WEBP")
FirstBytes pdf s = take 5 s ≡ lit "%PDF-"

sniff-FirstBytes : (s : Text) (mime : Mime) → sniff s ≡ some mime → FirstBytes mime s
unfolding sniff lit
sniff-FirstBytes s mime h = elim (Bool-cases (has_prefix s png_magic)) [
  | inl is_png ↦ let e : png ≡ mime = ground arith in rw (← e) (has_prefix-take s png_magic is_png)
  | inr not_png ↦ elim (Bool-cases (has_prefix s jpeg_magic)) [
    | inl is_jpeg ↦
        let e : jpeg ≡ mime = ground arith in rw (← e) (has_prefix-take s jpeg_magic is_jpeg)
    | inr not_jpeg ↦ elim (Bool-cases (is_webp s)) [
      | inl found ↦
          let e : webp ≡ mime = ground arith in
          let (long, both) = &&-true (leb 12 (length s)) _ found in
          let (riff, tag) = &&-true (has_prefix s (lit "RIFF")) _ both in
          rw (← e) (has_prefix-take s (lit "RIFF") riff, text_eq_sound _ _ tag)
      | inr not_webp ↦ elim (Bool-cases (has_prefix s (lit "%PDF-"))) [
        | inl is_pdf ↦
            let e : pdf ≡ mime = ground arith in rw (← e) (has_prefix-take s (lit "%PDF-") is_pdf)
        | inr other ↦ absurd (ground arith)
      ]
    ]
  ]
]

-- What Validate accepts is the whole body, not empty, of at most 5 MB, that begins with the
-- signature of its type: the eight bytes of PNG, the three of JPEG, RIFF and WEBP from the ninth
-- byte on, or %PDF-.
pub validate-accepted :
    (body content : Text) (mime : Mime)
    → validate (some body) ≡ accepted content mime
    → (content ≡ body) × (1 ≤ length body) × (length body ≤ max_size) × FirstBytes mime body
unfolding validate
validate-accepted body content mime h =
    let parts = accepted-parts (take (suc max_size) body) content mime h in
    let whole : take (suc max_size) body ≡ body =
      take_all (suc max_size) body (omega (arith, parts.2)) in
    let (same, some_byte, fits, found) = rw whole at parts in
    (same, some_byte, fits, sniff-FirstBytes body mime found)

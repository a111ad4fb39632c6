-- ===== src/Requests/Csrf.antt =====
-- backend/internal/pkg/csrftoken/csrf.go. The HMAC-SHA256 is a parameter, as a function of the
-- secret and the data.
use reimbursement_system.Base.{
  ℕ, ◌+◌, ◌-◌, ◌*◌, ◌/◌, ◌%◌, ◌<◌, ◌≡◌, ◌≢◌, refl, ap, sym, Bool, true, false, ◌&&◌, ◌||◌, not,
  Option, none, some, List, [], ◌∷◌, ◌++◌, arith, ltb, leb, ◌==◌, if◌then◌else◌, All, Text, text_eq,
  is_empty, text_eq_refl, text_eq_sound,
}

-- One digit of encoding/hex.
abbrev pub hex_digit : ℕ → ℕ
hex_digit n = if ltb n 10 then b'0' + n else b'a' + (n - 10)

abbrev pub hex_encode : Text → Text
hex_encode [] = []
hex_encode (b ∷ s) = hex_digit (b / 16) ∷ hex_digit (b % 16) ∷ hex_encode s

abbrev pub hex_value : ℕ → Option ℕ
hex_value c =
    if leb b'0' c && leb c b'9'
    then some (c - b'0')
    else if leb b'a' c && leb c b'f'
    then some (c - b'a' + 10)
    else if leb b'A' c && leb c b'F'
    then some (c - b'A' + 10)
    else none

-- hex.DecodeString, with `none` for an error.
unfoldable pub hex_decode : Text → Option Text
hex_decode [] = some []
hex_decode (c ∷ []) = none
hex_decode (c ∷ d ∷ s) =
    let rest = hex_decode s in
    elim (hex_value c) [
      | none ↦ none
      | some h ↦ elim (hex_value d) [
        | none ↦ none
        | some l ↦ elim rest [ none ↦ none | some t ↦ some ((h * 16 + l) ∷ t) ]
      ]
    ]

abbrev pub cons_part : ℕ → List Text → List Text
cons_part c [] = (c ∷ []) ∷ []
cons_part c (p ∷ ps) = (c ∷ p) ∷ ps

-- split: the parts between the dots.
unfoldable pub split : Text → List Text
split [] = [] ∷ []
split (c ∷ s) = let rest = split s in if c == b'.' then [] ∷ rest else cons_part c rest

module _ (mac : Text → Text → Text) where
  -- Issue, with the nonce that crypto/rand gave.
  unfoldable pub issue : Text → Text → Text
  issue secret nonce = hex_encode nonce ++ b'.' ∷ hex_encode (mac secret nonce)

  abbrev pub check_mac : Text → Option Text → Option Text → Bool
  check_mac secret (some (b ∷ nonce)) (some got) = text_eq (mac secret (b ∷ nonce)) got
  check_mac secret _ _ = false

  abbrev pub check_parts : Text → List Text → Bool
  check_parts secret (p ∷ q ∷ []) = check_mac secret (hex_decode p) (hex_decode q)
  check_parts secret _ = false

  -- Verify: whether the error is nil.
  unfoldable pub verify : Text → Text → Text → Bool
  verify secret cookie header =
      if is_empty cookie || (is_empty header || not (text_eq cookie header))
      then false
      else check_parts secret (split cookie)

abbrev pub IsBytes : Text → Type 0
IsBytes s = All (λ b. b < 256) s

hex_value-digit : (n : ℕ) → n < 16 → hex_value (hex_digit n) ≡ some n
hex_value-digit n h = ground arith

-- Decoding gives back the bytes that were encoded.
pub hex_decode-encode : (s : Text) → IsBytes s → hex_decode (hex_encode s) ≡ some s
unfolding hex_decode
hex_decode-encode [] h = refl
hex_decode-encode (b ∷ s) h =
    let high = hex_value-digit (b / 16) (omega (arith, h.0)) in
    let low = hex_value-digit (b % 16) (omega arith) in
    let rest = hex_decode-encode s h.1 in
    let e : b / 16 * 16 + b % 16 ≡ b = omega arith in ground (arith, e)

-- A text without a dot.
abbrev pub Dotless : Text → Type 0
Dotless s = All (λ c. (c == b'.') ≡ false) s

hex_encode-Dotless : (s : Text) → IsBytes s → Dotless (hex_encode s)
hex_encode-Dotless [] h = tt
hex_encode-Dotless (b ∷ s) h =
    let high : b / 16 < 16 = omega (arith, h.0) in
    let low : b % 16 < 16 = omega arith in
    (hex_digit-dot (b / 16) high, (hex_digit-dot (b % 16) low, hex_encode-Dotless s h.1))
  where
    hex_digit-dot : (n : ℕ) → n < 16 → (hex_digit n == b'.') ≡ false
    hex_digit-dot n h = ground arith

split-one : (t : Text) → Dotless t → split t ≡ t ∷ []
unfolding split
split-one [] h = refl
split-one (c ∷ t) h = let e = split-one t h.1 in ground (arith, e)

split-two : (s t : Text) → Dotless s → Dotless t → split (s ++ b'.' ∷ t) ≡ s ∷ t ∷ []
unfolding split
split-two [] t h k = let e = split-one t k in ground (arith, e)
split-two (c ∷ s) t h k = let e = split-two s t h.1 k in ground (arith, e)

append-ne-nil : (s t : Text) (c : ℕ) → is_empty (s ++ c ∷ t) ≡ false
append-ne-nil [] t c = refl
append-ne-nil (x ∷ s) t c = refl

verify_parts :
    (mac : Text → Text → Text) (secret token p q : Text) (b : ℕ) (nonce : Text)
    → is_empty token ≡ false
    → split token ≡ p ∷ q ∷ []
    → hex_decode p ≡ some (b ∷ nonce)
    → hex_decode q ≡ some (mac secret (b ∷ nonce))
    → verify mac secret token token ≡ true
unfolding verify
verify_parts mac secret token p q b nonce full parts left right =
    rw (full, text_eq_refl token, parts, left, right) (text_eq_refl (mac secret (b ∷ nonce)))

-- A token that Issue made of a nonce of bytes, not empty, passes Verify, for a MAC of bytes.
pub verify-issue :
    (mac : Text → Text → Text) (secret nonce : Text)
    → IsBytes nonce
    → nonce ≢ []
    → IsBytes (mac secret nonce)
    → verify mac secret (issue mac secret nonce) (issue mac secret nonce) ≡ true
unfolding issue
verify-issue mac secret [] h some_byte k = absurd (some_byte refl)
verify-issue mac secret (b ∷ nonce) h some_byte k =
    let sent = mac secret (b ∷ nonce) in
    verify_parts mac secret (issue mac secret (b ∷ nonce)) (hex_encode (b ∷ nonce))
      (hex_encode sent) b nonce (append-ne-nil (hex_encode (b ∷ nonce)) (hex_encode sent) b'.')
      (split-two (hex_encode (b ∷ nonce)) (hex_encode sent) (hex_encode-Dotless (b ∷ nonce) h)
        (hex_encode-Dotless sent k))
      (hex_decode-encode (b ∷ nonce) h) (hex_decode-encode sent k)

-- What the check of the two parts means.
abbrev pub IsSigned : (Text → Text → Text) → Text → List Text → Type 0
IsSigned mac secret parts =
    (p q nonce : Text) × (parts ≡ p ∷ q ∷ [])
    × (hex_decode p ≡ some nonce)
    × (nonce ≢ [])
    × (hex_decode q ≡ some (mac secret nonce))

check_mac_sound :
    (mac : Text → Text → Text) (secret : Text) (a b : Option Text)
    → check_mac mac secret a b ≡ true
    → (nonce : Text) × (a ≡ some nonce) × (nonce ≢ []) × (b ≡ some (mac secret nonce))
check_mac_sound mac secret none b h = cc
check_mac_sound mac secret (some []) b h = cc
check_mac_sound mac secret (some (c ∷ nonce)) none h = cc
check_mac_sound mac secret (some (c ∷ nonce)) (some got) h =
    let e = text_eq_sound (mac secret (c ∷ nonce)) got h in
    (c ∷ nonce, refl, (λ k. cc), ap some (sym e))

check_parts_sound :
    (mac : Text → Text → Text) (secret : Text) (parts : List Text)
    → check_parts mac secret parts ≡ true
    → IsSigned mac secret parts
check_parts_sound mac secret [] h = cc
check_parts_sound mac secret (p ∷ []) h = cc
check_parts_sound mac secret (p ∷ q ∷ []) h =
    let (nonce, left, some_byte, right) =
      check_mac_sound mac secret (hex_decode p) (hex_decode q) h in
    (p, q, nonce, refl, left, some_byte, right)
check_parts_sound mac secret (p ∷ q ∷ r ∷ ps) h = cc

-- What passes Verify is a header equal to the cookie, which is a nonce, not empty, and its MAC
-- under the secret, in hex.
pub verify_sound :
    (mac : Text → Text → Text) (secret cookie header : Text)
    → verify mac secret cookie header ≡ true
    → (header ≡ cookie) × IsSigned mac secret (split cookie)
unfolding verify
verify_sound mac secret cookie header h = (
  sym (text_eq_sound cookie header (ground arith)),
  check_parts_sound mac secret (split cookie) (ground arith),
)

-- ===== src/Decimal/Digits.antt =====
-- Printed digits and how they are read: strconv.FormatInt and strconv.ParseInt.
use mathlib.Core.List.{append-nil, append_assoc}
use native.Mathlib.Nat.{pow-suc}
use reimbursement_system.Base.{
  ℕ, zero, suc, ◌+◌, ◌-◌, ◌*◌, ◌/◌, ◌%◌, ◌^◌, ◌≤◌, ◌<◌, ◌≡◌, refl, sym, ap, ◌∙◌, ◌≢◌, false, some,
  [], ◌∷◌, ◌++◌, arith, ltb, Bool-cases, inl, inr, All, pos, Text, cut_byte,
}
use reimbursement_system.Decimal.{parse_uint, clamp_int, unsigned, parse_int, format_digits, digits}

abbrev pub IsDigit : ℕ → Type 0
IsDigit c = (b'0' ≤ c) × (c ≤ b'9')

All-append : (xs ys : Text) → All IsDigit xs → All IsDigit ys → All IsDigit (xs ++ ys)
All-append [] ys h k = k
All-append (x ∷ xs) ys h k = (h.0, All-append xs ys h.1 k)

pub format_digits-All : (f n : ℕ) → All IsDigit (format_digits f n)
unfolding format_digits
format_digits-All zero n = tt
format_digits-All (suc f) n = elim (Bool-cases (ltb n 10)) [
  | inl small ↦ rw small ((omega arith, ground arith), tt)
  | inr large ↦
      rw large (All-append _ _ (format_digits-All f (n / 10)) ((omega arith, omega arith), tt))
]

-- The reader takes one digit.
parse_uint-digit :
    (n d : ℕ) (s : Text)
    → d ≤ 9
    → n * 10 + d < 2 ^ 63
    → parse_uint n ((b'0' + d) ∷ s) ≡ parse_uint (n * 10 + d) s
unfolding parse_uint
parse_uint-digit n d s h k = let e : b'0' + d - b'0' ≡ d = omega arith in rw e (ground arith)

div_below : (f n : ℕ) → n < 10 ^ suc f → n / 10 < 10 ^ f
div_below f n h = let k : n < 10 ^ f * 10 = rw pow-suc at h in omega arith

fuel_left : (f n : ℕ) → n < 10 ^ suc f → 10 ≤ n → 0 < f
fuel_left zero n h k = absurd (omega arith)
fuel_left (suc f) n h k = omega arith

pub parse_uint-format_digits :
    (f n : ℕ) (s : Text)
    → n < 10 ^ f
    → n < 2 ^ 63
    → 0 < f
    → parse_uint 0 (format_digits f n ++ s) ≡ parse_uint n s
unfolding format_digits
parse_uint-format_digits zero n s h k p = elim p [ ]
parse_uint-format_digits (suc f) n s h k p = elim (Bool-cases (ltb n 10)) [
  | inl small ↦
      rw small (
        parse_uint-digit 0 n s (ground arith) (omega arith)
        ∙ ap (λ m. parse_uint m s) (omega arith))
  | inr large ↦ rw large (
      ap (parse_uint 0) (append_assoc (format_digits f (n / 10)) ((b'0' + n % 10) ∷ []) s)
      ∙ parse_uint-format_digits f (n / 10) ((b'0' + n % 10) ∷ s) (div_below f n h) (omega arith)
          (fuel_left f n h (ground arith))
      ∙ parse_uint-digit (n / 10) (n % 10) s (omega arith) (omega arith)
      ∙ ap (λ m. parse_uint m s) (omega arith))
]

format_digits-ne-nil : (f n : ℕ) → format_digits (suc f) n ≢ []
unfolding format_digits
format_digits-ne-nil f n e = elim (Bool-cases (ltb n 10)) [
  | inl small ↦ cc (rw small at e)
  | inr large ↦ append-ne-nil (format_digits f (n / 10)) _ (rw large at e)
]
  where
    append-ne-nil : (xs : Text) (d : ℕ) → xs ++ d ∷ [] ≡ [] → ⊥
    append-ne-nil [] d h = cc
    append-ne-nil (x ∷ xs) d h = cc

-- A text of digits alone has no sign.
parse_int-digits :
    (xs : Text) → All IsDigit xs → xs ≢ [] → parse_int xs ≡ clamp_int false (parse_uint 0 xs)
unfolding parse_int unsigned
parse_int-digits [] h k = absurd (k refl)
parse_int-digits (x ∷ xs) h k = ground arith

-- What FormatInt prints, ParseInt reads.
pub parse_int-digits_lem : (n : ℕ) → n < 2 ^ 63 → parse_int (digits n) ≡ pos n
unfolding clamp_int parse_uint
parse_int-digits_lem n h =
    parse_int-digits (digits n) (format_digits-All 20 n) (format_digits-ne-nil 19 n)
    ∙ ap (clamp_int false) (
        ap (parse_uint 0) (sym (append-nil (digits n)))
        ∙ parse_uint-format_digits 20 n [] (omega arith) h (omega arith))
    ∙ ground arith

-- Two digits are read as the number below 100 that they print.
pub parse_int-two_digits :
    (t u : ℕ) → t ≤ 9 → u ≤ 9 → parse_int ((b'0' + t) ∷ (b'0' + u) ∷ []) ≡ pos (t * 10 + u)
unfolding clamp_int parse_uint
parse_int-two_digits t u h k =
    parse_int-digits _ ((omega arith, omega arith), ((omega arith, omega arith), tt)) (λ e. cc)
    ∙ ap (clamp_int false) (
        parse_uint-digit 0 t ((b'0' + u) ∷ []) h (omega arith)
        ∙ parse_uint-digit (0 * 10 + t) u [] k (omega arith))
    ∙ ground arith

-- A byte that is no digit is first met behind the digits.
pub cut_byte-digits :
    (b : ℕ) (xs s : Text) → All IsDigit xs → ¬ IsDigit b → cut_byte b (xs ++ b ∷ s) ≡ some (xs, s)
cut_byte-digits b [] s h k = ground arith
cut_byte-digits b (x ∷ xs) s h k = ground (arith, cut_byte-digits b xs s h.1 k)

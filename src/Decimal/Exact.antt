-- ===== src/Decimal/Exact.antt =====
-- The decimal strings of statemachine.go on amounts in cents.
use reimbursement_system.Base.{
  ℕ, suc, ◌+◌, ◌-◌, ◌*◌, ◌/◌, ◌%◌, ◌^◌, ◌≤◌, ◌<◌, ◌≡◌, refl, sym, subst, ap, ap₂, ◌∙◌, true, [],
  ◌∷◌, ◌++◌, arith, ltb, Bool-cases, inl, inr, pos, negsuc, ◌+64◌, ◌-64◌, wrap64, quot, rem,
  +64_pos, Text,
}
use reimbursement_system.Decimal.{
  format_digits, digits, decimal_parts, split_decimal, compare_pairs, compare_numeric, pad2,
  format_int, format_decimal, add_pairs, add_numeric, subtract_pairs, subtract_numeric,
  numeric_text,
}
use reimbursement_system.Decimal.Digits.{
  format_digits-All, parse_int-digits_lem, parse_int-two_digits, cut_byte-digits,
}

digits_small : (c : ℕ) → c < 10 → digits c ≡ (b'0' + c) ∷ []
unfolding format_digits
digits_small c h = ground arith

digits_two : (c : ℕ) → 10 ≤ c → c < 100 → digits c ≡ (b'0' + c / 10) ∷ (b'0' + c % 10) ∷ []
unfolding format_digits
digits_two c h k = ground arith

pad2-pos : (c : ℕ) → c < 100 → pad2 (pos c) ≡ (b'0' + c / 10) ∷ (b'0' + c % 10) ∷ []
unfolding pad2 format_int
pad2-pos c h = elim (Bool-cases (ltb c 10)) [
  | inl small ↦ rw (digits_small c (ground arith)) (ground arith)
  | inr large ↦ rw (digits_two c (ground arith) h) (ground arith)
]

format_decimal-pos : (w c : ℕ) → format_decimal (pos w) (pos c) ≡ digits w ++ b'.' ∷ pad2 (pos c)
unfolding format_decimal format_int
format_decimal-pos w c = ground arith

same_amount :
    (w c : ℕ)
    → c < 100
    → digits w ++ b'.' ∷ (b'0' + c / 10) ∷ (b'0' + c % 10) ∷ [] ≡ numeric_text (w * 100 + c)
unfolding numeric_text
same_amount w c h =
    let e : (w * 100 + c) / 100 ≡ w = omega arith in
    let t : (w * 100 + c) % 100 / 10 ≡ c / 10 = omega arith in
    let u : (w * 100 + c) % 10 ≡ c % 10 = omega arith in rw (e, t, u)

-- Printed by Go or by PostgreSQL, an amount is one text.
pub format_decimal-numeric_text :
    (w c : ℕ) → c < 100 → format_decimal (pos w) (pos c) ≡ numeric_text (w * 100 + c)
unfolding numeric_text
format_decimal-numeric_text w c h =
    format_decimal-pos w c ∙ ap (λ t. digits w ++ b'.' ∷ t) (pad2-pos c h) ∙ same_amount w c h

decimal_parts-digits :
    (n t u : ℕ) → decimal_parts (digits n ++ b'.' ∷ t ∷ u ∷ []) ≡ (digits n, t ∷ u ∷ [])
decimal_parts-digits n t u = rw (
  decimal_parts,
  cut_byte-digits b'.' (digits n) (t ∷ u ∷ []) (format_digits-All 20 n) (λ h. omega arith),
)

-- Splitting a printed amount below 100 * 2 ^ 63 cents gives back its whole part and its cents.
pub split_decimal-numeric_text :
    (n : ℕ) → n < 100 * 2 ^ 63 → split_decimal (numeric_text n) ≡ (pos (n / 100), pos (n % 100))
unfolding split_decimal numeric_text
split_decimal-numeric_text n h =
    rw
      (
        decimal_parts-digits (n / 100) (b'0' + n % 100 / 10) (b'0' + n % 10),
        parse_int-digits_lem (n / 100) (omega arith),
        parse_int-two_digits (n % 100 / 10) (n % 10) (omega arith) (omega arith),
      )
      (ap (λ m. (pos (n / 100), pos m)) (omega arith))

compare_numeric-split :
    (a b : ℕ)
    → a < 100 * 2 ^ 63
    → b < 100 * 2 ^ 63
    → compare_numeric (numeric_text a) (numeric_text b)
      ≡ compare_pairs (pos (a / 100), pos (a % 100)) (pos (b / 100), pos (b % 100))
unfolding compare_numeric
compare_numeric-split a b h k =
    ap₂ compare_pairs (split_decimal-numeric_text a h) (split_decimal-numeric_text b k)

-- For amounts below 100 * 2 ^ 63 cents, comparing printed amounts is comparing their cents.
pub compare_numeric_exact :
    (a b : ℕ)
    → a < 100 * 2 ^ 63
    → b < 100 * 2 ^ 63
    → (a < b → compare_numeric (numeric_text a) (numeric_text b) ≡ negsuc 0)
      × (a ≡ b → compare_numeric (numeric_text a) (numeric_text b) ≡ pos 0)
      × (b < a → compare_numeric (numeric_text a) (numeric_text b) ≡ pos 1)
unfolding compare_pairs
compare_numeric_exact a b h k =
    let e : compare_numeric (numeric_text a) (numeric_text b)
        ≡ compare_pairs (pos (a / 100), pos (a % 100)) (pos (b / 100), pos (b % 100)) =
      compare_numeric-split a b h k in
    rw e (ground arith)

add_pairs-pos :
    (aw ac bw bc : ℕ)
    → aw + bw + 1 < 2 ^ 63
    → ac < 100
    → bc < 100
    → add_pairs (pos aw, pos ac) (pos bw, pos bc)
      ≡ format_decimal (pos (aw + bw + (ac + bc) / 100)) (pos ((ac + bc) % 100))
unfolding add_pairs quot rem
add_pairs-pos aw ac bw bc h p q =
    rw (+64_pos ac bc (omega arith), +64_pos aw bw (omega arith))
      (rw (+64_pos (aw + bw) ((ac + bc) / 100) (omega arith)))

-- Adding printed amounts whose sum and 200 cents are below 100 * 2 ^ 63 cents is exact, with the
-- carry.
pub add_numeric_exact :
    (a b : ℕ)
    → a + b + 200 < 100 * 2 ^ 63
    → add_numeric (numeric_text a) (numeric_text b) ≡ numeric_text (a + b)
unfolding add_numeric
add_numeric_exact a b h =
    rw (split_decimal-numeric_text a (omega arith), split_decimal-numeric_text b (omega arith))
      (add_pairs-pos (a / 100) (a % 100) (b / 100) (b % 100) (omega arith) (omega arith)
          (omega arith)
        ∙ format_decimal-numeric_text (a / 100 + b / 100 + (a % 100 + b % 100) / 100)
            ((a % 100 + b % 100) % 100) (omega arith)
        ∙ ap numeric_text (omega arith))

subtract_pairs-le :
    (aw ac bw bc : ℕ)
    → bw * 100 + bc ≤ aw * 100 + ac
    → aw < 2 ^ 63
    → ac < 100
    → bc < 100
    → (w c : ℕ) × (w * 100 + c ≡ aw * 100 + ac - (bw * 100 + bc))
      × (c < 100)
      × (subtract_pairs (pos aw, pos ac) (pos bw, pos bc) ≡ format_decimal (pos w) (pos c))
unfolding subtract_pairs ◌-64◌ ◌+64◌ wrap64
subtract_pairs-le aw ac bw bc le h p q = elim (Bool-cases (ltb ac bc)) [
  | inl borrow ↦ (aw - bw - 1, ac + 100 - bc, ground arith, ground arith, ground arith)
  | inr plain ↦ (aw - bw, ac - bc, ground arith, ground arith, ground arith)
]

-- Subtracting from an amount below 100 * 2 ^ 63 cents one that is not larger is exact, with the
-- borrow.
pub subtract_numeric_exact :
    (a b : ℕ)
    → b ≤ a
    → a < 100 * 2 ^ 63
    → subtract_numeric (numeric_text a) (numeric_text b) ≡ numeric_text (a - b)
unfolding subtract_numeric
subtract_numeric_exact a b le h =
    let (w, c, e, small, same) =
      subtract_pairs-le (a / 100) (a % 100) (b / 100) (b % 100) (omega arith) (omega arith)
        (omega arith) (omega arith) in
    rw (split_decimal-numeric_text a h, split_decimal-numeric_text b (omega arith))
      (same ∙ format_decimal-numeric_text w c small ∙ ap numeric_text (omega arith))

abbrev pub HeadIs : ℕ → Text → Type 0
HeadIs b [] = ⊥
HeadIs b (c ∷ s) = c ≡ b

format_decimal-negsuc : (w c : ℕ) → HeadIs b'-' (format_decimal (negsuc w) (pos c))
unfolding format_decimal
format_decimal-negsuc w c = let e : ltb 0 (0 + suc w) ≡ true = ground arith in rw e refl

subtract_pairs-lt :
    (aw ac bw bc : ℕ)
    → aw * 100 + ac < bw * 100 + bc
    → bw < 2 ^ 63
    → ac < 100
    → bc < 100
    → (w c : ℕ) × (subtract_pairs (pos aw, pos ac) (pos bw, pos bc)
        ≡ format_decimal (negsuc w) (pos c))
unfolding subtract_pairs ◌-64◌ ◌+64◌ wrap64
subtract_pairs-lt aw ac bw bc lt h p q = elim (Bool-cases (ltb ac bc)) [
  | inl borrow ↦ (bw - aw, ac + 100 - bc, ground arith)
  | inr plain ↦ (bw - aw - 1, ac - bc, ground arith)
]

-- Subtracting a larger amount, below 100 * 2 ^ 63 cents, gives a text that begins with a minus
-- sign.
pub subtract_numeric_negative :
    (a b : ℕ)
    → a < b
    → b < 100 * 2 ^ 63
    → HeadIs b'-' (subtract_numeric (numeric_text a) (numeric_text b))
unfolding subtract_numeric
subtract_numeric_negative a b lt h =
    let (w, c, same) =
      subtract_pairs-lt (a / 100) (a % 100) (b / 100) (b % 100) (omega arith) (omega arith)
        (omega arith) (omega arith) in
    rw (split_decimal-numeric_text a (omega arith), split_decimal-numeric_text b h)
      (subst (HeadIs b'-') (sym same) (format_decimal-negsuc w c))

-- ===== src/Decimal.antt =====
-- The exact decimal strings of backend/internal/modules/reimbursements/statemachine.go, and the
-- functions of package strconv that they stand on.
pub mod Digits
pub mod Exact
pub mod Order
use reimbursement_system.Base.{
  ℕ, zero, suc, ◌+◌, ◌-◌, ◌*◌, ◌/◌, ◌%◌, ◌^◌, ◌≡◌, refl, Bool, true, false, ◌&&◌, ◌||◌, Option,
  none, some, List, [], ◌∷◌, ◌++◌, ltb, leb, ◌==◌, if◌then◌else◌, length, take, ℤ, pos, negsuc,
  sub_ℕ, ltb_ℤ, ◌+64◌, ◌-64◌, quot, rem, wrap64, Text, lit, cut_byte,
}

abbrev pub max_uint64 : ℕ
max_uint64 = 18446744073709551615

-- The largest value that can still be multiplied by ten.
abbrev pub cutoff : ℕ
cutoff = 1844674407370955162

abbrev pub is_digit : ℕ → Bool
is_digit c = leb b'0' c && leb c b'9'

-- strconv.ParseUint in base 10: `none` is a syntax error, and a range error gives the maximum.
unfoldable pub parse_uint : ℕ → Text → Option ℕ
parse_uint n [] = some n
parse_uint n (c ∷ s) =
    let d = c - b'0' in
    let rest = parse_uint (n * 10 + d) s in
    if is_digit c
    then (if leb cutoff n || ltb max_uint64 (n * 10 + d) then some max_uint64 else rest)
    else none

-- The end of strconv.ParseInt; its error is dropped by the callers, which keep the value.
unfoldable pub clamp_int : Bool → Option ℕ → ℤ
clamp_int negative none = pos 0
clamp_int false (some n) = if leb (2 ^ 63) n then pos (2 ^ 63 - 1) else pos n
clamp_int true (some n) = if ltb (2 ^ 63) n then negsuc (2 ^ 63 - 1) else sub_ℕ 0 n

unfoldable pub unsigned : Text → Option ℕ
unsigned [] = none
unsigned (c ∷ s) = parse_uint 0 (c ∷ s)

unfoldable pub parse_int : Text → ℤ
parse_int [] = pos 0
parse_int (c ∷ s) =
    if c == b'-'
    then clamp_int true (unsigned s)
    else if c == b'+'
    then clamp_int false (unsigned s)
    else clamp_int false (unsigned (c ∷ s))

-- strconv.FormatInt of a number that is not negative, on fuel for its digits.
unfoldable pub format_digits : ℕ → ℕ → Text
format_digits zero n = []
format_digits (suc f) n =
    let rest = format_digits f (n / 10) in
    if ltb n 10 then (b'0' + n) ∷ [] else rest ++ (b'0' + n % 10) ∷ []

-- An int64 has at most 19 digits.
abbrev pub digits : ℕ → Text
digits n = format_digits 20 n

unfoldable pub format_int : ℤ → Text
format_int (pos n) = digits n
format_int (negsuc n) = b'-' ∷ digits (suc n)

abbrev pub zeros : ℕ → Text
zeros zero = []
zeros (suc n) = b'0' ∷ zeros n

-- The integer part, and the fraction cut or filled up to two digits.
abbrev pub decimal_parts : Text → Text × Text
decimal_parts s = elim (cut_byte b'.' s) [ none ↦ (s, []) | some p ↦ p ]

abbrev pub two_digits : Text → Text
two_digits frac = let cut = take 2 frac in cut ++ zeros (2 - length cut)

unfoldable pub split_decimal : Text → ℤ × ℤ
split_decimal s =
    let (whole, frac) = decimal_parts s in (parse_int whole, parse_int (two_digits frac))

unfoldable pub compare_pairs : ℤ × ℤ → ℤ × ℤ → ℤ
compare_pairs (aw, ac) (bw, bc) =
    if ltb_ℤ aw bw
    then negsuc 0
    else if ltb_ℤ bw aw
    then pos 1
    else if ltb_ℤ ac bc
    then negsuc 0
    else if ltb_ℤ bc ac
    then pos 1
    else pos 0

unfoldable pub compare_numeric : Text → Text → ℤ
unfolding split_decimal compare_pairs
compare_numeric a b = compare_pairs (split_decimal a) (split_decimal b)

unfoldable pub pad2 : ℤ → Text
pad2 v = let s = format_int v in zeros (2 - length s) ++ s

-- `-x` on int64.
abbrev pub neg64 : ℤ → ℤ
neg64 v = pos 0 -64 v

abbrev pub is_neg : ℤ → Bool
is_neg v = ltb_ℤ v (pos 0)

unfoldable pub format_decimal : ℤ → ℤ → Text
format_decimal whole cents =
    let w = if is_neg whole then neg64 whole else whole in
    let c = if is_neg cents then neg64 cents else cents in
    (if is_neg whole || is_neg cents then b'-' ∷ [] else []) ++ (format_int w ++ b'.' ∷ pad2 c)

unfoldable pub add_pairs : ℤ × ℤ → ℤ × ℤ → Text
add_pairs (aw, ac) (bw, bc) =
    let c = ac +64 bc in format_decimal (aw +64 bw +64 quot c 100) (rem c 100)

unfoldable pub add_numeric : Text → Text → Text
add_numeric a b = add_pairs (split_decimal a) (split_decimal b)

unfoldable pub subtract_pairs : ℤ × ℤ → ℤ × ℤ → Text
subtract_pairs (aw, ac) (bw, bc) =
    let w = aw -64 bw in
    let c = ac -64 bc in
    if is_neg c then format_decimal (w -64 pos 1) (c +64 pos 100) else format_decimal w c

unfoldable pub subtract_numeric : Text → Text → Text
subtract_numeric a b = subtract_pairs (split_decimal a) (split_decimal b)

-- The amount of n cents as PostgreSQL prints a numeric with two places.
unfoldable pub numeric_text : ℕ → Text
numeric_text n = digits (n / 100) ++ b'.' ∷ (b'0' + n % 100 / 10) ∷ (b'0' + n % 10) ∷ []

-- The line that a run of these functions needs.
unfoldable pub decimal_runs : Unit {0}
unfolding parse_uint clamp_int unsigned parse_int format_digits format_int split_decimal
    compare_pairs compare_numeric pad2 format_decimal add_pairs add_numeric subtract_pairs
    subtract_numeric numeric_text ◌+64◌ ◌-64◌ wrap64 quot rem lit
decimal_runs = tt

long_fraction : split_decimal (lit "12.999") ≡ (pos 12, pos 99)
unfolding decimal_runs
long_fraction = refl

add_carries : add_numeric (lit "999999999999.98") (lit "0.03") ≡ lit "1000000000000.01"
unfolding decimal_runs
add_carries = refl

subtract_borrows : subtract_numeric (lit "5000000.00") (lit "1500000.25") ≡ lit "3499999.75"
unfolding decimal_runs
subtract_borrows = refl

compare_boundary : compare_numeric (lit "4.99") (lit "5") ≡ negsuc 0
unfolding decimal_runs
compare_boundary = refl

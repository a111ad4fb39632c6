-- ===== src/Reimbursements/Service/Dates.antt =====
-- time.Parse with the layout 2006-01-02, as validateExpenseDate of
-- backend/internal/modules/reimbursements/service.go uses it.
use reimbursement_system.Base.{
  ℕ, zero, suc, ◌+◌, ◌-◌, ◌*◌, ◌/◌, ◌%◌, ◌≡◌, refl, Bool, true, ◌&&◌, ◌||◌, not, Option, none, some,
  [], ◌∷◌, leb, ◌==◌, if◌then◌else◌, Text, lit,
}
use reimbursement_system.Decimal.{is_digit}

abbrev pub is_leap : ℕ → Bool
is_leap y = y % 4 == 0 && (not (y % 100 == 0) || y % 400 == 0)

-- The days of a month, from 1 to 12.
abbrev pub days_in : ℕ → ℕ → ℕ
days_in m y =
    if m == 2
    then (if is_leap y then 29 else 28)
    else if m == 4 || (m == 6 || (m == 9 || m == 11))
    then 30
    else 31

-- The days of the first m months of a year.
unfoldable pub days_before : ℕ → ℕ → ℕ
days_before zero y = 0
days_before (suc m) y = days_before m y + days_in (suc m) y

-- The number of a date, from the first day of the year 0.
unfoldable pub day_number : ℕ → ℕ → ℕ → ℕ
day_number y m d =
    365 * y + ((y + 3) / 4 - (y + 99) / 100 + (y + 399) / 400) + days_before (m - 1) y + (d - 1)

abbrev pub is_date : ℕ → ℕ → ℕ → Bool
is_date y m d = leb 1 m && (leb m 12 && (leb 1 d && leb d (days_in m y)))

abbrev pub two : ℕ → ℕ → ℕ
two t u = (t - b'0') * 10 + (u - b'0')

abbrev pub all_digits : Text → Bool
all_digits [] = true
all_digits (c ∷ s) = is_digit c && all_digits s

-- The ten bytes of a date, or an error.
unfoldable pub parse_date : Text → Option ℕ
parse_date (y3 ∷ y2 ∷ y1 ∷ y0 ∷ h ∷ m1 ∷ m0 ∷ k ∷ d1 ∷ d0 ∷ []) =
    let y = two y3 y2 * 100 + two y1 y0 in
    let m = two m1 m0 in
    let d = two d1 d0 in
    if all_digits (y3 ∷ y2 ∷ y1 ∷ y0 ∷ m1 ∷ m0 ∷ d1 ∷ d0 ∷ [])
      && (h == b'-' && (k == b'-' && is_date y m d))
    then some (day_number y m d)
    else none
parse_date _ = none

abbrev pub print_two : ℕ → Text → Text
print_two n s = (b'0' + n / 10) ∷ (b'0' + n % 10) ∷ s

-- time.Format with the same layout.
abbrev pub print_date : ℕ → ℕ → ℕ → Text
print_date y m d =
    print_two (y / 100) (print_two (y % 100) (b'-' ∷ print_two m (b'-' ∷ print_two d [])))

leap_day : parse_date (lit "2024-02-29") ≡ some 739310
unfolding parse_date day_number days_before lit
leap_day = refl

no_leap_day : parse_date (lit "2025-02-29") ≡ none
unfolding parse_date lit
no_leap_day = refl

-- ===== src/Reimbursements/Workflow/Remaining.antt =====
-- The rest of a monthly limit as Submit reports it.
use reimbursement_system.Base.{
  ℕ, ◌-◌, ◌*◌, ◌^◌, ◌+◌, ◌/◌, ◌%◌, ◌<◌, ◌≡◌, refl, sym, ◌∙◌, List, inl, inr, true, false, [], ◌∷◌,
  ◌++◌, arith, leb, if◌then◌else◌, Bool-cases, All, Text, text_eq, text_eq_sound, lit, leb→le,
}
use reimbursement_system.Decimal.{
  format_digits, digits, numeric_text, split_decimal, subtract_numeric, decimal_runs,
}
use reimbursement_system.Decimal.Digits.{IsDigit, format_digits-All}
use reimbursement_system.Decimal.Exact.{HeadIs, subtract_numeric_exact, subtract_numeric_negative}
use reimbursement_system.Store.{Reimbursement}
use reimbursement_system.Reimbursements.Repository.Policy.{sum_amounts, sum_text}
use reimbursement_system.Reimbursements.Workflow.Policy.{starts_with_minus, remaining}

minus_head : (s : Text) → HeadIs b'-' s → starts_with_minus s ≡ true
minus_head [] h = absurd h
minus_head (c ∷ s) h = ground (arith, h)

digits_head : (xs s : Text) → All IsDigit xs → starts_with_minus (xs ++ b'.' ∷ s) ≡ false
digits_head [] s h = refl
digits_head (x ∷ xs) s h = ground (arith, h.0)

amount_head : (n : ℕ) → starts_with_minus (numeric_text n) ≡ false
unfolding numeric_text
amount_head n =
    digits_head (digits (n / 100)) ((b'0' + n % 100 / 10) ∷ (b'0' + n % 10) ∷ [])
      (format_digits-All 20 (n / 100))

zero_text : numeric_text 0 ≡ lit "0.00"
unfolding numeric_text format_digits lit
zero_text = refl

remaining_amounts :
    (limit spent : ℕ)
    → limit < 100 * 2 ^ 63
    → spent < 100 * 2 ^ 63
    → remaining (numeric_text limit) (numeric_text spent) ≡ numeric_text (limit - spent)
unfolding remaining
remaining_amounts limit spent h k = elim (Bool-cases (leb spent limit)) [
  | inl within ↦
      rw (subtract_numeric_exact limit spent (leb→le spent limit within) h)
        (rw (amount_head (limit - spent)) (shown (numeric_text (limit - spent))))
  | inr over ↦
      let nothing : limit - spent ≡ 0 = ground arith in
      let below : limit < spent = ground arith in
      rw (minus_head _ (subtract_numeric_negative limit spent below k), nothing) (sym zero_text)
]
  where
    shown : (t : Text) → (if text_eq t (lit "0.00") then lit "0.00" else t) ≡ t
    shown t = elim (Bool-cases (text_eq t (lit "0.00"))) [
      | inl same ↦ rw same (sym (text_eq_sound t (lit "0.00") same))
      | inr other ↦ rw other refl
    ]

zero_parts : split_decimal (lit "0") ≡ split_decimal (numeric_text 0)
unfolding decimal_runs
zero_parts = refl

remaining-split :
    (limit s t : Text) → split_decimal s ≡ split_decimal t → remaining limit s ≡ remaining limit t
unfolding remaining subtract_numeric
remaining-split limit s t h = rw h refl

-- For a limit and a sum below 100 * 2 ^ 63 cents, the rest of a limit that Submit reports is the
-- limit less the sum of the claims counted, of which there may be none, and 0.00 where the sum
-- is larger.
pub remaining_exact :
    (limit : ℕ) (claims : List Reimbursement)
    → limit < 100 * 2 ^ 63
    → sum_amounts claims < 100 * 2 ^ 63
    → remaining (numeric_text limit) (sum_text claims) ≡ numeric_text (limit - sum_amounts claims)
remaining_exact limit [] h k =
    remaining-split (numeric_text limit) (lit "0") (numeric_text 0) zero_parts
    ∙ remaining_amounts limit 0 h (omega arith)
remaining_exact limit (r ∷ claims) h k = remaining_amounts limit (sum_amounts (r ∷ claims)) h k

-- ===== src/Reimbursements/Workflow/Policy.antt =====
-- The policy engine of Submit in workflow.go.
use reimbursement_system.Base.{
  ℕ, Bool, false, ◌||◌, not, Option, none, some, List, [], ◌∷◌, ◌++◌, ◌==◌, if◌then◌else◌, Text,
  text_eq, is_empty, lit, pos, ltb_ℤ,
}
use reimbursement_system.Decimal.{compare_numeric, add_numeric, subtract_numeric, numeric_text}
use reimbursement_system.AppErr.{app, new, Detail, internal_err}
use reimbursement_system.Store.{M, pure, ◌>>=◌, throw_if, map_err}
use reimbursement_system.Reimbursements.Scope.{DetailRow}
use reimbursement_system.Reimbursements.Repository.Policy.{
  count_attachments, category_monthly_limit, monthly_category_spend, find_duplicate,
}

-- The parts of the configuration that the workflow reads.
pub record Config : Type 0 where
  pub approval_t1 : Text
  pub approval_t2 : Text
  pub receipt_threshold : Text

-- `compareNumeric(a, b) > 0`
abbrev pub exceeds : Text → Text → Bool
exceeds a b = ltb_ℤ (pos 0) (compare_numeric a b)

abbrev pub amount_text : DetailRow → Text
amount_text row = numeric_text row.claim.amount

-- Rule 3: a receipt is required above the threshold.
unfoldable pub receipt_rule : Config → DetailRow → ℕ → M (List Detail)
receipt_rule cfg row id =
    if exceeds (amount_text row) cfg.receipt_threshold
    then (do
      n ← map_err internal_err (count_attachments id)
      pure (
          if n == 0
          then record {
            field = lit "receipts";
            message = lit "at least 1 receipt required above Rp " ++ amount_text row;
          }
            ∷ []
          else []))
    else pure []

abbrev pub starts_with_minus : Text → Bool
starts_with_minus [] = false
starts_with_minus (c ∷ s) = c == b'-'

-- What is left of the limit, never below zero.
unfoldable pub remaining : Text → Text → Text
remaining limit spent =
    let left = subtract_numeric limit spent in
    if starts_with_minus left || text_eq left (lit "0.00") then lit "0.00" else left

unfoldable pub limit_violation : DetailRow → Text → Text → List Detail
limit_violation row limit spent =
    if exceeds (add_numeric spent (amount_text row)) limit
    then record {
      field = lit "amount";
      message =
          lit "exceeds "
          ++ (row.category_name
              ++ (lit " monthly limit (remaining Rp " ++ (remaining limit spent ++ lit ")")));
    }
      ∷ []
    else []

abbrev pub check_limit : DetailRow → ℕ → Option Text → M (List Detail)
check_limit row id none = pure []
check_limit row id (some limit) = do
  spent ←
      map_err internal_err (
        monthly_category_spend row.claim.employee_id row.claim.category_id row.claim.expense_date
          id)
  pure (limit_violation row limit spent)

-- Rule 2: the monthly limit of the category.
unfoldable pub limit_rule : DetailRow → ℕ → M (List Detail)
limit_rule row id = do
  limit ← map_err internal_err (category_monthly_limit row.claim.category_id)
  check_limit row id limit

-- Rule 4: a suspected duplicate ends the action at once.
unfoldable pub duplicate_rule : DetailRow → ℕ → M (Unit {0})
duplicate_rule row id = do
  dup_date ←
      map_err internal_err
        (find_duplicate row.claim.employee_id (amount_text row) row.claim.expense_date id)
  throw_if (not (is_empty dup_date)) (
      app (
        new 409 (lit "DUPLICATE_SUSPECTED")
          (lit "Possible duplicate of a claim dated " ++ dup_date)))

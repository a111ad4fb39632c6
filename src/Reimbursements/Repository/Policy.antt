-- ===== src/Reimbursements/Repository/Policy.antt =====
-- The queries of the policy engine in repository.go.
use reimbursement_system.Base.{
  ℕ, ◌+◌, Bool, true, false, ◌&&◌, not, Option, none, some, List, [], ◌∷◌, leb, ◌==◌, is_some,
  length, filter, find?, sort_by, Text, text_eq, lit,
}
use reimbursement_system.Decimal.{numeric_text}
use reimbursement_system.Approval.{Status, submitted, approved, rejected, paid, cancelled}
use reimbursement_system.Store.{Category, Reimbursement, AttachmentRow, M, ◌>>=◌, ask, query}

-- Repository.CountAttachments
unfoldable pub count_attachments : ℕ → M ℕ
count_attachments id =
    query (λ db. length (filter (λ (a : AttachmentRow). a.reimbursement_id == id) db.attachments))

-- Repository.CategoryMonthlyLimit, with `none` where no limit is set.
abbrev pub limit_of : Option Category → Option Text
limit_of none = none
limit_of (some c) = elim c.monthly_limit_per_employee [
  | none ↦ none
  | some n ↦ some (numeric_text n)
]

unfoldable pub category_monthly_limit : ℕ → M (Option Text)
category_monthly_limit id =
    query (λ db. limit_of (find? (λ (c : Category). c.id == id && c.is_active) db.categories))

-- `status IN ('SUBMITTED', 'APPROVED', 'PAID')`
abbrev pub is_spent : Status → Bool
is_spent submitted = true
is_spent approved = true
is_spent paid = true
is_spent _ = false

-- `status NOT IN ('REJECTED', 'CANCELLED')`
abbrev pub may_duplicate : Status → Bool
may_duplicate rejected = false
may_duplicate cancelled = false
may_duplicate _ = true

abbrev pub sum_amounts : List Reimbursement → ℕ
sum_amounts [] = 0
sum_amounts (r ∷ rs) = r.amount + sum_amounts rs

-- The WHERE clause of MonthlyCategorySpend.
abbrev pub counts_for_month : (ℕ → ℕ) → ℕ → ℕ → ℕ → ℕ → Reimbursement → Bool
counts_for_month month_of emp cat date exclude r =
    r.employee_id == emp
    && (r.category_id == cat
        && (is_spent r.status
            && (month_of r.expense_date == month_of date
                && (not (r.id == exclude) && not (is_some r.deleted_at)))))

-- `COALESCE(SUM(amount)::text, '0')`
abbrev pub sum_text : List Reimbursement → Text
sum_text [] = lit "0"
sum_text (r ∷ rs) = numeric_text (sum_amounts (r ∷ rs))

-- Repository.MonthlyCategorySpend
unfoldable pub monthly_category_spend : ℕ → ℕ → ℕ → ℕ → M Text
monthly_category_spend emp cat date exclude = do
  month_of ← ask (λ e. e.month_of)
  query (λ db. sum_text (filter (counts_for_month month_of emp cat date exclude) db.reimbursements))

-- The WHERE clause of FindDuplicate: the amounts are texts of one form, so comparing them as
-- numbers is comparing them as texts.
abbrev pub is_duplicate : ℕ → Text → ℕ → ℕ → Reimbursement → Bool
is_duplicate emp amount date exclude r =
    r.employee_id == emp
    && (text_eq (numeric_text r.amount) amount
        && (not (r.id == exclude)
            && (not (is_some r.deleted_at)
                && (may_duplicate r.status
                    && (leb date (r.expense_date + 7) && leb r.expense_date (date + 7))))))

abbrev pub first_date : (ℕ → Text) → List Reimbursement → Text
first_date date_text [] = []
first_date date_text (r ∷ rs) = date_text r.expense_date

-- Repository.FindDuplicate: the date of the oldest such claim, or the empty text.
unfoldable pub find_duplicate : ℕ → Text → ℕ → ℕ → M Text
find_duplicate emp amount date exclude = do
  date_text ← ask (λ e. e.date_text)
  query (λ db. first_date date_text (
      sort_by (λ r. r.created_at)
        (filter (is_duplicate emp amount date exclude) db.reimbursements)))

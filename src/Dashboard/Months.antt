-- ===== src/Dashboard/Months.antt =====
-- The joined and grouped months of MonthlyTrend in
-- backend/internal/modules/dashboard/repository.go.
use reimbursement_system.Base.{
  ℕ, zero, suc, ◌+◌, ◌-◌, Option, none, some, List, [], ◌∷◌, ◌++◌, map, filter, ltb, ◌==◌,
  if◌then◌else◌,
}
use reimbursement_system.Store.{Reimbursement}

abbrev pub series_from : ℕ → ℕ → List ℕ
series_from first zero = []
series_from first (suc n) = first ∷ series_from (first + 1) n

-- generate_series with a step of a month: from the first month to the last one.
unfoldable pub month_series : ℕ → ℕ → List ℕ
month_series first stop = series_from first (stop + 1 - first)

-- A row of the series with a claim, or with NULL.
abbrev pub match_rows : ℕ → List Reimbursement → List (ℕ × Option Reimbursement)
match_rows month [] = (month, none) ∷ []
match_rows month (r ∷ rs) = map (λ x. (month, some x)) (r ∷ rs)

-- LEFT JOIN ON date_trunc('month', r.expense_date) = m.month
unfoldable pub left_join : (ℕ → ℕ) → List Reimbursement → List ℕ → List (ℕ × Option Reimbursement)
left_join month_of rs [] = []
left_join month_of rs (month ∷ months) =
    match_rows month (filter (λ r. month_of r.expense_date == month) rs)
    ++ left_join month_of rs months

-- A row goes into the group of its month, or starts one.
abbrev pub into_group :
    ℕ
    → Option Reimbursement
    → List (ℕ × List (Option Reimbursement))
    → List (ℕ × List (Option Reimbursement))
into_group month r [] = (month, r ∷ []) ∷ []
into_group month r ((k, rs) ∷ groups) =
    let further = into_group month r groups in
    if k == month
    then (k, r ∷ rs) ∷ groups
    else if ltb month k
    then (month, r ∷ []) ∷ (k, rs) ∷ groups
    else (k, rs) ∷ further

-- GROUP BY m.month ORDER BY m.month
unfoldable pub group_by_month :
    List (ℕ × Option Reimbursement) → List (ℕ × List (Option Reimbursement))
group_by_month [] = []
group_by_month ((month, r) ∷ rows) = into_group month r (group_by_month rows)

-- SUM leaves out NULL.
abbrev pub present : List (Option Reimbursement) → List Reimbursement
present [] = []
present (none ∷ rs) = present rs
present (some r ∷ rs) = r ∷ present rs

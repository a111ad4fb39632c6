-- ===== src/Examples/Amounts.antt =====
-- The theorems on amounts, chains and visibility, applied to a few values.
use reimbursement_system.Base.{
  ◌≡◌, refl, ◌<◌, ◌≤◌, some, List, [], ◌∷◌, ◌++◌, arith, pos, negsuc, lit, ℕ,
}
use reimbursement_system.Base.{find?, ◌-◌, ◌/◌, ◌%◌}
use reimbursement_system.Decimal.{
  compare_numeric, add_numeric, subtract_numeric, numeric_text, decimal_runs, split_decimal,
}
use reimbursement_system.Decimal.Exact.{
  compare_numeric_exact, add_numeric_exact, subtract_numeric_exact,
}
use reimbursement_system.Decimal.Order.{AtMost}
use reimbursement_system.Approval.{
  Role, employee, manager, finance, admin, pending, step_approved, StepStatus, approval_chain,
}
use reimbursement_system.Approval.Chain.{approval_chain_tiers, approval_chain_mono}
use reimbursement_system.Reimbursements.Scope.{DetailRow, base_query, scope_filter}
use reimbursement_system.Reimbursements.Repository.{has_id}
use reimbursement_system.Reimbursements.Repository.Policy.{sum_text}
use reimbursement_system.Reimbursements.Workflow.Policy.{remaining}
use reimbursement_system.Reimbursements.Workflow.Remaining.{remaining_exact}
use reimbursement_system.Examples.Tables.{start, draft_claim, workflow_runs}

abbrev larger : ℕ
larger = 10050

abbrev smaller : ℕ
smaller = 9999

compare_numeric_exact_example :
    (larger < smaller → compare_numeric (numeric_text larger) (numeric_text smaller) ≡ negsuc 0)
    × (larger ≡ smaller → compare_numeric (numeric_text larger) (numeric_text smaller) ≡ pos 0)
    × (smaller < larger → compare_numeric (numeric_text larger) (numeric_text smaller) ≡ pos 1)
compare_numeric_exact_example = compare_numeric_exact larger smaller (omega arith) (omega arith)

add_numeric_exact_example : add_numeric (numeric_text 1099) (numeric_text 2) ≡ numeric_text 1101
add_numeric_exact_example = add_numeric_exact 1099 2 (omega arith)

subtract_numeric_exact_example :
    subtract_numeric (numeric_text 1000) (numeric_text 1) ≡ numeric_text 999
subtract_numeric_exact_example = subtract_numeric_exact 1000 1 (omega arith) (omega arith)

one_AtMost_two : AtMost (lit "1.00") (lit "2")
unfolding decimal_runs
one_AtMost_two = refl

two_AtMost_big : AtMost (lit "2") (lit "600000.00")
unfolding decimal_runs
two_AtMost_big = refl

approval_chain_mono_example :
    (rest : List Role) × (approval_chain (lit "600000.00") (lit "500000") (lit "5000000")
      ≡ approval_chain (lit "2") (lit "500000") (lit "5000000") ++ rest)
approval_chain_mono_example =
    approval_chain_mono (lit "2") (lit "600000.00") (lit "500000") (lit "5000000") two_AtMost_big

whole_threshold :
    (split_decimal (lit "500000") ≡ (pos (50000000 / 100), pos (50000000 % 100)))
    × (split_decimal (lit "5000000") ≡ (pos (500000000 / 100), pos (500000000 % 100)))
unfolding decimal_runs
whole_threshold = (refl, refl)

approval_chain_tiers_example :
    (60000000 ≤ 50000000
      → approval_chain (numeric_text 60000000) (lit "500000") (lit "5000000") ≡ manager ∷ [])
    × (50000000 < 60000000
        → 60000000 ≤ 500000000
        → approval_chain (numeric_text 60000000) (lit "500000") (lit "5000000")
          ≡ manager ∷ finance ∷ [])
    × (500000000 < 60000000
        → approval_chain (numeric_text 60000000) (lit "500000") (lit "5000000")
          ≡ manager ∷ finance ∷ admin ∷ [])
approval_chain_tiers_example =
    approval_chain_tiers 60000000 50000000 500000000 (lit "500000") (lit "5000000")
      whole_threshold.0 whole_threshold.1 (omega arith) (omega arith) (omega arith)

abbrev one_left : List StepStatus
one_left = step_approved ∷ pending ∷ []

abbrev found_row : DetailRow
found_row = record {
  claim = draft_claim;
  employee_name = lit "Ani";
  category_name = lit "Travel";
  category_code = lit "TRAVEL";
  submitter_role = employee;
}

finds_row : find? (has_id 1) (scope_filter employee 10 (base_query start.db)) ≡ some found_row
unfolding workflow_runs
finds_row = refl

-- Nothing was spent yet.
remaining_exact_example : remaining (numeric_text 5000) (sum_text []) ≡ numeric_text (5000 - 0)
remaining_exact_example = remaining_exact 5000 [] (omega arith) (omega arith)

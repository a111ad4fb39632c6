-- ===== src/Reimbursements/Workflow/Reads.antt =====
-- The reads of workflow.go: the checks of Submit, the notification, the answer.
use reimbursement_system.Base.{ℕ, ◌≡◌, refl, List, [], ◌++◌, arith}
use reimbursement_system.Approval.{Status, Role}
use reimbursement_system.AppErr.{Detail}
use reimbursement_system.Store.{Env, World, ◌>>=◌, ◌>>◌, pure, statement, KeepsDb, >>=-db}
use reimbursement_system.Reimbursements.Scope.{DetailRow}
use reimbursement_system.Reimbursements.Repository.{get_detail, items, attachments, approvals_for}
use reimbursement_system.Reimbursements.Repository.Policy.{
  count_attachments, category_monthly_limit, monthly_category_spend, find_duplicate,
}
use reimbursement_system.Reimbursements.Repository.Detail.{read_detail, get_detail_fresh}
use reimbursement_system.Reimbursements.Workflow.Notify.{notify_employee}
use reimbursement_system.Reimbursements.Workflow.Policy.{
  Config, receipt_rule, limit_rule, duplicate_rule,
}
use reimbursement_system.Reimbursements.Workflow.Actions.{
  read_submittable, policy_violations, choose_chain, check_submit,
}

-- The checks only read.
check_parts-db :
    (cfg : Config) (row : DetailRow) (id : ℕ) (violations : List Detail) (e : Env) (w : World)
    → ((receipt_rule cfg row id e w).1.db ≡ w.db)
      × ((limit_rule row id e w).1.db ≡ w.db)
      × ((duplicate_rule row id e w).1.db ≡ w.db)
      × ((choose_chain cfg row violations e w).1.db ≡ w.db)
unfolding receipt_rule count_attachments limit_rule category_monthly_limit monthly_category_spend
    duplicate_rule find_duplicate choose_chain statement
check_parts-db cfg row id violations e w = (ground arith, ground arith, ground arith, ground arith)

read_submittable-db :
    (id : ℕ) (role : Role) (user_id : ℕ) (e : Env) (w : World)
    → (read_submittable id role user_id e w).1.db ≡ w.db
unfolding read_submittable get_detail statement
read_submittable-db id role user_id e w = ground arith

policy_violations-db :
    (cfg : Config) (row : DetailRow) (id : ℕ) → KeepsDb (policy_violations cfg row id)
unfolding policy_violations
policy_violations-db cfg row id =
    let last =
      λ (receipts limits : List Detail). duplicate_rule row id >> pure (receipts ++ limits) in
    >>=-db (receipt_rule cfg row id) (λ receipts. limit_rule row id >>= last receipts)
      (λ e w. (check_parts-db cfg row id [] e w).0)
      (λ receipts.
        >>=-db (limit_rule row id) (last receipts) (λ e w. (check_parts-db cfg row id [] e w).1)
          (λ limits.
            >>=-db (duplicate_rule row id) (λ u. pure (receipts ++ limits))
              (λ e w. (check_parts-db cfg row id [] e w).2) (λ u e w. refl)))

pub check_submit-db :
    (cfg : Config) (id : ℕ) (role : Role) (user_id : ℕ) → KeepsDb (check_submit cfg id role user_id)
unfolding check_submit
check_submit-db cfg id role user_id =
    >>=-db (read_submittable id role user_id)
      (λ row. policy_violations cfg row id >>= choose_chain cfg row)
      (read_submittable-db id role user_id)
      (λ row.
        >>=-db (policy_violations cfg row id) (choose_chain cfg row)
          (policy_violations-db cfg row id)
          (λ violations e w. (check_parts-db cfg row id violations e w).3))

notify_employee-db :
    (id : ℕ) (s : Status) (e : Env) (w : World) → (notify_employee id s e w).1.db ≡ w.db
unfolding notify_employee statement
notify_employee-db id s e w = ground arith

get_detail_fresh-db : (id : ℕ) (e : Env) (w : World) → (get_detail_fresh id e w).1.db ≡ w.db
unfolding get_detail_fresh read_detail items attachments approvals_for statement
get_detail_fresh-db id e w = ground arith

pub answer-db : (id : ℕ) (s : Status) → KeepsDb (notify_employee id s >> get_detail_fresh id)
answer-db id s e w =
    ground
      (arith, notify_employee-db id s e w, get_detail_fresh-db id e (notify_employee id s e w).1)

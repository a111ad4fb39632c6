-- ===== src/Reimbursements/Workflow/Actions.antt =====
-- The actions of WorkflowService in workflow.go.
use reimbursement_system.Base.{
  ℕ, Bool, true, false, not, List, [], ◌∷◌, ◌++◌, ◌==◌, Text, is_empty, lit,
}
use reimbursement_system.Approval.{
  Status, submitted, approved, rejected, paid, cancelled, submit, Role, finance, role_eq,
  can_transition, approval_chain, exclude_submitter,
}
use reimbursement_system.AppErr.{
  Err, app, fault, record_not_found, with_details, forbidden, not_found, conflict, validation,
  business_rule, internal_err, Detail,
}
use reimbursement_system.Store.{M, pure, ◌>>=◌, ◌>>◌, throw_if, map_err, transaction}
use reimbursement_system.Reimbursements.Scope.{DetailRow}
use reimbursement_system.Reimbursements.Repository.{get_detail}
use reimbursement_system.Reimbursements.Repository.Detail.{DetailResponse, get_detail_fresh}
use reimbursement_system.Reimbursements.Workflow.Notify.{notify_employee}
use reimbursement_system.Reimbursements.Workflow.Policy.{
  Config, amount_text, receipt_rule, limit_rule, duplicate_rule,
}
use reimbursement_system.Reimbursements.Workflow.Steps.{
  Decision, approve_step, reject_step, submit_body, decide_body, cancel_body, pay_body,
}

abbrev pub no_details : List Detail → Bool
no_details [] = true
no_details (d ∷ ds) = false

abbrev pub no_roles : List Role → Bool
no_roles [] = true
no_roles (r ∷ rs) = false

-- The claim that Submit reads, if the caller owns it and its status allows the action.
unfoldable pub read_submittable : ℕ → Role → ℕ → M DetailRow
read_submittable id role user_id = do
  current ← get_detail id role user_id
  throw_if (not (current.claim.employee_id == user_id))
      (forbidden (lit "Only the owner can submit this claim"))
  throw_if (not (can_transition current.claim.status submit))
      (conflict (lit "Only DRAFT or REJECTED claims can be submitted"))
  pure current

-- The policy engine: a suspected duplicate ends it at once, the other violations accumulate.
unfoldable pub policy_violations : Config → DetailRow → ℕ → M (List Detail)
policy_violations cfg current id = do
  receipts ← receipt_rule cfg current id
  limits ← limit_rule current id
  duplicate_rule current id
  pure (receipts ++ limits)

abbrev pub chain_for : Config → DetailRow → List Role
chain_for cfg current =
    exclude_submitter (approval_chain (amount_text current) cfg.approval_t1 cfg.approval_t2)
      current.submitter_role

unfoldable pub choose_chain : Config → DetailRow → List Detail → M (Text × List Role)
choose_chain cfg current violations = do
  throw_if (not (no_details violations))
      (app (with_details (business_rule (lit "Policy check failed")) violations))
  throw_if (no_roles (chain_for cfg current)) (
      app (
        business_rule
          (lit "No eligible approver: submitter is the only role in the approval path")))
  pure (amount_text current, chain_for cfg current)

-- The checks of Submit, which end with the amount that was read and the chain of approvers.
unfoldable pub check_submit : Config → ℕ → Role → ℕ → M (Text × List Role)
check_submit cfg id role user_id = do
  current ← read_submittable id role user_id
  violations ← policy_violations cfg current id
  choose_chain cfg current violations

-- finishTx
abbrev pub finish_err : Err → Err
finish_err (app e) = app e
finish_err (fault record_not_found) = not_found (lit "Claim not found")
finish_err (fault f) = internal_err (fault f)

-- What Submit does behind its checks.
unfoldable pub commit_submit : ℕ → ℕ → Text × List Role → M DetailResponse
commit_submit id user_id (amount, chain) = do
  map_err finish_err (transaction (submit_body id user_id amount chain))
  notify_employee id submitted
  get_detail_fresh id

unfoldable pub submit_action : Config → ℕ → Role → ℕ → M DetailResponse
submit_action cfg id role user_id = do
  checked ← check_submit cfg id role user_id
  commit_submit id user_id checked

-- The error of the body is returned as it is, and one of the transaction itself as a 500.
abbrev pub tx_err : Err → Err
tx_err (app e) = app e
tx_err (fault f) = internal_err (fault f)

abbrev pub decided_status : Decision → Status
decided_status approve_step = approved
decided_status reject_step = rejected

unfoldable pub decide : Decision → ℕ → Role → ℕ → Text → M DetailResponse
decide decision id actor_role user_id note = do
  map_err tx_err (transaction (decide_body decision id actor_role user_id note))
  notify_employee id (decided_status decision)
  get_detail_fresh id

unfoldable pub approve_action : ℕ → Role → ℕ → M DetailResponse
approve_action id actor_role user_id = decide approve_step id actor_role user_id []

unfoldable pub reject_action : ℕ → Role → ℕ → Text → M DetailResponse
reject_action id actor_role user_id note = do
  throw_if (is_empty note) (validation (lit "note is required to reject a claim"))
  decide reject_step id actor_role user_id note

unfoldable pub cancel_action : ℕ → ℕ → M DetailResponse
cancel_action id user_id = do
  map_err tx_err (transaction (cancel_body id user_id))
  notify_employee id cancelled
  get_detail_fresh id

unfoldable pub pay_action : ℕ → Role → ℕ → M DetailResponse
pay_action id role user_id = do
  throw_if (not (role_eq role finance)) (forbidden (lit "Only Finance can mark claims as paid"))
  map_err tx_err (transaction (pay_body id user_id))
  notify_employee id paid
  get_detail_fresh id

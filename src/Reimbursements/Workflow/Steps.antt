-- ===== src/Reimbursements/Workflow/Steps.antt =====
-- The bodies of the transactions of workflow.go, which run with the claim's row locked.
use reimbursement_system.Base.{
  ℕ, suc, ◌+◌, Bool, false, not, Option, none, some, List, [], ◌∷◌, ◌++◌, map, ltb, ◌==◌,
  if◌then◌else◌, length, get_elem?, filter, find?, is_some, ◌&&◌, ◌||◌, Text, lit,
}
use reimbursement_system.Decimal.{numeric_text}
use reimbursement_system.Approval.{
  Status, submitted, approved, rejected, paid, cancelled, submit, cancel, pay, Role, employee,
  manager, finance, admin, unlisted, pending, step_approved, step_rejected, status_eq, role_eq,
  is_pending, can_transition, next_pending_index,
}
use reimbursement_system.AppErr.{
  Err, fault, record_not_found, unique_violation, forbidden, not_found, conflict, internal_err,
}
use reimbursement_system.Store.{
  Reimbursement, ApprovalStep, AuditAction, submit_claim, approve_claim, reject_claim, cancel_claim,
  pay_claim, Metadata, of_amount, of_step, Db, Env, M, Result, ok, err, pure, throw, done, ◌>>=◌,
  ◌>>◌, throw_if, map_err, ignore_err, ask, statement, query, exec,
}
use reimbursement_system.Reimbursements.Repository.{
  approvals_for, lock_claim, update_claim, update_step,
}
use reimbursement_system.Reimbursements.Workflow.Notify.{audit_write}

abbrev pub delete_steps : ℕ → Db → Db
delete_steps id db = record db {
  approvals = filter (λ (st : ApprovalStep). not (st.reimbursement_id == id)) db.approvals;
}

-- A step as the INSERT of Submit makes it: it is pending by default.
abbrev pub new_step : Env → ℕ → ℕ → ℕ → Role → ApprovalStep
new_step e t id n role = record {
  id = e.fresh_id t;
  reimbursement_id = id;
  step_number = n;
  approver_role = role;
  approver_id = none;
  status = pending;
  note = none;
  acted_at = none;
  created_at = e.now;
}

-- The primary key of approvals and its constraint uq_approval_step.
abbrev pub step_clashes : ApprovalStep → ApprovalStep → Bool
step_clashes new old =
    old.id == new.id
    || (old.reimbursement_id == new.reimbursement_id && old.step_number == new.step_number)

abbrev pub add_step : Env → ℕ → ℕ → Role → ℕ → Db → Result (Unit {0}) × Db
add_step e id n role t db =
    if is_some (find? (step_clashes (new_step e t id n role)) db.approvals)
    then (err (fault unique_violation), db)
    else (ok tt, record db { approvals = db.approvals ++ new_step e t id n role ∷ [] })

-- The loop over the chain; `n` is `i + 1`.
unfoldable pub insert_steps : ℕ → ℕ → List Role → M (Unit {0})
insert_steps id n [] = done
insert_steps id n (role ∷ chain) =
    (λ e. statement (add_step e id n role) e) >> insert_steps id (suc n) chain

abbrev pub to_submitted : ℕ → Reimbursement → Reimbursement
to_submitted now r = record r {
  status = submitted;
  current_step = 1;
  submitted_at = some now;
  decided_at = none;
  updated_at = now;
}

-- The UPDATE of Submit and its row of the audit log.
unfoldable pub close_submit : ℕ → ℕ → Text → M (Unit {0})
close_submit id user_id amount = do
  now ← ask (λ e. e.now)
  exec (update_claim id (to_submitted now))
  audit_write user_id submit_claim id (of_amount amount)

-- The transaction of Submit, with the amount that the caller read before it.
unfoldable pub submit_body : ℕ → ℕ → Text → List Role → M (Unit {0})
submit_body id user_id amount chain = do
  locked ← lock_claim id
  throw_if (not (can_transition locked.status submit))
      (conflict (lit "Claim was already submitted"))
  exec (delete_steps id)
  insert_steps id 1 chain
  close_submit id user_id amount

-- The two actions of decide.
pub data Decision : Type 0 where
  approve_step reject_step : Decision

abbrev pub lock_err : Err → Err
lock_err (fault record_not_found) = not_found (lit "Claim not found")
lock_err x = internal_err x

-- The pending step with its index. The index is in range, so the second case is never taken.
abbrev pub pending_step : List ApprovalStep → Option (ℕ × ApprovalStep)
pending_step steps = elim (next_pending_index (map (λ st. st.status) steps)) [
  | none ↦ none
  | some idx ↦ elim (get_elem? steps idx) [ none ↦ none | some st ↦ some (idx, st) ]
]

abbrev pub or_throw : {A : Type 0} → Option A → Err → M A
or_throw none x = throw x
or_throw (some a) x = pure a

abbrev pub role_text : Role → Text
role_text employee = lit "employee"
role_text manager = lit "manager"
role_text finance = lit "finance"
role_text admin = lit "admin"
role_text (unlisted s) = lit s

abbrev pub mark_approved : ℕ → ℕ → ApprovalStep → ApprovalStep
mark_approved user_id now st = record st {
  status = step_approved;
  approver_id = some user_id;
  acted_at = some now;
}

abbrev pub mark_rejected : ℕ → Text → ℕ → ApprovalStep → ApprovalStep
mark_rejected user_id note now st = record st {
  status = step_rejected;
  approver_id = some user_id;
  note = some note;
  acted_at = some now;
}

abbrev pub decide_status : Status → ℕ → Reimbursement → Reimbursement
decide_status s now r = record r { status = s; decided_at = some now; updated_at = now }

abbrev pub move_step : ℕ → ℕ → Reimbursement → Reimbursement
move_step n now r = record r { current_step = n; updated_at = now }

-- The two UPDATE statements of an approval and of a rejection.
unfoldable pub record_decision : Decision → ℕ → ℕ → ℕ → ℕ → ApprovalStep → Text → M (Unit {0})
record_decision approve_step id user_id count idx st note = do
  now ← ask (λ e. e.now)
  map_err internal_err (exec (update_step st.id (mark_approved user_id now)))
  map_err internal_err (
      exec (
        update_claim id
          (if suc idx == count then decide_status approved now else move_step (idx + 2) now)))
record_decision reject_step id user_id count idx st note = do
  now ← ask (λ e. e.now)
  map_err internal_err (exec (update_step st.id (mark_rejected user_id note now)))
  map_err internal_err (exec (update_claim id (decide_status rejected now)))

abbrev pub decision_log : Decision → ℕ → Role → Text → AuditAction × Metadata
decision_log approve_step idx role note = (approve_claim, of_step (suc idx) role none)
decision_log reject_step idx role note = (reject_claim, of_step (suc idx) role (some note))

-- The transaction of decide.
unfoldable pub decide_body : Decision → ℕ → Role → ℕ → Text → M (Unit {0})
decide_body decision id actor_role user_id note = do
  claim ← map_err lock_err (lock_claim id)
  throw_if (not (status_eq claim.status submitted))
      (conflict (lit "Claim is not awaiting decisions"))
  steps ← map_err internal_err (approvals_for id)
  (idx, st) ← or_throw (pending_step steps) (conflict (lit "No pending approval step"))
  throw_if (not (role_eq st.approver_role actor_role))
      (forbidden (lit "Not your turn — waiting for " ++ role_text st.approver_role))
  throw_if (user_id == claim.employee_id) (forbidden (lit "You cannot decide on your own claim"))
  record_decision decision id user_id (length steps) idx st note
  let (action, meta) = decision_log decision idx actor_role note
  audit_write user_id action id meta

-- `return err` of any failure to lock is a 404 in Cancel and Pay.
abbrev pub any_not_found : Err → Err
any_not_found x = not_found (lit "Claim not found")

abbrev pub count_acted : ℕ → Db → ℕ
count_acted id db = length (
    filter
      (λ (st : ApprovalStep).
        if st.reimbursement_id == id then not (is_pending st.status) else false)
      db.approvals)

abbrev pub to_cancelled : ℕ → Reimbursement → Reimbursement
to_cancelled now r = record r { status = cancelled; cancelled_at = some now; updated_at = now }

abbrev pub to_paid : ℕ → Reimbursement → Reimbursement
to_paid now r = record r { status = paid; paid_at = some now; updated_at = now }

-- The transaction of Cancel; the error of the count is dropped.
unfoldable pub cancel_body : ℕ → ℕ → M (Unit {0})
cancel_body id user_id = do
  claim ← map_err any_not_found (lock_claim id)
  throw_if (not (claim.employee_id == user_id))
      (forbidden (lit "Only the owner can cancel this claim"))
  throw_if (not (can_transition claim.status cancel))
      (conflict (lit "Only SUBMITTED claims can be cancelled"))
  acted ← ignore_err 0 (query (count_acted id))
  throw_if (ltb 0 acted)
      (conflict (lit "Approval already started — claim can no longer be cancelled"))
  now ← ask (λ e. e.now)
  exec (update_claim id (to_cancelled now))
  audit_write user_id cancel_claim id (of_amount (numeric_text claim.amount))

-- The transaction of Pay.
unfoldable pub pay_body : ℕ → ℕ → M (Unit {0})
pay_body id user_id = do
  claim ← map_err any_not_found (lock_claim id)
  throw_if (not (can_transition claim.status pay))
      (conflict (lit "Only APPROVED claims can be paid"))
  now ← ask (λ e. e.now)
  exec (update_claim id (to_paid now))
  audit_write user_id pay_claim id (of_amount (numeric_text claim.amount))

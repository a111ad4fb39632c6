-- ===== src/Api/Keeping/Writes.antt =====
-- The operations of workflow.go and service.go as changes of the tables.
use reimbursement_system.Base.{ℕ, inl, inr, []}
use reimbursement_system.Approval.{Role}
use reimbursement_system.Store.{Env, World}
use reimbursement_system.Reimbursements.Workflow.Policy.{Config}
use reimbursement_system.Reimbursements.Workflow.Runs.{PrintsDates}
use reimbursement_system.Reimbursements.Workflow.Steps.{approve_step}
use reimbursement_system.Reimbursements.Workflow.Actions.{submit_action, approve_action}
use reimbursement_system.Reimbursements.Workflow.Outcomes.{submit_outcome}
use reimbursement_system.Reimbursements.Service.{CreateRequest, create, update, delete}
use reimbursement_system.Reimbursements.Service.Outcomes.{create_outcome, update_outcome}
use reimbursement_system.Reimbursements.Service.Removal.{delete_outcome}
use reimbursement_system.Reimbursements.Effects.{Change, nothing, submits, creates, edits, deletes}
use reimbursement_system.Reimbursements.Concurrent.Safety.{decide-Change}

pub submit_action-Change :
    (cfg : Config) (id : ℕ) (role : Role) (user_id : ℕ) (e : Env) (w : World)
    → PrintsDates e
    → Change w.db (submit_action cfg id role user_id e w).1.db
submit_action-Change cfg id role user_id e w printed =
    elim (submit_outcome cfg id role user_id e w printed) [
      | inl (failed, same) ↦ nothing same
      | inr (amount, chain, row, claim, t, checked, done) ↦
          submits e t id user_id amount chain claim checked.someone done
    ]

pub approve_action-Change :
    (id : ℕ) (role : Role) (user_id : ℕ) (e : Env) (w : World)
    → Change w.db (approve_action id role user_id e w).1.db
unfolding approve_action
approve_action-Change id role user_id e w = decide-Change approve_step id role user_id [] e w

pub create-Change :
    (req : CreateRequest) (user_id : ℕ) (e : Env) (w : World)
    → Change w.db (create req user_id e w).1.db
create-Change req user_id e w = elim (create_outcome req user_id e w) [
  | inl (failed, same) ↦ nothing same
  | inr (t, id, date, cat, made) ↦ creates e t id user_id req date cat made
]

pub update-Change :
    (id : ℕ) (req : CreateRequest) (role : Role) (user_id : ℕ) (e : Env) (w : World)
    → Change w.db (update id req role user_id e w).1.db
update-Change id req role user_id e w = elim (update_outcome id req role user_id e w) [
  | inl (failed, same) ↦ nothing same
  | inr (t, date, cat, row, done) ↦ edits e t id req date cat done.written
]

pub delete-Change :
    (id : ℕ) (role : Role) (user_id : ℕ) (e : Env) (w : World)
    → Change w.db (delete id role user_id e w).1.db
delete-Change id role user_id e w = elim (delete_outcome id role user_id e w) [
  | inl (failed, same) ↦ nothing same
  | inr (row, found, owner, is_draft, written) ↦ deletes e.now id written
]

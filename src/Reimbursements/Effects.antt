-- ===== src/Reimbursements/Effects.antt =====
-- What the requests of workflow.go and service.go write to the tables of claims and approvals, one
-- transaction or statement at a time.
pub mod Origins
pub mod Keeping
pub mod Phases
pub mod Refine
pub mod Refinement
use reimbursement_system.Base.{ℕ, ◌≡◌, ◌≢◌, [], List, Text}
use reimbursement_system.Approval.{Role}
use reimbursement_system.Store.{Reimbursement, ApprovalStep, Db, Env}
use reimbursement_system.Reimbursements.Repository.{update_claim}
use reimbursement_system.Reimbursements.Workflow.Steps.{Decision}
use reimbursement_system.Reimbursements.Workflow.Decide.{Decided}
use reimbursement_system.Reimbursements.Workflow.Cancel.{Cancelled, Paid}
use reimbursement_system.Reimbursements.Workflow.Submit.{Submitted}
use reimbursement_system.Reimbursements.Service.{CreateRequest}
use reimbursement_system.Reimbursements.Service.Writing.{
  new_items, with_items, recalculated, Created,
}
use reimbursement_system.Reimbursements.Service.Outcomes.{cleared}
use reimbursement_system.Reimbursements.Service.Removal.{mark_deleted}

-- The tables after the transaction of Update.
abbrev pub edited_db : Env → ℕ → ℕ → CreateRequest → ℕ → ℕ → Db → Db
edited_db e t id req date cat db =
    recalculated e.now id (with_items (cleared e id req date cat db) (new_items e t id req.items))

pub data Change (db db' : Db) : Type 0 where
  nothing : db' ≡ db → Change db db'
  submits :
      (e : Env) (t id user_id : ℕ) (amount : Text) (chain : List Role) (claim : Reimbursement)
      → chain ≢ []
      → Submitted e t id user_id amount chain db db' claim
      → Change db db'
  decides :
      (d : Decision) (e : Env) (id : ℕ) (role : Role) (user_id : ℕ) (note : Text)
      (claim : Reimbursement) (idx : ℕ) (st : ApprovalStep)
      → Decided d e id role user_id note db db' claim idx st
      → Change db db'
  cancels :
      (e : Env) (id user_id : ℕ) (claim : Reimbursement)
      → Cancelled e id user_id db db' claim
      → Change db db'
  pays :
      (e : Env) (id user_id : ℕ) (claim : Reimbursement)
      → Paid e id user_id db db' claim
      → Change db db'
  creates :
      (e : Env) (t id user_id : ℕ) (req : CreateRequest) (date cat : ℕ)
      → Created e t id user_id req date cat db db'
      → Change db db'
  edits :
      (e : Env) (t id : ℕ) (req : CreateRequest) (date cat : ℕ)
      → db' ≡ edited_db e t id req date cat db
      → Change db db'
  deletes : (now id : ℕ) → db' ≡ update_claim id (mark_deleted now) db → Change db db'

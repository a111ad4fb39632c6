-- ===== src/Reimbursements/Workflow/Cancel.antt =====
-- Cancel and Pay of workflow.go: when their transactions complete, and what they leave behind.
use reimbursement_system.Base.{ℕ, ◌≡◌, inl, inr, some, arith, Option-cases}
use reimbursement_system.Decimal.{numeric_text}
use reimbursement_system.Approval.{submitted, approved, can_transition}
use reimbursement_system.Store.{
  Reimbursement, AuditAction, cancel_claim, pay_claim, of_amount, Db, Env, World, statement,
  Completes, begun,
}
use reimbursement_system.Reimbursements.Repository.{find_claim, lock_claim, update_claim}
use reimbursement_system.Reimbursements.Workflow.Notify.{add_log, audit_write}
use reimbursement_system.Reimbursements.Workflow.Steps.{
  count_acted, to_cancelled, to_paid, cancel_body, pay_body,
}

-- The claim's row is replaced and one row of the audit log is added.
abbrev pub closed_db :
    AuditAction → (ℕ → Reimbursement → Reimbursement) → Env → ℕ → ℕ → Reimbursement → Db → Db
closed_db action close e id user_id claim db =
    add_log
      (record {
        actor_id = user_id;
        action = action;
        entity_id = id;
        metadata = of_amount (numeric_text claim.amount);
      })
      (update_claim id (close e.now) db)

pub record Cancelled (e : Env) (id user_id : ℕ) (db db' : Db) (claim : Reimbursement) : Type 0 where
  pub found : find_claim id db ≡ some claim
  pub owner : claim.employee_id ≡ user_id
  pub waiting : claim.status ≡ submitted
  pub untouched : count_acted id db ≡ 0
  pub written : db' ≡ closed_db cancel_claim to_cancelled e id user_id claim db

pub cancel_body-Completes :
    (id user_id : ℕ) (e : Env) (w w' : World)
    → Completes (cancel_body id user_id) e (begun w) tt w'
    → (claim : Reimbursement) × Cancelled e id user_id w.db w'.db claim
unfolding cancel_body lock_claim statement audit_write can_transition
cancel_body-Completes id user_id e w w' done = elim (Option-cases (find_claim id w.db)) [
  | inl missing ↦ absurd (ground arith)
  | inr (claim, found) ↦ (claim, ground arith)
]

pub record Paid (e : Env) (id user_id : ℕ) (db db' : Db) (claim : Reimbursement) : Type 0 where
  pub found : find_claim id db ≡ some claim
  pub ready : claim.status ≡ approved
  pub written : db' ≡ closed_db pay_claim to_paid e id user_id claim db

pub pay_body-Completes :
    (id user_id : ℕ) (e : Env) (w w' : World)
    → Completes (pay_body id user_id) e (begun w) tt w'
    → (claim : Reimbursement) × Paid e id user_id w.db w'.db claim
unfolding pay_body lock_claim statement audit_write can_transition
pay_body-Completes id user_id e w w' done = elim (Option-cases (find_claim id w.db)) [
  | inl missing ↦ absurd (ground arith)
  | inr (claim, found) ↦ (claim, ground arith)
]

-- ===== src/Reimbursements/Workflow/Liveness.antt =====
-- decide of workflow.go when no statement fails.
use reimbursement_system.Base.{ℕ, ◌+◌, ◌≡◌, ap, ◌∙◌, false, true, some, arith, ◌==◌, Text}
use reimbursement_system.Approval.{submitted, Role, role_eq}
use reimbursement_system.Store.{
  Reimbursement, ApprovalStep, Env, World, M, Result, ok, ◌>>◌, map_err, statement, transaction,
  KeepsDb, begun, is_aborted,
}
use reimbursement_system.Reimbursements.Repository.{find_claim, steps_of, lock_claim, approvals_for}
use reimbursement_system.Reimbursements.Workflow.Notify.{notify_employee, audit_write}
use reimbursement_system.Reimbursements.Repository.Detail.{get_detail_fresh}
use reimbursement_system.AppErr.{Err}
use reimbursement_system.Reimbursements.Workflow.Actions.{decide, tx_err, decided_status}
use reimbursement_system.Reimbursements.Workflow.Reads.{answer-db}
use reimbursement_system.Reimbursements.Workflow.Decide.{Decided, decide_body-Completes}
use reimbursement_system.Reimbursements.Workflow.Steps.{
  Decision, approve_step, reject_step, pending_step, decide_body, record_decision,
}

abbrev pub NoFailure : Env → Type 0
NoFailure e = (t : ℕ) → e.fails t ≡ false

-- The transaction of a decision completes when its guards hold and no statement fails.
pub decide_body-completes :
    (d : Decision) (id : ℕ) (role : Role) (user_id : ℕ) (note : Text) (e : Env) (w : World)
    (claim : Reimbursement) (idx : ℕ) (st : ApprovalStep)
    → NoFailure e
    → find_claim id w.db ≡ some claim
    → claim.status ≡ submitted
    → pending_step (steps_of id w.db) ≡ some (idx, st)
    → role_eq st.approver_role role ≡ true
    → (user_id == claim.employee_id) ≡ false
    → let out = decide_body d id role user_id note e (begun w) in
      (out.0 ≡ ok tt) × (is_aborted out.1.tx ≡ false)
unfolding decide_body lock_claim approvals_for statement record_decision audit_write
decide_body-completes approve_step id role user_id note e w claim idx st calm found sub turn holds
      other =
    (
      ground (
        arith,
        calm (w.tick + 1),
        calm (w.tick + 1 + 1),
        calm (w.tick + 1 + 1 + 1),
        calm (w.tick + 1 + 1 + 1 + 1),
        calm (w.tick + 1 + 1 + 1 + 1 + 1),
      ),
      ground (
        arith,
        calm (w.tick + 1),
        calm (w.tick + 1 + 1),
        calm (w.tick + 1 + 1 + 1),
        calm (w.tick + 1 + 1 + 1 + 1),
        calm (w.tick + 1 + 1 + 1 + 1 + 1),
      ),
    )
decide_body-completes reject_step id role user_id note e w claim idx st calm found sub turn holds
      other =
    (
      ground (
        arith,
        calm (w.tick + 1),
        calm (w.tick + 1 + 1),
        calm (w.tick + 1 + 1 + 1),
        calm (w.tick + 1 + 1 + 1 + 1),
        calm (w.tick + 1 + 1 + 1 + 1 + 1),
      ),
      ground (
        arith,
        calm (w.tick + 1),
        calm (w.tick + 1 + 1),
        calm (w.tick + 1 + 1 + 1),
        calm (w.tick + 1 + 1 + 1 + 1),
        calm (w.tick + 1 + 1 + 1 + 1 + 1),
      ),
    )

-- A transaction whose body completes, and in which no statement fails, is committed.
transaction-calm :
    (body : M (Unit {0})) (e : Env) (w : World)
    → NoFailure e
    → (body e (begun w)).0 ≡ ok tt
    → is_aborted (body e (begun w)).1.tx ≡ false
    → ((transaction body e w).0 ≡ ok tt) × ((transaction body e w).1.db ≡ (body e (begun w)).1.db)
unfolding transaction
transaction-calm body e w calm returned live = (
  ground (arith, calm w.tick, calm (body e (begun w)).1.tick),
  ground (arith, calm w.tick, calm (body e (begun w)).1.tick),
)

-- If no statement fails, the decision of a caller with the role of the pending step, who does not
-- own the claim, is recorded.
pub decide-calm :
    (d : Decision) (id : ℕ) (role : Role) (user_id : ℕ) (note : Text) (e : Env) (w : World)
    (claim : Reimbursement) (idx : ℕ) (st : ApprovalStep)
    → NoFailure e
    → find_claim id w.db ≡ some claim
    → claim.status ≡ submitted
    → pending_step (steps_of id w.db) ≡ some (idx, st)
    → role_eq st.approver_role role ≡ true
    → (user_id == claim.employee_id) ≡ false
    → (claim' : Reimbursement) × (idx' : ℕ) × (st' : ApprovalStep) × Decided d e id role user_id
        note w.db
        (decide d id role user_id note e w).1.db
        claim'
        idx'
        st'
unfolding decide
decide-calm d id role user_id note e w claim idx st calm found sub turn holds other =
    let body = decide_body d id role user_id note in
    let (returned, live) =
      decide_body-completes d id role user_id note e w claim idx st calm found sub turn holds
        other in
    let (committed, left) = transaction-calm body e w calm returned live in
    let same =
      action-db body tx_err (notify_employee id (decided_status d) >> get_detail_fresh id)
        (answer-db id (decided_status d)) e w committed in
    let w' = (body e (begun w)).1 in
    rw (same ∙ left) (
      decide_body-Completes d id role user_id note e w w'
        (record { returned = ap (λ (r : Result (Unit {0})). (r, w')) returned; live = live }))
  where
    action-db :
        {A : Type 0} (body : M (Unit {0})) (f : Err → Err) (tail : M A)
        → KeepsDb tail
        → (e : Env) (w : World) → (transaction body e w).0 ≡ ok tt
        → ((map_err f (transaction body) >> tail) e w).1.db ≡ (transaction body e w).1.db
    action-db body f tail keeps e w h = ground (arith, keeps e (transaction body e w).1)

-- ===== src/Reimbursements/Workflow/Safety.antt =====
-- The invariant over any sequence of requests to workflow.go, and what follows from it.
use reimbursement_system.Base.{
  ℕ, suc, ◌<◌, ◌≡◌, ◌≢◌, inl, inr, ◌⊎◌, some, List, [], ◌∷◌, Bool-cases, is_empty, length, All,
  Text,
}
use reimbursement_system.Approval.{submitted, approved, paid, step_approved, Role}
use reimbursement_system.Approval.Sequence.{IsSequential}
use reimbursement_system.Store.{Reimbursement, ApprovalStep, Env, World}
use reimbursement_system.Reimbursements.Repository.{find_claim, steps_of}
use reimbursement_system.Reimbursements.Workflow.Policy.{Config}
use reimbursement_system.Reimbursements.Workflow.Steps.{approve_step, reject_step}
use reimbursement_system.Reimbursements.Workflow.Actions.{approve_action, reject_action}
use reimbursement_system.Reimbursements.Workflow.Runs.{
  Request, submit, approve, reject, cancel, pay, serve, serve_all, PrintsDates, AllPrint,
}
use reimbursement_system.Reimbursements.Workflow.Fits.{statuses, settled-Fits}
use reimbursement_system.Reimbursements.Workflow.Invariant.{
  Invariant, submit_action-Invariant, decide-Invariant, cancel_action-Invariant,
  pay_action-Invariant,
}

reject_action-Invariant :
    (id : ℕ) (role : Role) (user_id : ℕ) (note : Text) (e : Env) (w : World)
    → Invariant w.db
    → Invariant (reject_action id role user_id note e w).1.db
unfolding reject_action
reject_action-Invariant id role user_id note e w inv = elim (Bool-cases (is_empty note)) [
  | inl empty ↦ rw empty inv
  | inr given ↦ rw given (decide-Invariant reject_step id role user_id note e w inv)
]

-- If no date prints as the empty text, each request keeps the invariant: one row for each step
-- id, and every claim fits its approval steps.
pub serve-Invariant :
    (cfg : Config) (q : Request) (e : Env) (w : World)
    → PrintsDates e
    → Invariant w.db
    → Invariant (serve cfg q e w).db
unfolding serve approve_action
serve-Invariant cfg (submit id role user_id) e w p inv =
    submit_action-Invariant cfg id role user_id e w p inv
serve-Invariant cfg (approve id role user_id) e w p inv =
    decide-Invariant approve_step id role user_id [] e w inv
serve-Invariant cfg (reject id role user_id note) e w p inv =
    reject_action-Invariant id role user_id note e w inv
serve-Invariant cfg (cancel id user_id) e w p inv = cancel_action-Invariant id user_id e w inv
serve-Invariant cfg (pay id role user_id) e w p inv = pay_action-Invariant id role user_id e w inv

serve_all-Invariant :
    (cfg : Config) (qs : List (Request × Env)) (w : World)
    → AllPrint qs
    → Invariant w.db
    → Invariant (serve_all cfg qs w).db
unfolding serve_all
serve_all-Invariant cfg [] w p inv = inv
serve_all-Invariant cfg ((q, e) ∷ qs) w p inv =
    serve_all-Invariant cfg qs (serve cfg q e w) p.1 (serve-Invariant cfg q e w p.0 inv)

-- From tables that satisfy the invariant, after any sequence of requests whose environments
-- print no date as the empty text, an APPROVED or PAID claim has at least one approval step,
-- every step approved, none by the owner.
pub settled_fully_approved :
    (cfg : Config) (qs : List (Request × Env)) (w : World) (j : ℕ) (r : Reimbursement)
    → AllPrint qs
    → Invariant w.db
    → find_claim j (serve_all cfg qs w).db ≡ some r
    → (r.status ≡ approved) ⊎ (r.status ≡ paid)
    → let steps = steps_of j (serve_all cfg qs w).db in
      (0 < length steps)
      × All
          (λ (st : ApprovalStep).
            (st.status ≡ step_approved) × (st.approver_id ≢ some r.employee_id))
          steps
settled_fully_approved cfg qs w j r p inv here settled =
    settled-Fits (steps_of j (serve_all cfg qs w).db) r
      ((serve_all-Invariant cfg qs w p inv).fits j r here) settled

-- From tables that satisfy the invariant, after any sequence of requests whose environments
-- print no date as the empty text, a SUBMITTED claim has its first k steps approved, the others
-- pending, and current_step is k+1.
pub submitted_waits_in_order :
    (cfg : Config) (qs : List (Request × Env)) (w : World) (j : ℕ) (r : Reimbursement)
    → AllPrint qs
    → Invariant w.db
    → find_claim j (serve_all cfg qs w).db ≡ some r
    → r.status ≡ submitted
    → let steps = steps_of j (serve_all cfg qs w).db in
      (k : ℕ) × IsSequential k (statuses steps) × (k < length steps) × (r.current_step ≡ suc k)
submitted_waits_in_order cfg qs w j r p inv here sub =
    ((serve_all-Invariant cfg qs w p inv).fits j r here).waiting sub

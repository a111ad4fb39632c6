-- ===== src/Examples/Flow.antt =====
-- One claim from draft to approval, and the theorems on it.
use reimbursement_system.Base.{ℕ, ◌≡◌, refl, some, List, [], ◌∷◌, arith, lit, Text, ◌⊎◌}
use reimbursement_system.Approval.{Role, employee, manager, finance, draft}
use reimbursement_system.Store.{Reimbursement, ApprovalStep, Env, World, ok}
use reimbursement_system.Reimbursements.Repository.{find_claim}
use reimbursement_system.Reimbursements.Scope.{DetailRow}
use reimbursement_system.Reimbursements.Workflow.Steps.{approve_step}
use reimbursement_system.Reimbursements.Workflow.Actions.{
  submit_action, decide, cancel_action, pay_action, check_submit,
}
use reimbursement_system.Reimbursements.Workflow.Cancel.{Cancelled, Paid}
use reimbursement_system.Reimbursements.Workflow.Decide.{Decided}
use reimbursement_system.Reimbursements.Workflow.Submit.{Submitted}
use reimbursement_system.Reimbursements.Workflow.Outcomes.{
  Refused, decide_outcome, cancel_outcome, pay_outcome, submit_outcome,
}
use reimbursement_system.Reimbursements.Workflow.Checks.{Checked, check_submit-ok}
use reimbursement_system.Reimbursements.Workflow.Fits.{Fits}
use reimbursement_system.Reimbursements.Workflow.Invariant.{Invariant}
use reimbursement_system.Reimbursements.Workflow.Runs.{
  Request, submit, approve, serve_all, PrintsDates, AllPrint, LegalMoves, serve_all_lifecycle,
}
use reimbursement_system.Examples.Tables.{
  workflow_runs, cfg, calm, start, draft_claim, submitted_claim, approved_claim, paid_claim,
}

abbrev after_submit : List (Request × Env)
after_submit = (submit 1 employee 10, calm) ∷ []

abbrev pub after_approval : List (Request × Env)
after_approval =
    (submit 1 employee 10, calm) ∷ (approve 1 manager 20, calm) ∷ (approve 1 finance 30, calm) ∷ []

pub calm-PrintsDates : PrintsDates calm
unfolding lit
calm-PrintsDates d = refl

approval-AllPrint : AllPrint after_approval
approval-AllPrint = (calm-PrintsDates, (calm-PrintsDates, (calm-PrintsDates, tt)))

pub submits : find_claim 1 (serve_all cfg after_submit start).db ≡ some submitted_claim
unfolding workflow_runs
submits = refl

pub approves : find_claim 1 (serve_all cfg after_approval start).db ≡ some approved_claim
unfolding workflow_runs
approves = refl

abbrev pub submitted_world : World
submitted_world = serve_all cfg after_submit start

abbrev pub approved_world : World
approved_world = serve_all cfg after_approval start

abbrev pub paid_world : World
paid_world = record start { db = record start.db { reimbursements = paid_claim ∷ [] } }

draft-Fits : Fits [] draft_claim
draft-Fits = record { waiting = λ h. cc; settled = λ h. ground arith; by_others = tt }

pub start-Invariant : Invariant start.db
start-Invariant = record {
  keys = tt;
  fits = λ j r here. let e : draft_claim ≡ r = ground arith in rw (← e) draft-Fits;
}

serve_all_lifecycle_example :
    (r' : Reimbursement) × (find_claim 1 approved_world.db ≡ some r')
    × LegalMoves draft r'.status
    × (r'.employee_id ≡ 10)
    × (r'.amount ≡ 60000000)
serve_all_lifecycle_example =
    serve_all_lifecycle cfg after_approval start approval-AllPrint 1 draft_claim refl

submit_outcome_example :
    Refused start.db (submit_action cfg 1 employee 10 calm start)
    ⊎ ((amount : Text) × (chain : List Role) × (row : DetailRow) × (claim : Reimbursement) × (t : ℕ)
        × Checked cfg calm 1 employee 10 start.db amount chain row
        × Submitted calm t 1 10 amount chain start.db
            (submit_action cfg 1 employee 10 calm start).1.db
            claim)
submit_outcome_example = submit_outcome cfg 1 employee 10 calm start calm-PrintsDates

decide_outcome_example :
    Refused submitted_world.db (decide approve_step 1 manager 20 [] calm submitted_world)
    ⊎ ((claim : Reimbursement) × (idx : ℕ) × (st : ApprovalStep) × Decided approve_step calm 1
          manager 20 [] submitted_world.db
          (decide approve_step 1 manager 20 [] calm submitted_world).1.db
          claim
          idx
          st)
decide_outcome_example = decide_outcome approve_step 1 manager 20 [] calm submitted_world

cancel_outcome_example :
    Refused submitted_world.db (cancel_action 1 10 calm submitted_world)
    ⊎ ((claim : Reimbursement) × Cancelled calm 1 10 submitted_world.db
          (cancel_action 1 10 calm submitted_world).1.db
          claim)
cancel_outcome_example = cancel_outcome 1 10 calm submitted_world

pay_outcome_example :
    Refused approved_world.db (pay_action 1 finance 30 calm approved_world)
    ⊎ ((finance ≡ finance)
        × (claim : Reimbursement) × Paid calm 1 30 approved_world.db
            (pay_action 1 finance 30 calm approved_world).1.db
            claim)
pay_outcome_example = pay_outcome 1 finance 30 calm approved_world

pub checks_pass :
    check_submit cfg 1 employee 10 calm start
    ≡ (ok (lit "600000.00", manager ∷ finance ∷ []), record start { tick = 5 })
unfolding workflow_runs
checks_pass = refl

check_submit-ok_example :
    (start.db ≡ start.db)
    × (row : DetailRow) × Checked cfg calm 1 employee 10 start.db
        (lit "600000.00")
        (manager ∷ finance ∷ [])
        row
check_submit-ok_example =
    check_submit-ok cfg 1 employee 10 calm start (record start { tick = 5 }) (lit "600000.00")
      (manager ∷ finance ∷ []) calm-PrintsDates checks_pass

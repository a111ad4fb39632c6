-- ===== src/Reimbursements/Workflow/Outcomes.antt =====
-- The actions of workflow.go as a whole, notification and answer included.
use reimbursement_system.Base.{
  ℕ, ◌+◌, ◌≡◌, ◌∙◌, inl, inr, ◌⊎◌, true, false, List, arith, Bool-cases, is_empty, Text,
}
use reimbursement_system.Approval.{submitted, cancelled, paid, Role, finance, role_eq}
use reimbursement_system.Store.{
  Reimbursement, ApprovalStep, Db, Env, World, Result, is_ok, ◌>>◌, action-cases, >>=-cases,
}
use reimbursement_system.Approval.Chain.{role_eq_sound}
use reimbursement_system.Reimbursements.Scope.{DetailRow}
use reimbursement_system.Reimbursements.Repository.Detail.{get_detail_fresh}
use reimbursement_system.Reimbursements.Workflow.Notify.{notify_employee}
use reimbursement_system.Reimbursements.Workflow.Steps.{
  Decision, submit_body, decide_body, cancel_body, pay_body,
}
use reimbursement_system.Reimbursements.Workflow.Actions.{
  tx_err, finish_err, decided_status, check_submit, commit_submit, submit_action, decide,
  cancel_action, pay_action,
}
use reimbursement_system.Reimbursements.Workflow.Cancel.{
  Cancelled, Paid, cancel_body-Completes, pay_body-Completes,
}
use reimbursement_system.Reimbursements.Workflow.Policy.{Config}
use reimbursement_system.Reimbursements.Workflow.Checks.{Checked, check_submit-ok}
use reimbursement_system.Reimbursements.Workflow.Reads.{check_submit-db, answer-db}
use reimbursement_system.Reimbursements.Workflow.Submit.{Submitted, submit_body-Completes}
use reimbursement_system.Reimbursements.Workflow.Decide.{Decided, decide_body-Completes}

-- The answer is an error and the tables are as they were.
abbrev pub Refused : {A : Type 0} → Db → Result A × World → Type 0
Refused db out = (is_ok out.0 ≡ false) × (out.1.db ≡ db)

-- A decision is refused and changes no table, or it is made on the first pending step of a
-- SUBMITTED claim by a caller with the step's role who does not own the claim, and writes
-- exactly the step, the claim and one audit row.
pub decide_outcome :
    (d : Decision) (id : ℕ) (role : Role) (user_id : ℕ) (note : Text) (e : Env) (w : World)
    → Refused w.db (decide d id role user_id note e w)
      ⊎ ((claim : Reimbursement) × (idx : ℕ) × (st : ApprovalStep) × Decided d e id role user_id
            note w.db
            (decide d id role user_id note e w).1.db
            claim
            idx
            st)
unfolding decide
decide_outcome d id role user_id note e w =
    elim (action-cases (decide_body d id role user_id note) tx_err
      (notify_employee id (decided_status d) >> get_detail_fresh id)
      (answer-db id (decided_status d)) e w) [
        | inl refused ↦ inl refused
        | inr (w', done, same) ↦
            inr (rw same (decide_body-Completes d id role user_id note e w w' done))
      ]

-- A cancellation is refused and changes no table, or the owner asked for it while the claim was
-- SUBMITTED and no step had been acted, and it closes the claim alone and logs it.
pub cancel_outcome :
    (id user_id : ℕ) (e : Env) (w : World)
    → Refused w.db (cancel_action id user_id e w)
      ⊎ ((claim : Reimbursement) × Cancelled e id user_id w.db
            (cancel_action id user_id e w).1.db
            claim)
unfolding cancel_action
cancel_outcome id user_id e w =
    elim (action-cases (cancel_body id user_id) tx_err
      (notify_employee id cancelled >> get_detail_fresh id) (answer-db id cancelled) e w) [
        | inl refused ↦ inl refused
        | inr (w', done, same) ↦ inr (rw same (cancel_body-Completes id user_id e w w' done))
      ]

pay_role_outcome :
    (id : ℕ) (role : Role) (user_id : ℕ) (e : Env) (w : World)
    → role_eq role finance ≡ true
    → Refused w.db (pay_action id role user_id e w)
      ⊎ ((claim : Reimbursement) × Paid e id user_id w.db
            (pay_action id role user_id e w).1.db
            claim)
unfolding pay_action
pay_role_outcome id role user_id e w h =
    rw h
      (elim (action-cases (pay_body id user_id) tx_err
        (notify_employee id paid >> get_detail_fresh id) (answer-db id paid) e w) [
          | inl refused ↦ inl refused
          | inr (w', done, same) ↦ inr (rw same (pay_body-Completes id user_id e w w' done))
        ])

-- Pay is refused and changes no table, or Finance asked for it on an APPROVED claim and it marks
-- that claim and logs it.
pub pay_outcome :
    (id : ℕ) (role : Role) (user_id : ℕ) (e : Env) (w : World)
    → Refused w.db (pay_action id role user_id e w)
      ⊎ ((role ≡ finance)
          × (claim : Reimbursement) × Paid e id user_id w.db
              (pay_action id role user_id e w).1.db
              claim)
unfolding pay_action
pay_outcome id role user_id e w = elim (Bool-cases (role_eq role finance)) [
  | inr other ↦ inl (ground arith, ground arith)
  | inl same ↦ elim (pay_role_outcome id role user_id e w same) [
    | inl refused ↦ inl refused
    | inr (claim, paid_claim) ↦ inr (role_eq_sound role finance same, claim, paid_claim)
  ]
]

-- The transaction of Submit alone: refused, or it wrote the chain that it was given.
pub commit_outcome :
    (id user_id : ℕ) (amount : Text) (chain : List Role) (e : Env) (w : World)
    → Refused w.db (commit_submit id user_id (amount, chain) e w)
      ⊎ ((claim : Reimbursement) × Submitted e
            (w.tick + 1 + 1 + 1)
            id
            user_id
            amount
            chain
            w.db
            (commit_submit id user_id (amount, chain) e w).1.db
            claim)
unfolding commit_submit
commit_outcome id user_id amount chain e w =
    elim (action-cases (submit_body id user_id amount chain) finish_err
      (notify_employee id submitted >> get_detail_fresh id) (answer-db id submitted) e w) [
        | inl refused ↦ inl refused
        | inr (w', done, same) ↦
            inr (rw same (submit_body-Completes id user_id amount chain e w w' done))
      ]

-- If no date prints as the empty text, Submit is refused and changes no table, or it passed
-- every check on the tables as they were and wrote the chain that the checks chose.
pub submit_outcome :
    (cfg : Config) (id : ℕ) (role : Role) (user_id : ℕ) (e : Env) (w : World)
    → ((d : ℕ) → is_empty (e.date_text d) ≡ false)
    → Refused w.db (submit_action cfg id role user_id e w)
      ⊎ ((amount : Text) × (chain : List Role) × (row : DetailRow) × (claim : Reimbursement)
          × (t : ℕ) × Checked cfg e id role user_id w.db amount chain row
          × Submitted e t id user_id amount chain w.db
              (submit_action cfg id role user_id e w).1.db
              claim)
unfolding submit_action
submit_outcome cfg id role user_id e w printed =
    elim (>>=-cases (check_submit cfg id role user_id) (commit_submit id user_id)
      (check_submit-db cfg id role user_id) e w) [
        | inl refused ↦ inl refused
        | inr ((amount, chain), passed, same, goes_on) ↦
            let w1 = (check_submit cfg id role user_id e w).1 in
            let (kept, row, checked) =
              check_submit-ok cfg id role user_id e w w1 amount chain printed passed in
            rw goes_on (elim (commit_outcome id user_id amount chain e w1) [
              | inl (failed, left) ↦ inl (failed, left ∙ same)
              | inr (claim, written) ↦
                  inr (amount, chain, row, claim, w1.tick + 1 + 1 + 1, checked, rw same at written)
            ])
      ]

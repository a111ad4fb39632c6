-- ===== src/Reimbursements/Service/Kept.antt =====
-- The amounts of the claims and the totals of their items, under the five actions of workflow.go.
use reimbursement_system.Base.{
  ℕ, ◌≡◌, refl, sym, ◌∙◌, Option-cases, inl, inr, [], arith, ◌==◌, Bool-cases, is_empty, length,
  Text,
}
use reimbursement_system.Approval.{Role}
use reimbursement_system.Store.{Reimbursement, cancel_claim, pay_claim, Db, Env, World}
use reimbursement_system.Reimbursements.Repository.{find_claim, update_claim, steps_of}
use reimbursement_system.Reimbursements.Repository.Writes.{claim_total}
use reimbursement_system.Reimbursements.Workflow.Policy.{Config}
use reimbursement_system.Reimbursements.Workflow.Steps.{
  Decision, approve_step, reject_step, to_submitted, to_cancelled, to_paid,
}
use reimbursement_system.Reimbursements.Workflow.Actions.{decide, approve_action, reject_action}
use reimbursement_system.Reimbursements.Workflow.Decide.{advance, decided_db}
use reimbursement_system.Reimbursements.Workflow.Submit.{submitted_db}
use reimbursement_system.Reimbursements.Workflow.Cancel.{closed_db}
use reimbursement_system.Reimbursements.Workflow.Lifecycle.{find_claim-update, advance_keeps}
use reimbursement_system.Reimbursements.Workflow.Outcomes.{
  decide_outcome, cancel_outcome, pay_outcome, submit_outcome,
}
use reimbursement_system.Reimbursements.Workflow.Runs.{
  Request, submit, approve, reject, cancel, pay, serve, PrintsDates,
}
use reimbursement_system.Reimbursements.Service.Amounts.{Totals}

pub update_claim-Totals :
    (id : ℕ) (f : Reimbursement → Reimbursement) (db db' : Db)
    → ((r : Reimbursement) → (f r).id ≡ r.id)
    → ((r : Reimbursement) → (f r).deleted_at ≡ r.deleted_at)
    → ((r : Reimbursement) → (f r).amount ≡ r.amount)
    → ((j : ℕ) → find_claim j db' ≡ find_claim j (update_claim id f db))
    → ((j : ℕ) → claim_total j db' ≡ claim_total j db)
    → Totals db
    → Totals db'
update_claim-Totals id f db db' keeps_id keeps_deleted keeps_amount claims totals_same totals j r
      here =
    let moved = claims j ∙ find_claim-update id j f db keeps_id keeps_deleted in
    elim (Bool-cases (j == id)) [
      | inr other ↦ totals j r (sym (moved ∙ rw other) ∙ here) ∙ sym (totals_same j)
      | inl same ↦ elim (Option-cases (find_claim j db)) [
        | inl missing ↦ absurd (ground arith)
        | inr (old, found) ↦
            let e : f old ≡ r = ground arith in
            rw (← e) (keeps_amount old ∙ totals j old found ∙ sym (totals_same j))
      ]
    ]

pub advance-amount :
    (d : Decision) (idx count now : ℕ) (r : Reimbursement)
    → (advance d idx count now r).amount ≡ r.amount
advance-amount approve_step idx count now r = ground arith
advance-amount reject_step idx count now r = refl

decide-Totals :
    (d : Decision) (id : ℕ) (role : Role) (user_id : ℕ) (note : Text) (e : Env) (w : World)
    → Totals w.db
    → Totals (decide d id role user_id note e w).1.db
decide-Totals d id role user_id note e w totals = elim (decide_outcome d id role user_id note e w) [
  | inl (failed, same) ↦ rw same totals
  | inr (claim, idx, st, done) ↦
      let count = length (steps_of id w.db) in
      rw done.written (
        update_claim-Totals id (advance d idx count e.now) w.db
          (decided_db d e id role user_id note idx st w.db)
          (λ r. (advance_keeps d idx count e.now r).0) (λ r. (advance_keeps d idx count e.now r).1)
          (advance-amount d idx count e.now) (λ j. refl) (λ j. refl) totals)
]

reject_action-Totals :
    (id : ℕ) (role : Role) (user_id : ℕ) (note : Text) (e : Env) (w : World)
    → Totals w.db
    → Totals (reject_action id role user_id note e w).1.db
unfolding reject_action
reject_action-Totals id role user_id note e w totals = elim (Bool-cases (is_empty note)) [
  | inl empty ↦ rw empty totals
  | inr given ↦ rw given (decide-Totals reject_step id role user_id note e w totals)
]

-- If no date prints as the empty text, whatever is requested of the workflow, and whichever
-- statements fail, every claim that is not deleted keeps the total of its items as its amount.
pub serve-Totals :
    (cfg : Config) (q : Request) (e : Env) (w : World)
    → PrintsDates e
    → Totals w.db
    → Totals (serve cfg q e w).db
unfolding serve approve_action
serve-Totals cfg (submit id role user_id) e w p totals =
    elim (submit_outcome cfg id role user_id e w p) [
      | inl (failed, same) ↦ rw same totals
      | inr (amount, chain, row, claim, t, checked, done) ↦ rw done.written (
          update_claim-Totals id (to_submitted e.now) w.db
            (submitted_db e t id user_id amount chain w.db) (λ r. refl) (λ r. refl) (λ r. refl)
            (λ j. refl) (λ j. refl) totals)
    ]
serve-Totals cfg (approve id role user_id) e w p totals =
    decide-Totals approve_step id role user_id [] e w totals
serve-Totals cfg (reject id role user_id note) e w p totals =
    reject_action-Totals id role user_id note e w totals
serve-Totals cfg (cancel id user_id) e w p totals = elim (cancel_outcome id user_id e w) [
  | inl (failed, same) ↦ rw same totals
  | inr (claim, done) ↦ rw done.written (
      update_claim-Totals id (to_cancelled e.now) w.db
        (closed_db cancel_claim to_cancelled e id user_id claim w.db) (λ r. refl) (λ r. refl)
        (λ r. refl) (λ j. refl) (λ j. refl) totals)
]
serve-Totals cfg (pay id role user_id) e w p totals = elim (pay_outcome id role user_id e w) [
  | inl (failed, same) ↦ rw same totals
  | inr (allowed, claim, done) ↦ rw done.written (
      update_claim-Totals id (to_paid e.now) w.db
        (closed_db pay_claim to_paid e id user_id claim w.db) (λ r. refl) (λ r. refl) (λ r. refl)
        (λ j. refl) (λ j. refl) totals)
]

-- ===== src/Reimbursements/Workflow/Invariant.antt =====
-- The invariant of the tables of workflow.go, under each of its five actions.
use reimbursement_system.Base.{
  ℕ, zero, suc, ◌+◌, ◌≡◌, refl, ◌≢◌, sym, subst, ◌∙◌, inl, inr, ◌⊎◌, false, some, List, [], ◌∷◌,
  arith, ◌==◌, Bool-cases, ==_iff, length, All, MemIn, get_elem?-MemIn, is_empty, Text,
}
use reimbursement_system.Approval.{submitted, approved, paid, Role}
use reimbursement_system.Approval.Sequence.{IsSequential}
use reimbursement_system.Store.{Reimbursement, ApprovalStep, Db, Env, World}
use reimbursement_system.Reimbursements.Repository.{find_claim, update_claim, steps_of}
use reimbursement_system.Reimbursements.Workflow.Policy.{Config}
use reimbursement_system.Reimbursements.Workflow.Steps.{
  Decision, to_submitted, to_cancelled, to_paid, delete_steps,
}
use reimbursement_system.Reimbursements.Workflow.Actions.{
  decide, submit_action, cancel_action, pay_action,
}
use reimbursement_system.Reimbursements.Workflow.Decide.{mark, advance, Decided}
use reimbursement_system.Reimbursements.Workflow.Cancel.{Cancelled, Paid}
use reimbursement_system.Reimbursements.Workflow.Submit.{chain_steps, Submitted}
use reimbursement_system.Reimbursements.Workflow.Outcomes.{
  decide_outcome, cancel_outcome, pay_outcome, submit_outcome,
}
use reimbursement_system.Reimbursements.Workflow.Lifecycle.{find_claim-update, advance_keeps}
use reimbursement_system.Reimbursements.Workflow.StepRows.{
  Distinct, of_claim, steps_of-update, steps_of-update_other, update_step-Distinct,
  sort_by-Distinct,
}
use reimbursement_system.Reimbursements.Workflow.Snapshot.{
  filter-Distinct, chain-Distinct, steps_of-snapshot, steps_of-snapshot_other,
}
use reimbursement_system.Reimbursements.Workflow.Fits.{
  Fits, statuses, mark-KeepsKeys, pending_step_parts, decide-Fits,
}

pub record Invariant (db : Db) : Type 0 where
  pub keys : Distinct db.approvals
  pub fits : (j : ℕ) (r : Reimbursement) → find_claim j db ≡ some r → Fits (steps_of j db) r

pub steps_of-Distinct : (j : ℕ) (db : Db) → Distinct db.approvals → Distinct (steps_of j db)
steps_of-Distinct j db d = sort_by-Distinct _ (filter-Distinct (of_claim j) db.approvals d)

-- What a write must show: the written claim fits its new steps, the others keep theirs.
pub write-Invariant :
    (id : ℕ) (f : Reimbursement → Reimbursement) (db db' : Db) (claim : Reimbursement)
    → ((r : Reimbursement) → (f r).id ≡ r.id)
    → ((r : Reimbursement) → (f r).deleted_at ≡ r.deleted_at)
    → find_claim id db ≡ some claim
    → ((j : ℕ) → find_claim j db' ≡ find_claim j (update_claim id f db))
    → Distinct db'.approvals
    → Fits (steps_of id db') (f claim)
    → ((j : ℕ) → (j == id) ≡ false → steps_of j db' ≡ steps_of j db)
    → Invariant db
    → Invariant db'
write-Invariant id f db db' claim keeps_id keeps_deleted found same_claims keys own others inv =
    record { keys = keys; fits = go }
  where
    go : (j : ℕ) (r : Reimbursement) → find_claim j db' ≡ some r → Fits (steps_of j db') r
    go j r here = elim (Bool-cases (j == id)) [
      | inl same ↦
          let e : j ≡ id = (==_iff _ _).0 same in
          let written : find_claim j db' ≡ some (f claim) =
            same_claims j
            ∙ find_claim-update id j f db keeps_id keeps_deleted
            ∙ rw (same, e, found) in
          let k : f claim ≡ r = cc written in rw (← k, e) own
      | inr other ↦
          let old : find_claim j db ≡ some r =
            sym (same_claims j ∙ find_claim-update id j f db keeps_id keeps_deleted ∙ rw other)
            ∙ here in
          rw (others j other) (inv.fits j r old)
    ]

-- A final write changes the status alone, and no step.
close-Fits :
    (steps : List ApprovalStep) (r r' : Reimbursement)
    → (r'.status ≡ submitted → ⊥)
    → ((r'.status ≡ approved) ⊎ (r'.status ≡ paid) → (r.status ≡ approved) ⊎ (r.status ≡ paid))
    → r'.employee_id ≡ r.employee_id
    → Fits steps r
    → Fits steps r'
close-Fits steps r r' not_waiting was_settled owner fits = record {
  waiting = λ h. absurd (not_waiting h);
  settled = λ h. fits.settled (was_settled h);
  by_others = rw owner fits.by_others;
}

pub Decided-Invariant :
    (d : Decision) (e : Env) (id : ℕ) (role : Role) (user_id : ℕ) (note : Text) (db db' : Db)
    (claim : Reimbursement) (idx : ℕ) (st : ApprovalStep)
    → Decided d e id role user_id note db db' claim idx st
    → Invariant db
    → Invariant db'
Decided-Invariant d e id role user_id note db db' claim idx st done inv =
    let f = mark d user_id note e.now in
    let keeps = mark-KeepsKeys d user_id note e.now in
    let count = length (steps_of id db) in
    let (turn, at_idx) = pending_step_parts (steps_of id db) idx st done.turn in
    let row : MemIn st (steps_of id db) = get_elem?-MemIn (steps_of id db) idx st at_idx in
    rw done.written (
      write-Invariant id (advance d idx count e.now) db _ claim
        (λ r. (advance_keeps d idx count e.now r).0) (λ r. (advance_keeps d idx count e.now r).1)
        done.found (λ j. refl) (update_step-Distinct st.id f db.approvals keeps inv.keys)
        (rw (steps_of-update id st.id f db keeps) (
          decide-Fits d user_id note e.now idx st (steps_of id db) claim
            (steps_of-Distinct id db inv.keys) (inv.fits id claim done.found) done.waiting done.turn
            done.not_own))
        (λ j other. steps_of-update_other j id st f db keeps inv.keys row other) inv)

pub decide-Invariant :
    (d : Decision) (id : ℕ) (role : Role) (user_id : ℕ) (note : Text) (e : Env) (w : World)
    → Invariant w.db
    → Invariant (decide d id role user_id note e w).1.db
decide-Invariant d id role user_id note e w inv = elim (decide_outcome d id role user_id note e w) [
  | inl (failed, same) ↦ rw same inv
  | inr (claim, idx, st, done) ↦
      Decided-Invariant d e id role user_id note w.db _ claim idx st done inv
]

pub Cancelled-Invariant :
    (e : Env) (id user_id : ℕ) (db db' : Db) (claim : Reimbursement)
    → Cancelled e id user_id db db' claim
    → Invariant db
    → Invariant db'
Cancelled-Invariant e id user_id db db' claim done inv = rw done.written (
    write-Invariant id (to_cancelled e.now) db _ claim (λ r. refl) (λ r. refl) done.found
      (λ j. refl) inv.keys
      (close-Fits (steps_of id db) claim (to_cancelled e.now claim) (λ h. cc) (λ h. ground arith)
        refl (inv.fits id claim done.found))
      (λ j other. refl) inv)

pub cancel_action-Invariant :
    (id user_id : ℕ) (e : Env) (w : World)
    → Invariant w.db
    → Invariant (cancel_action id user_id e w).1.db
cancel_action-Invariant id user_id e w inv = elim (cancel_outcome id user_id e w) [
  | inl (failed, same) ↦ rw same inv
  | inr (claim, done) ↦ Cancelled-Invariant e id user_id w.db _ claim done inv
]

pub Paid-Invariant :
    (e : Env) (id user_id : ℕ) (db db' : Db) (claim : Reimbursement)
    → Paid e id user_id db db' claim
    → Invariant db
    → Invariant db'
Paid-Invariant e id user_id db db' claim done inv = rw done.written (
    write-Invariant id (to_paid e.now) db _ claim (λ r. refl) (λ r. refl) done.found (λ j. refl)
      inv.keys
      (close-Fits (steps_of id db) claim (to_paid e.now claim) (λ h. cc) (λ h. inl done.ready) refl
        (inv.fits id claim done.found))
      (λ j other. refl) inv)

pub pay_action-Invariant :
    (id : ℕ) (role : Role) (user_id : ℕ) (e : Env) (w : World)
    → Invariant w.db
    → Invariant (pay_action id role user_id e w).1.db
pay_action-Invariant id role user_id e w inv = elim (pay_outcome id role user_id e w) [
  | inl (failed, same) ↦ rw same inv
  | inr (allowed, claim, done) ↦ Paid-Invariant e id user_id w.db _ claim done inv
]

pub snapshot-pending :
    (e : Env) (t id n : ℕ) (chain : List Role)
    → IsSequential zero (statuses (chain_steps e t id n chain))
snapshot-pending e t id n [] = tt
snapshot-pending e t id n (r ∷ chain) = (refl, snapshot-pending e (t + 1) id (suc n) chain)

snapshot-by_others :
    (e : Env) (t id n owner : ℕ) (chain : List Role)
    → All (λ (st : ApprovalStep). st.approver_id ≢ some owner) (chain_steps e t id n chain)
snapshot-by_others e t id n owner [] = tt
snapshot-by_others e t id n owner (r ∷ chain) =
    (λ h. cc, snapshot-by_others e (t + 1) id (suc n) owner chain)

snapshot-Fits :
    (e : Env) (t id now : ℕ) (chain : List Role) (r : Reimbursement)
    → chain ≢ []
    → Fits (chain_steps e t id 1 chain) (to_submitted now r)
snapshot-Fits e t id now [] r someone = absurd (someone refl)
snapshot-Fits e t id now (role ∷ chain) r someone = record {
  waiting = λ h. (0, snapshot-pending e t id 1 (role ∷ chain), omega arith, refl);
  settled = λ h. ground arith;
  by_others = snapshot-by_others e t id 1 r.employee_id (role ∷ chain);
}

-- A committed submission of a chain that is not empty keeps the invariant.
pub Submitted-Invariant :
    (e : Env) (t id user_id : ℕ) (amount : Text) (chain : List Role) (db db' : Db)
    (claim : Reimbursement)
    → Submitted e t id user_id amount chain db db' claim
    → chain ≢ []
    → Invariant db
    → Invariant db'
Submitted-Invariant e t id user_id amount chain db db' claim done someone inv = rw done.written (
    write-Invariant id (to_submitted e.now) db _ claim (λ r. refl) (λ r. refl) done.found
      (λ j. refl)
      (chain-Distinct (delete_steps id db).approvals (chain_steps e t id 1 chain)
        (filter-Distinct _ db.approvals inv.keys) done.no_clash)
      (subst (λ steps. Fits steps (to_submitted e.now claim))
        (sym (steps_of-snapshot e t id chain db)) (snapshot-Fits e t id e.now chain claim someone))
      (λ j other. steps_of-snapshot_other e t j id chain db other) inv)

pub submit_action-Invariant :
    (cfg : Config) (id : ℕ) (role : Role) (user_id : ℕ) (e : Env) (w : World)
    → ((d : ℕ) → is_empty (e.date_text d) ≡ false)
    → Invariant w.db
    → Invariant (submit_action cfg id role user_id e w).1.db
submit_action-Invariant cfg id role user_id e w printed inv =
    elim (submit_outcome cfg id role user_id e w printed) [
      | inl (failed, same) ↦ rw same inv
      | inr (amount, chain, row, claim, t, checked, done) ↦
          Submitted-Invariant e t id user_id amount chain w.db _ claim done checked.someone inv
    ]

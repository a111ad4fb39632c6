-- ===== src/Reimbursements/Effects/Refine.antt =====
-- A submission and a cancellation of workflow.go as moves of the abstract claim.
use reimbursement_system.Base.{
  ℕ, zero, suc, ◌<◌, ◌≡◌, refl, ◌≢◌, inl, inr, false, List, [], ◌∷◌, arith, ◌==◌, ==_refl, length,
  filter, if◌then◌else◌, not, MemIn, Text,
}
use reimbursement_system.Approval.{submitted, is_pending, step_approved, Role}
use reimbursement_system.Approval.Sequence.{IsSequential}
use reimbursement_system.Store.{Reimbursement, ApprovalStep, cancel_claim, Db, Env}
use reimbursement_system.Reimbursements.Repository.{steps_of}
use reimbursement_system.Reimbursements.Workflow.Steps.{to_submitted, to_cancelled, count_acted}
use reimbursement_system.Reimbursements.Workflow.Cancel.{Cancelled, closed_db}
use reimbursement_system.Reimbursements.Workflow.Submit.{Submitted, submitted_db, chain_steps}
use reimbursement_system.Reimbursements.Workflow.StepRows.{steps_of-MemIn}
use reimbursement_system.Reimbursements.Workflow.Snapshot.{
  steps_of-snapshot, steps_of-snapshot_other,
}
use reimbursement_system.Reimbursements.Workflow.Fits.{statuses}
use reimbursement_system.Reimbursements.Workflow.Invariant.{Invariant, snapshot-pending}
use reimbursement_system.Reimbursements.Effects.Phases.{
  Move, enter, enter_again, withdraw, waiting, status_phase, waiting-phase, phase, write-Move,
}

-- A claim with an approval has an acted step.
acted-some :
    (id : ℕ) (st : ApprovalStep) (rows : List ApprovalStep)
    → MemIn st rows
    → st.reimbursement_id ≡ id
    → st.status ≡ step_approved
    → length (
        filter
          (λ (x : ApprovalStep).
            if x.reimbursement_id == id then not (is_pending x.status) else false)
          rows)
      ≢ 0
acted-some id st [] m own h = absurd m
acted-some id st (x ∷ rows) (inl here) own h = ground (arith, ==_refl id)
acted-some id st (x ∷ rows) (inr m) own h = ground (arith, acted-some id st rows m own h)

first_pending :
    (id k : ℕ) (db : Db)
    → count_acted id db ≡ 0
    → IsSequential k (statuses (steps_of id db))
    → k ≡ 0
first_pending id zero db h s = refl
first_pending id (suc k) db h s = go (steps_of id db) (steps_of-MemIn id db) s
  where
    go :
        (steps : List ApprovalStep)
        → ((st : ApprovalStep)
            → MemIn st steps
            → MemIn st db.approvals × (st.reimbursement_id ≡ id))
        → IsSequential (suc k) (statuses steps)
        → suc k ≡ 0
    go [] rows s = absurd s
    go (st ∷ steps) rows s =
        let (m, own) = rows st (inl refl) in absurd (acted-some id st db.approvals m own s.0 h)

pub submitted-Move :
    (e : Env) (t id user_id : ℕ) (amount : Text) (chain : List Role) (db db' : Db)
    (claim : Reimbursement)
    → Submitted e t id user_id amount chain db db' claim
    → chain ≢ []
    → (j : ℕ) → Move (phase j db) (phase j db')
submitted-Move e t id user_id amount chain db db' claim done someone = rw done.written (
    write-Move id (to_submitted e.now) db (submitted_db e t id user_id amount chain db) claim
      (λ r. refl) (λ r. refl) done.found (λ j. refl) (λ j. refl)
      (λ j other. steps_of-snapshot_other e t j id chain db other) own)
  where
    some_step : (chain : List Role) → chain ≢ [] → 0 < length (chain_steps e t id 1 chain)
    some_step [] h = absurd (h refl)
    some_step (r ∷ chain) h = omega arith

    entered :
        status_phase submitted (statuses (chain_steps e t id 1 chain))
        ≡ waiting 0 (length (chain_steps e t id 1 chain))
    entered =
        waiting-phase 0 (to_submitted e.now claim) (chain_steps e t id 1 chain) refl
          (snapshot-pending e t id 1 chain)

    own : Move (status_phase claim.status (statuses (steps_of id db))) (
        status_phase submitted
          (statuses (steps_of id (submitted_db e t id user_id amount chain db))))
    own =
        rw (steps_of-snapshot e t id chain db, entered)
          (elim done.editable [
            | inl h ↦ rw h (enter (some_step chain someone))
            | inr h ↦ rw h (enter_again (some_step chain someone))
          ])

pub cancelled-Move :
    (e : Env) (id user_id : ℕ) (db db' : Db) (claim : Reimbursement)
    → Cancelled e id user_id db db' claim
    → Invariant db
    → (j : ℕ) → Move (phase j db) (phase j db')
cancelled-Move e id user_id db db' claim done inv = rw done.written (
    write-Move id (to_cancelled e.now) db
      (closed_db cancel_claim to_cancelled e id user_id claim db) claim (λ r. refl) (λ r. refl)
      done.found (λ j. refl) (λ j. refl) (λ j other. refl) own)
  where
    own :
        Move
          (status_phase claim.status (statuses (steps_of id db)))
          (status_phase (to_cancelled e.now claim).status (statuses (steps_of id db)))
    own =
        let (k, sequential, below, current) = (inv.fits id claim done.found).waiting done.waiting in
        let none_yet = first_pending id k db done.untouched sequential in
        rw (waiting-phase k claim (steps_of id db) done.waiting sequential, none_yet)
          (withdraw (rw none_yet at below))

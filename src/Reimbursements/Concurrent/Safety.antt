-- ===== src/Reimbursements/Concurrent/Safety.antt =====
-- What holds of every run of interleaved requests to workflow.go and service.go.
use reimbursement_system.Base.{
  ℕ, ◌+◌, ◌<◌, ◌≡◌, ◌≢◌, refl, inl, inr, ◌⊎◌, some, List, [], Bool-cases, is_empty, length, All,
  Text,
}
use reimbursement_system.Approval.{approved, paid, step_approved, Role}
use reimbursement_system.Store.{Reimbursement, ApprovalStep, Env, World, new_uuid}
use reimbursement_system.Reimbursements.Repository.{find_claim, steps_of}
use reimbursement_system.Reimbursements.Workflow.Policy.{Config}
use reimbursement_system.Reimbursements.Workflow.Steps.{Decision, approve_step, reject_step}
use reimbursement_system.Reimbursements.Workflow.Actions.{
  decide, approve_action, reject_action, cancel_action, pay_action,
}
use reimbursement_system.Reimbursements.Workflow.Checks.{check_submit-someone}
use reimbursement_system.Reimbursements.Workflow.Reads.{check_submit-db}
use reimbursement_system.Reimbursements.Workflow.Outcomes.{
  commit_outcome, decide_outcome, cancel_outcome, pay_outcome,
}
use reimbursement_system.Reimbursements.Workflow.Fits.{settled-Fits}
use reimbursement_system.Reimbursements.Service.{CreateRequest}
use reimbursement_system.Reimbursements.Service.Writing.{check_request-db}
use reimbursement_system.Reimbursements.Service.Outcomes.{
  write_new-cases, rewrite-cases, read_editable-db,
}
use reimbursement_system.Reimbursements.Service.Removal.{read_deletable-db, soft_delete-cases}
use reimbursement_system.Reimbursements.Effects.{
  Change, nothing, submits, decides, cancels, pays, creates, edits, deletes,
}
use reimbursement_system.Reimbursements.Effects.Keeping.{Whole, Change-Whole}
use reimbursement_system.Reimbursements.Effects.Phases.{Move, phase}
use reimbursement_system.Reimbursements.Effects.Refinement.{change-Move}
use reimbursement_system.Reimbursements.Concurrent.{
  Thread, submitting, creating, editing, updating, deleting, Begins, begin_submit, begin_create,
  begin_update, begin_delete, go_on, System, Picks, first, later, Step, Reach, write_new,
}

-- A submission carries a chain of approvers that is not empty.
abbrev pub IsReady : Thread → Type 0
IsReady (submitting id user_id (amount, chain)) = chain ≢ []
IsReady (creating req user_id values) = Unit
IsReady (editing id req user_id) = Unit
IsReady (updating id req user_id values) = Unit
IsReady (deleting id) = Unit

pub decide-Change :
    (d : Decision) (id : ℕ) (role : Role) (user_id : ℕ) (note : Text) (e : Env) (w : World)
    → Change w.db (decide d id role user_id note e w).1.db
decide-Change d id role user_id note e w = elim (decide_outcome d id role user_id note e w) [
  | inl (failed, same) ↦ nothing same
  | inr (claim, idx, st, done) ↦ decides d e id role user_id note claim idx st done
]

pub reject_action-Change :
    (id : ℕ) (role : Role) (user_id : ℕ) (note : Text) (e : Env) (w : World)
    → Change w.db (reject_action id role user_id note e w).1.db
unfolding reject_action
reject_action-Change id role user_id note e w = elim (Bool-cases (is_empty note)) [
  | inl empty ↦ rw empty (nothing refl)
  | inr given ↦ rw given (decide-Change reject_step id role user_id note e w)
]

pub cancel_action-Change :
    (id user_id : ℕ) (e : Env) (w : World) → Change w.db (cancel_action id user_id e w).1.db
cancel_action-Change id user_id e w = elim (cancel_outcome id user_id e w) [
  | inl (failed, same) ↦ nothing same
  | inr (claim, done) ↦ cancels e id user_id claim done
]

pub pay_action-Change :
    (id : ℕ) (role : Role) (user_id : ℕ) (e : Env) (w : World)
    → Change w.db (pay_action id role user_id e w).1.db
pay_action-Change id role user_id e w = elim (pay_outcome id role user_id e w) [
  | inl (failed, same) ↦ nothing same
  | inr (allowed, claim, done) ↦ pays e id user_id claim done
]

write_new-Change :
    (req : CreateRequest) (user_id date cat : ℕ) (e : Env) (w : World)
    → Change w.db (write_new req user_id (date, cat) e w).1.db
write_new-Change req user_id date cat e w =
    let w1 = (new_uuid e w).1 in
    elim (write_new-cases (e.fresh_id w.tick) user_id cat date req e w1) [
      | inl (failed, same) ↦ nothing same
      | inr made ↦ creates e (w1.tick + 1 + 1) (e.fresh_id w.tick) user_id req date cat made
    ]

go_on-Change : (t : Thread) (e : Env) (w : World) → IsReady t → Change w.db (go_on t e w).db
go_on-Change (submitting id user_id (amount, chain)) e w someone =
    elim (commit_outcome id user_id amount chain e w) [
      | inl (failed, same) ↦ nothing same
      | inr (claim, done) ↦
          submits e (w.tick + 1 + 1 + 1) id user_id amount chain claim someone done
    ]
go_on-Change (creating req user_id (date, cat)) e w ready =
    write_new-Change req user_id date cat e w
go_on-Change (editing id req user_id) e w ready = nothing (check_request-db req e w)
go_on-Change (updating id req user_id (date, cat)) e w ready =
    elim (rewrite-cases id user_id cat date req e w) [
      | inl (failed, same) ↦ nothing same
      | inr (checked, written) ↦ edits e (w.tick + 1 + 1 + 1) id req date cat written
    ]
go_on-Change (deleting id) e w ready = elim (soft_delete-cases id e w) [
  | inl (failed, same) ↦ nothing same
  | inr written ↦ deletes e.now id written
]

Begins-db :
    (cfg : Config) (e : Env) (w w' : World) (t : Thread) → Begins cfg e w t w' → w'.db ≡ w.db
Begins-db cfg e w w' t (begin_submit role {id} {user_id} h) =
    rw h at (check_submit-db cfg id role user_id e w)
Begins-db cfg e w w' t (begin_create {req} h) = rw h at (check_request-db req e w)
Begins-db cfg e w w' t (begin_update role row {id} {req} {user_id} h) =
    rw h at (read_editable-db id role user_id e w)
Begins-db cfg e w w' t (begin_delete role user_id row {id} h) =
    rw h at (read_deletable-db id role user_id e w)

Begins-IsReady :
    (cfg : Config) (e : Env) (w w' : World) (t : Thread) → Begins cfg e w t w' → IsReady t
Begins-IsReady cfg e w w' t (begin_submit role {id} {user_id} {amount} {chain} h) =
    check_submit-someone cfg id role user_id e w w' amount chain h
Begins-IsReady cfg e w w' t (begin_create h) = tt
Begins-IsReady cfg e w w' t (begin_update role row h) = tt
Begins-IsReady cfg e w w' t (begin_delete role user_id row h) = tt

picks-All :
    {t : Thread} {ts rest : List Thread}
    → Picks t ts rest
    → All IsReady ts
    → IsReady t × All IsReady rest
picks-All first (here, others) = (here, others)
picks-All (later p) (here, others) = let (ready, rest) = picks-All p others in (ready, (here, rest))

-- Every step of the system changes the tables by one write, and leaves the threads ready.
pub Step-Change :
    (cfg : Config) (s s' : System)
    → Step cfg s s'
    → All IsReady s.threads
    → Change s.world.db s'.world.db × All IsReady s'.threads
unfolding approve_action
Step-Change cfg s s' (Step.begins {t} {w'} e b) ready =
    (nothing (Begins-db cfg e s.world w' t b), (Begins-IsReady cfg e s.world w' t b, ready))
Step-Change cfg s s' (Step.writes {t} e p) ready =
    let (here, rest) = picks-All p ready in (go_on-Change t e s.world here, rest)
Step-Change cfg s s' (Step.validates {req = req} e p h) ready =
    (nothing (rw h at (check_request-db req e s.world)), (tt, (picks-All p ready).1))
Step-Change cfg s s' (Step.approves id role user_id e) ready =
    (decide-Change approve_step id role user_id [] e s.world, ready)
Step-Change cfg s s' (Step.rejects id role user_id note e) ready =
    (reject_action-Change id role user_id note e s.world, ready)
Step-Change cfg s s' (Step.cancels id user_id e) ready =
    (cancel_action-Change id user_id e s.world, ready)
Step-Change cfg s s' (Step.pays id role user_id e) ready =
    (pay_action-Change id role user_id e s.world, ready)

-- The invariant of the system.
pub record Sound (s : System) : Type 0 where
  pub whole : Whole s.world.db
  pub ready : All IsReady s.threads

-- One step of interleaved requests keeps the invariant: one row for each step id, every claim
-- fits its approval steps, every step has its claim, and every waiting submission has an
-- approver.
pub Step-Sound : (cfg : Config) (s s' : System) → Step cfg s s' → Sound s → Sound s'
Step-Sound cfg s s' st sound =
    let (change, ready) = Step-Change cfg s s' st sound.ready in
    record { whole = Change-Whole s.world.db s'.world.db change sound.whole; ready = ready }

pub reach-Sound : (cfg : Config) (s s' : System) → Reach cfg s s' → Sound s → Sound s'
reach-Sound cfg s s' Reach.start sound = sound
reach-Sound cfg s s' (Reach.then {t} run st) sound =
    Step-Sound cfg t s' st (reach-Sound cfg s t run sound)

-- From a system that satisfies the invariant, each step of interleaved requests is, for every
-- claim, one move of the abstract claim or none.
pub step_refines :
    (cfg : Config) (s s' : System)
    → Step cfg s s'
    → Sound s
    → (j : ℕ) → Move (phase j s.world.db) (phase j s'.world.db)
step_refines cfg s s' st sound j =
    let (change, ready) = Step-Change cfg s s' st sound.ready in
    change-Move s.world.db s'.world.db change sound.whole j

-- From a system that satisfies the invariant, however the parts of requests interleave, a claim
-- that is found APPROVED or PAID has at least one approval step, every step approved, none by
-- the owner.
pub concurrent_fully_approved :
    (cfg : Config) (s s' : System) (j : ℕ) (r : Reimbursement)
    → Reach cfg s s'
    → Sound s
    → find_claim j s'.world.db ≡ some r
    → (r.status ≡ approved) ⊎ (r.status ≡ paid)
    → let steps = steps_of j s'.world.db in
      (0 < length steps)
      × All
          (λ (st : ApprovalStep).
            (st.status ≡ step_approved) × (st.approver_id ≢ some r.employee_id))
          steps
concurrent_fully_approved cfg s s' j r run sound here settled =
    settled-Fits (steps_of j s'.world.db) r
      ((reach-Sound cfg s s' run sound).whole.inv.fits j r here) settled

-- ===== src/Reimbursements/Workflow/Decide.antt =====
-- decide of workflow.go: when its transaction completes, and what it leaves behind.
use reimbursement_system.Base.{
  ℕ, suc, ◌+◌, ◌≡◌, ◌≢◌, refl, ap, ◌∙◌, inl, inr, true, false, some, arith, ◌==◌, if◌then◌else◌,
  Option-cases, length, Text,
}
use reimbursement_system.Approval.{submitted, approved, rejected, Role, role_eq}
use reimbursement_system.Store.{
  Reimbursement, ApprovalStep, Db, Env, World, in_progress, is_aborted, AuditAction, Metadata, ok,
  statement, Completes, begun,
}
use reimbursement_system.Reimbursements.Repository.{
  find_claim, lock_claim, update_claim, steps_of, approvals_for, update_step,
}
use reimbursement_system.Reimbursements.Workflow.Notify.{add_log, audit_write}
use reimbursement_system.Reimbursements.Workflow.Steps.{
  Decision, approve_step, reject_step, pending_step, mark_approved, mark_rejected, decide_status,
  move_step, record_decision, decision_log, decide_body,
}

-- What the decision makes of the step and of the claim.
abbrev pub mark : Decision → ℕ → Text → ℕ → ApprovalStep → ApprovalStep
mark approve_step user_id note now = mark_approved user_id now
mark reject_step user_id note now = mark_rejected user_id note now

abbrev pub advance : Decision → ℕ → ℕ → ℕ → Reimbursement → Reimbursement
advance approve_step idx count now =
    if suc idx == count then decide_status approved now else move_step (idx + 2) now
advance reject_step idx count now = decide_status rejected now

abbrev pub decided_db : Decision → Env → ℕ → Role → ℕ → Text → ℕ → ApprovalStep → Db → Db
decided_db d e id role user_id note idx st db =
    add_log
      (record {
        actor_id = user_id;
        action = (decision_log d idx role note).0;
        entity_id = id;
        metadata = (decision_log d idx role note).1;
      })
      (update_claim id (advance d idx (length (steps_of id db)) e.now)
        (update_step st.id (mark d user_id note e.now) db))

pub record Decided (d : Decision) (e : Env) (id : ℕ) (role : Role) (user_id : ℕ) (note : Text)
    (db db' : Db) (claim : Reimbursement) (idx : ℕ) (st : ApprovalStep) : Type 0 where
  pub found : find_claim id db ≡ some claim
  pub waiting : claim.status ≡ submitted
  pub turn : pending_step (steps_of id db) ≡ some (idx, st)
  pub holds_role : role_eq st.approver_role role ≡ true
  pub not_own : user_id ≢ claim.employee_id
  pub written : db' ≡ decided_db d e id role user_id note idx st db

record_decision-ok :
    (d : Decision) (id user_id count idx : ℕ) (st : ApprovalStep) (note : Text) (e : Env)
    (w : World)
    → w.tx ≡ in_progress
    → (record_decision d id user_id count idx st note e w).0 ≡ ok tt
    → ((record_decision d id user_id count idx st note e w).1.db
        ≡ update_claim id
            (advance d idx count e.now)
            (update_step st.id (mark d user_id note e.now) w.db))
      × ((record_decision d id user_id count idx st note e w).1.tx ≡ in_progress)
unfolding record_decision statement
record_decision-ok approve_step id user_id count idx st note e w open_tx h =
    (ground arith, ground arith)
record_decision-ok reject_step id user_id count idx st note e w open_tx h =
    (ground arith, ground arith)

audit_write-live :
    (actor_id entity_id : ℕ) (action : AuditAction) (meta : Metadata) (e : Env) (w : World)
    → w.tx ≡ in_progress
    → is_aborted (audit_write actor_id action entity_id meta e w).1.tx ≡ false
    → (audit_write actor_id action entity_id meta e w).1.db
      ≡ add_log
          (record { actor_id = actor_id; action = action; entity_id = entity_id; metadata = meta })
          w.db
unfolding audit_write statement
audit_write-live actor_id entity_id action meta e w open_tx h = ground arith

-- The guards of the transaction.
decide_body_guards :
    (d : Decision) (id : ℕ) (role : Role) (user_id : ℕ) (note : Text) (e : Env) (w w' : World)
    → Completes (decide_body d id role user_id note) e (begun w) tt w'
    → (claim : Reimbursement) × (idx : ℕ) × (st : ApprovalStep) × (find_claim id w.db ≡ some claim)
      × (claim.status ≡ submitted)
      × (pending_step (steps_of id w.db) ≡ some (idx, st))
      × (role_eq st.approver_role role ≡ true)
      × (user_id ≢ claim.employee_id)
unfolding decide_body lock_claim approvals_for statement
decide_body_guards d id role user_id note e w w' done = elim (Option-cases (find_claim id w.db)) [
  | inl missing ↦ absurd (ground arith)
  | inr (claim, found) ↦ elim (Option-cases (pending_step (steps_of id w.db))) [
    | inl none_left ↦ absurd (ground arith)
    | inr ((idx, st), turn) ↦
        (claim, idx, st, found, ground arith, turn, ground arith, ground arith)
  ]
]

-- What follows the guards; the writes are left to the lemmas above.
decide_body_rest :
    (d : Decision) (id : ℕ) (role : Role) (user_id : ℕ) (note : Text) (e : Env) (w w' : World)
    (claim : Reimbursement) (idx : ℕ) (st : ApprovalStep)
    → find_claim id w.db ≡ some claim
    → pending_step (steps_of id w.db) ≡ some (idx, st)
    → Completes (decide_body d id role user_id note) e (begun w) tt w'
    → let w1 = record (begun w) { tick = w.tick + 1 + 1 + 1 } in
      let run = record_decision d id user_id (length (steps_of id w.db)) idx st note e w1 in
      (run.0 ≡ ok tt)
      × (w'
          ≡ (audit_write user_id
              (decision_log d idx role note).0
              id
              (decision_log d idx role note).1
              e
              run.1).1)
unfolding decide_body lock_claim approvals_for statement
decide_body_rest d id role user_id note e w w' claim idx st found turn done =
    (ground arith, ground arith)

pub decide_body-Completes :
    (d : Decision) (id : ℕ) (role : Role) (user_id : ℕ) (note : Text) (e : Env) (w w' : World)
    → Completes (decide_body d id role user_id note) e (begun w) tt w'
    → (claim : Reimbursement) × (idx : ℕ) × (st : ApprovalStep) × Decided d e id role user_id note
        w.db w'.db claim idx st
decide_body-Completes d id role user_id note e w w' done =
    let (claim, idx, st, found, waiting, turn, holds, not_own) =
      decide_body_guards d id role user_id note e w w' done in
    let (ran, last) = decide_body_rest d id role user_id note e w w' claim idx st found turn done in
    let count = length (steps_of id w.db) in
    let w1 = record (begun w) { tick = w.tick + 1 + 1 + 1 } in
    let (wrote, open_tx) = record_decision-ok d id user_id count idx st note e w1 refl ran in
    let (action, meta) = decision_log d idx role note in
    let run = record_decision d id user_id count idx st note e w1 in
    let live = audit_write-live user_id id action meta e run.1 open_tx (rw last at done.live) in
    (
      claim,
      idx,
      st,
      record {
        found = found;
        waiting = waiting;
        turn = turn;
        holds_role = holds;
        not_own = not_own;
        written =
            ap (λ (x : World). x.db) last
            ∙ live
            ∙ ap
                (add_log
                  (record { actor_id = user_id; action = action; entity_id = id; metadata = meta }))
                wrote;
      },
    )

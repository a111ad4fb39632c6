-- ===== src/Reimbursements/Effects/Refinement.antt =====
-- The changes of the tables as moves of the abstract claim.
use reimbursement_system.Base.{
  ℕ, suc, ◌+◌, ◌≡◌, ◌≢◌, List, refl, sym, ap, ◌∙◌, inl, inr, false, none, some, arith, ◌==◌,
  Bool-cases, Option-cases, ==_iff, length, length-map, map, MemIn, get_elem?-MemIn, Text,
}
use reimbursement_system.Approval.{submitted, Role}
use reimbursement_system.Approval.Sequence.{next_pending_index-sequential}
use reimbursement_system.Store.{Reimbursement, ApprovalStep, pay_claim, Db, Env}
use reimbursement_system.Reimbursements.Repository.{find_claim, update_claim, steps_of}
use reimbursement_system.Reimbursements.Workflow.Steps.{
  Decision, approve_step, reject_step, to_paid, pending_step, move_step,
}
use reimbursement_system.Reimbursements.Workflow.Decide.{mark, advance, Decided, decided_db}
use reimbursement_system.Reimbursements.Workflow.Cancel.{Paid, closed_db}
use reimbursement_system.Reimbursements.Workflow.Lifecycle.{advance_keeps}
use reimbursement_system.Reimbursements.Workflow.StepRows.{
  Distinct, change, steps_of-update, steps_of-update_other,
}
use reimbursement_system.Reimbursements.Workflow.Fits.{
  Fits, statuses, mark-KeepsKeys, pending_step_parts, decide-Fits,
}
use reimbursement_system.Reimbursements.Workflow.Invariant.{Invariant, steps_of-Distinct}
use reimbursement_system.Reimbursements.Service.{CreateRequest}
use reimbursement_system.Reimbursements.Service.Removal.{mark_deleted}
use reimbursement_system.Reimbursements.Service.Amounts.{find_claim-mark_deleted}
use reimbursement_system.Reimbursements.Effects.{
  Change, nothing, submits, decides, cancels, pays, creates, edits, deletes, edited_db,
}
use reimbursement_system.Reimbursements.Effects.Origins.{
  find_row, find_claim-created, find_claim-edited, created_db, filed_claim,
}
use reimbursement_system.Reimbursements.Effects.Keeping.{Whole}
use reimbursement_system.Reimbursements.Effects.Phases.{
  Move, stay, file, approve_next, approve_last, turn_down, settle, remove, status_phase,
  waiting-phase, phase, write-Move, has_row, has_row-update, find_claim-has_row,
  claim_phase-present, created-has_row, edited-has_row,
}
use reimbursement_system.Reimbursements.Effects.Refine.{submitted-Move, cancelled-Move}

-- A decision on the waiting step moves the abstract claim by one approval, or turns it down.
decide-Move :
    (d : Decision) (user_id : ℕ) (note : Text) (now idx : ℕ) (st : ApprovalStep)
    (steps : List ApprovalStep) (r : Reimbursement)
    → Distinct steps
    → Fits steps r
    → r.status ≡ submitted
    → pending_step steps ≡ some (idx, st)
    → user_id ≢ r.employee_id
    → Move (status_phase r.status (statuses steps)) (
        status_phase
          (advance d idx (length steps) now r).status
          (statuses (map (change st.id (mark d user_id note now)) steps)))
decide-Move approve_step user_id note now idx st steps r d fits sub turn ne =
    let (k, sequential, below, current) = fits.waiting sub in
    let (found, at_idx) = pending_step_parts steps idx st turn in
    let same : idx ≡ k =
      ground (
        arith,
        next_pending_index-sequential k (statuses steps) sequential (rw length-map below),
      ) in
    let after = map (change st.id (mark approve_step user_id note now)) steps in
    let longer : length after ≡ length steps = length-map _ steps in
    elim (Bool-cases (suc idx == length steps)) [
      | inl last ↦
          rw (waiting-phase k r steps sub sequential, last)
            (approve_last (ap suc (sym same) ∙ (==_iff _ _).0 last))
      | inr more ↦
          let fits' = decide-Fits approve_step user_id note now idx st steps r d fits sub turn ne in
          let moved = move_step (idx + 2) now r in
          let next : Fits after moved = rw more at fits' in
          let (k', sequential', below', current') = next.waiting sub in
          let one_more : k' ≡ suc k = omega (arith, current', same) in
          rw (more, waiting-phase k r steps sub sequential)
            (rw (waiting-phase k' moved after sub sequential', one_more, longer)
              (approve_next (rw (one_more, longer) at below')))
    ]
decide-Move reject_step user_id note now idx st steps r d fits sub turn ne =
    let (k, sequential, below, current) = fits.waiting sub in
    rw (waiting-phase k r steps sub sequential) (turn_down below)

decided-Move :
    (d : Decision) (e : Env) (id : ℕ) (role : Role) (user_id : ℕ) (note : Text) (db db' : Db)
    (claim : Reimbursement) (idx : ℕ) (st : ApprovalStep)
    → Decided d e id role user_id note db db' claim idx st
    → Invariant db
    → (j : ℕ) → Move (phase j db) (phase j db')
decided-Move d e id role user_id note db db' claim idx st done inv =
    let f = mark d user_id note e.now in
    let keeps = mark-KeepsKeys d user_id note e.now in
    let count = length (steps_of id db) in
    let at_idx = (pending_step_parts (steps_of id db) idx st done.turn).1 in
    let row : MemIn st (steps_of id db) = get_elem?-MemIn (steps_of id db) idx st at_idx in
    rw done.written (
      write-Move id (advance d idx count e.now) db (decided_db d e id role user_id note idx st db)
        claim (λ r. (advance_keeps d idx count e.now r).0)
        (λ r. (advance_keeps d idx count e.now r).1) done.found (λ j. refl) (λ j. refl)
        (λ j other. steps_of-update_other j id st f db keeps inv.keys row other)
        (rw (steps_of-update id st.id f db keeps) (
          decide-Move d user_id note e.now idx st (steps_of id db) claim
            (steps_of-Distinct id db inv.keys) (inv.fits id claim done.found) done.waiting done.turn
            done.not_own)))

paid-Move :
    (e : Env) (id user_id : ℕ) (db db' : Db) (claim : Reimbursement)
    → Paid e id user_id db db' claim
    → (j : ℕ) → Move (phase j db) (phase j db')
paid-Move e id user_id db db' claim done = rw done.written (
    write-Move id (to_paid e.now) db (closed_db pay_claim to_paid e id user_id claim db) claim
      (λ r. refl) (λ r. refl) done.found (λ j. refl) (λ j. refl) (λ j other. refl)
      (rw done.ready settle))

created-Move :
    (e : Env) (t id user_id : ℕ) (req : CreateRequest) (date cat : ℕ) (db : Db)
    → find_row id db ≡ none
    → (j : ℕ) → Move (phase j db) (phase j (created_db e t id user_id req date cat db))
unfolding phase
created-Move e t id user_id req date cat db fresh j =
    let (total, moved) = find_claim-created e t id user_id req date cat db j fresh in
    elim (Bool-cases (j == id)) [
      | inl same ↦
          let k : j ≡ id = (==_iff _ _).0 same in
          let none_yet : has_row j db ≡ false = rw (k, fresh) refl in
          let after = created_db e t id user_id req date cat db in
          let here : find_claim j after ≡ some (filed_claim e total id user_id req date cat) =
            moved ∙ rw same in
          let there =
            find_claim-has_row j (filed_claim e total id user_id req date cat) after here in
          rw (none_yet, there) (rw here file)
      | inr other ↦
          let here : find_claim j (created_db e t id user_id req date cat db) ≡ find_claim j db =
            moved ∙ rw other in
          rw here (rw (created-has_row e t id user_id req date cat db j other) stay)
    ]

edited-Move :
    (e : Env) (t id : ℕ) (req : CreateRequest) (date cat : ℕ) (db : Db) (j : ℕ)
    → Move (phase j db) (phase j (edited_db e t id req date cat db))
unfolding phase
edited-Move e t id req date cat db j =
    let (total, moved) = find_claim-edited e t id req date cat db j in
    rw (edited-has_row e t id req date cat db j) (elim (Bool-cases (j == id)) [
      | inr other ↦ rw moved (rw other stay)
      | inl same ↦ rw moved (
          rw same (elim (Option-cases (find_claim j db)) [
            | inl missing ↦ rw missing stay
            | inr (r, found) ↦ rw found stay
          ]))
    ])

deleted-Move :
    (now id : ℕ) (db : Db) (j : ℕ)
    → Move (phase j db) (phase j (update_claim id (mark_deleted now) db))
unfolding phase
deleted-Move now id db j =
    rw (has_row-update id j (mark_deleted now) db (λ r. refl), find_claim-mark_deleted id j now db)
      (elim (Bool-cases (has_row j db)) [
        | inr missing ↦ rw missing stay
        | inl there ↦ rw there (elim (Bool-cases (j == id)) [
          | inr other ↦ rw other stay
          | inl same ↦ rw same (remove (claim_phase-present (find_claim j db) (steps_of j db)))
        ])
      ])

-- From tables that satisfy the invariant, every write is, for each claim, one move of the
-- abstract claim, or leaves it where it is.
pub change-Move :
    (db db' : Db) → Change db db' → Whole db → (j : ℕ) → Move (phase j db) (phase j db')
change-Move db db' (nothing same) whole j = rw same stay
change-Move db db' (submits e t id user_id amount chain claim someone done) whole j =
    submitted-Move e t id user_id amount chain db db' claim done someone j
change-Move db db' (decides d e id role user_id note claim idx st done) whole j =
    decided-Move d e id role user_id note db db' claim idx st done whole.inv j
change-Move db db' (cancels e id user_id claim done) whole j =
    cancelled-Move e id user_id db db' claim done whole.inv j
change-Move db db' (pays e id user_id claim done) whole j =
    paid-Move e id user_id db db' claim done j
change-Move db db' (creates e t id user_id req date cat made) whole j =
    rw made.written (created-Move e t id user_id req date cat db made.fresh j)
change-Move db db' (edits e t id req date cat written) whole j =
    rw written (edited-Move e t id req date cat db j)
change-Move db db' (deletes now id written) whole j = rw written (deleted-Move now id db j)

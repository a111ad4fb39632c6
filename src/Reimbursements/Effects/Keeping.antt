-- ===== src/Reimbursements/Effects/Keeping.antt =====
-- The invariant and the link from steps to claims under the changes of the tables.
use reimbursement_system.Base.{
  ℕ, ◌≡◌, refl, ◌∙◌, inl, inr, false, none, ◌==◌, Bool-cases, ==_iff, length,
}
use reimbursement_system.Store.{cancel_claim, pay_claim, Db}
use reimbursement_system.Reimbursements.Repository.{update_claim, steps_of}
use reimbursement_system.Reimbursements.Workflow.Steps.{to_submitted, to_cancelled, to_paid}
use reimbursement_system.Reimbursements.Workflow.Decide.{mark, advance, decided_db}
use reimbursement_system.Reimbursements.Workflow.Cancel.{closed_db}
use reimbursement_system.Reimbursements.Workflow.Submit.{submitted_db}
use reimbursement_system.Reimbursements.Workflow.Lifecycle.{advance_keeps}
use reimbursement_system.Reimbursements.Workflow.StepRows.{steps_of-update_other}
use reimbursement_system.Reimbursements.Workflow.Snapshot.{steps_of-snapshot_other}
use reimbursement_system.Reimbursements.Workflow.Fits.{mark-KeepsKeys, pending_step_parts}
use reimbursement_system.Reimbursements.Workflow.Invariant.{
  Invariant, Submitted-Invariant, Decided-Invariant, Cancelled-Invariant, Paid-Invariant,
}
use reimbursement_system.Reimbursements.Service.Removal.{mark_deleted}
use reimbursement_system.Reimbursements.Effects.{
  Change, nothing, submits, decides, cancels, pays, creates, edits, deletes, edited_db,
}
use reimbursement_system.Reimbursements.Effects.Origins.{
  Linked, find_row, find_row-update, created-rows, edited-rows, find_claim-row, rows-Linked,
  origins-Invariant, edited-Origins, deleted-Origins, created-Origins, created_db,
}
use reimbursement_system.Base.{get_elem?-MemIn}

pub record Whole (db : Db) : Type 0 where
  pub inv : Invariant db
  pub linked : Linked db

-- A write whose claim has a row and that leaves the steps of other claims keeps the link.
write-Linked :
    (id : ℕ) (db db' : Db)
    → (find_row id db ≡ none → ⊥)
    → ((j : ℕ) → find_row j db' ≡ none → find_row j db ≡ none)
    → ((j : ℕ) → (j == id) ≡ false → steps_of j db' ≡ steps_of j db)
    → Linked db
    → Linked db'
write-Linked id db db' has_row rows others linked j h = elim (Bool-cases (j == id)) [
  | inl same ↦ let k : j ≡ id = (==_iff _ _).0 same in absurd (has_row (rows id (rw k at h)))
  | inr other ↦ others j other ∙ linked j (rows j h)
]

-- Whatever is written, the invariant holds afterwards: one row for each step id, every claim fits
-- its approval steps, and every step has its claim.
pub Change-Whole : (db db' : Db) → Change db db' → Whole db → Whole db'
Change-Whole db db' (nothing same) whole = rw same whole
Change-Whole db db' (submits e t id user_id amount chain claim someone done) whole = record {
  inv = Submitted-Invariant e t id user_id amount chain db db' claim done someone whole.inv;
  linked = rw done.written (
      write-Linked id db (submitted_db e t id user_id amount chain db)
        (find_claim-row id claim db done.found)
        (λ j. find_row-update id j (to_submitted e.now) db (λ r. refl))
        (λ j other. steps_of-snapshot_other e t j id chain db other) whole.linked);
}
Change-Whole db db' (decides d e id role user_id note claim idx st done) whole = record {
  inv = Decided-Invariant d e id role user_id note db db' claim idx st done whole.inv;
  linked = rw done.written (
      write-Linked id db (decided_db d e id role user_id note idx st db)
        (find_claim-row id claim db done.found)
        (λ j.
          find_row-update id j (advance d idx (length (steps_of id db)) e.now) db
            (λ r. (advance_keeps d idx (length (steps_of id db)) e.now r).0))
        (λ j other.
          let keeps = mark-KeepsKeys d user_id note e.now in
          let at_idx = (pending_step_parts (steps_of id db) idx st done.turn).1 in
          steps_of-update_other j id st (mark d user_id note e.now) db keeps whole.inv.keys
            (get_elem?-MemIn (steps_of id db) idx st at_idx) other)
        whole.linked);
}
Change-Whole db db' (cancels e id user_id claim done) whole = record {
  inv = Cancelled-Invariant e id user_id db db' claim done whole.inv;
  linked = rw done.written (
      rows-Linked db (closed_db cancel_claim to_cancelled e id user_id claim db) refl
        (λ j. find_row-update id j (to_cancelled e.now) db (λ r. refl)) whole.linked);
}
Change-Whole db db' (pays e id user_id claim done) whole = record {
  inv = Paid-Invariant e id user_id db db' claim done whole.inv;
  linked = rw done.written (
      rows-Linked db (closed_db pay_claim to_paid e id user_id claim db) refl
        (λ j. find_row-update id j (to_paid e.now) db (λ r. refl)) whole.linked);
}
Change-Whole db db' (creates e t id user_id req date cat made) whole = rw made.written (record {
  inv =
      origins-Invariant db (created_db e t id user_id req date cat db) refl
        (created-Origins e t id user_id req date cat db made.fresh whole.linked) whole.inv;
  linked =
      rows-Linked db (created_db e t id user_id req date cat db) refl
        (created-rows e t id user_id req date cat db) whole.linked;
})
Change-Whole db db' (edits e t id req date cat written) whole = rw written (record {
  inv =
      origins-Invariant db (edited_db e t id req date cat db) refl
        (edited-Origins e t id req date cat db) whole.inv;
  linked =
      rows-Linked db (edited_db e t id req date cat db) refl (edited-rows e t id req date cat db)
        whole.linked;
})
Change-Whole db db' (deletes now id written) whole = rw written (record {
  inv =
      origins-Invariant db (update_claim id (mark_deleted now) db) refl (deleted-Origins now id db)
        whole.inv;
  linked =
      rows-Linked db (update_claim id (mark_deleted now) db) refl
        (λ j. find_row-update id j (mark_deleted now) db (λ r. refl)) whole.linked;
})

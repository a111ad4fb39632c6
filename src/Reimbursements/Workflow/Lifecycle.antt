-- ===== src/Reimbursements/Workflow/Lifecycle.antt =====
-- The lifecycle of a claim under the actions of workflow.go, after the diagram of
-- docs/02-business-requirements.md.
use mathlib.Core.Option
use reimbursement_system.Base.{
  ℕ, suc, ◌≡◌, refl, ◌∙◌, inl, inr, false, some, List, [], ◌∷◌, arith, ◌==◌, if◌then◌else◌,
  Bool-cases, is_empty, is_some, not, ◌&&◌, map, find?, length, Text,
}
use reimbursement_system.Approval.{
  Status, draft, submitted, approved, rejected, paid, cancelled, Role,
}
use reimbursement_system.Store.{Reimbursement, Db, Env, World}
use reimbursement_system.Reimbursements.Repository.{find_claim, update_claim, steps_of}
use reimbursement_system.Reimbursements.Workflow.Policy.{Config}
use reimbursement_system.Reimbursements.Workflow.Steps.{
  Decision, approve_step, reject_step, to_submitted, to_cancelled, to_paid,
}
use reimbursement_system.Reimbursements.Workflow.Actions.{
  decide, submit_action, cancel_action, pay_action,
}
use reimbursement_system.Reimbursements.Workflow.Decide.{advance}
use reimbursement_system.Reimbursements.Workflow.Outcomes.{
  decide_outcome, cancel_outcome, pay_outcome, submit_outcome,
}

-- The edges of the diagram, and staying in place.
pub data LegalMove : Status → Status → Type 0 where
  stay : {s : Status} → LegalMove s s
  first_submit : LegalMove draft submitted
  resubmit : LegalMove rejected submitted
  complete : LegalMove submitted approved
  turn_down : LegalMove submitted rejected
  withdraw : LegalMove submitted cancelled
  settle_claim : LegalMove approved paid

-- What one request does to a claim that is not deleted: it is still there, with the same owner
-- and amount, and its status has made at most one legal move.
pub record Moved (r r' : Reimbursement) : Type 0 where
  pub move : LegalMove r.status r'.status
  pub same_owner : r'.employee_id ≡ r.employee_id
  pub same_amount : r'.amount ≡ r.amount

abbrev pub Evolves : Db → Db → Type 0
Evolves db db' =
    (j : ℕ) (r : Reimbursement)
    → find_claim j db ≡ some r
    → (r' : Reimbursement) × (find_claim j db' ≡ some r') × Moved r r'

-- Changing one row by its id changes what is found under that id, and nothing else.
pub find_claim-update :
    (id j : ℕ) (f : Reimbursement → Reimbursement) (db : Db)
    → ((r : Reimbursement) → (f r).id ≡ r.id)
    → ((r : Reimbursement) → (f r).deleted_at ≡ r.deleted_at)
    → find_claim j (update_claim id f db)
      ≡ (if j == id then Option.map f (find_claim j db) else find_claim j db)
find_claim-update id j f db keeps_id keeps_deleted = go db.reimbursements
  where
    go :
        (rs : List Reimbursement)
        → find?
            (λ (r : Reimbursement). r.id == j && not (is_some r.deleted_at))
            (map (λ (r : Reimbursement). if r.id == id then f r else r) rs)
          ≡ (if j == id
              then Option.map f
                  (find? (λ (r : Reimbursement). r.id == j && not (is_some r.deleted_at)) rs)
              else find? (λ (r : Reimbursement). r.id == j && not (is_some r.deleted_at)) rs)
    go [] = ground arith
    go (r ∷ rs) = ground (arith, keeps_id r, keeps_deleted r, go rs)

update-Evolves :
    (id : ℕ) (f : Reimbursement → Reimbursement) (db : Db) (claim : Reimbursement)
    → ((r : Reimbursement) → (f r).id ≡ r.id)
    → ((r : Reimbursement) → (f r).deleted_at ≡ r.deleted_at)
    → find_claim id db ≡ some claim
    → Moved claim (f claim)
    → Evolves db (update_claim id f db)
update-Evolves id f db claim keeps_id keeps_deleted found moved j r here =
    elim (Bool-cases (j == id)) [
      | inl same ↦
          let e : r ≡ claim = ground (arith, find_claim j) in
          (f r, find_claim-update id j f db keeps_id keeps_deleted ∙ rw (same, here), rw e moved)
      | inr other ↦
          (r, find_claim-update id j f db keeps_id keeps_deleted ∙ rw (other, here), unmoved r)
    ]
  where
    unmoved : (r : Reimbursement) → Moved r r
    unmoved r = record { move = stay; same_owner = refl; same_amount = refl }

same-Evolves : (db db' : Db) → db' ≡ db → Evolves db db'
same-Evolves db db' same j r here =
    (r, rw same here, record { move = stay; same_owner = refl; same_amount = refl })

pub submit_action-Evolves :
    (cfg : Config) (id : ℕ) (role : Role) (user_id : ℕ) (e : Env) (w : World)
    → ((d : ℕ) → is_empty (e.date_text d) ≡ false)
    → Evolves w.db (submit_action cfg id role user_id e w).1.db
submit_action-Evolves cfg id role user_id e w printed =
    elim (submit_outcome cfg id role user_id e w printed) [
      | inl (failed, same) ↦ same-Evolves _ _ same
      | inr (amount, chain, row, claim, t, checked, done) ↦ rw done.written (
          update-Evolves id (to_submitted e.now) w.db claim (λ r. refl) (λ r. refl) done.found
            (record {
              move = elim done.editable [ inl h ↦ rw h first_submit | inr h ↦ rw h resubmit ];
              same_owner = refl;
              same_amount = refl;
            }))
    ]

pub advance_keeps :
    (d : Decision) (idx count now : ℕ) (r : Reimbursement)
    → ((advance d idx count now r).id ≡ r.id)
      × ((advance d idx count now r).deleted_at ≡ r.deleted_at)
advance_keeps approve_step idx count now r = (ground arith, ground arith)
advance_keeps reject_step idx count now r = (refl, refl)

advance-Moved :
    (d : Decision) (idx count now : ℕ) (r : Reimbursement)
    → r.status ≡ submitted
    → Moved r (advance d idx count now r)
advance-Moved approve_step idx count now r h = elim (Bool-cases (suc idx == count)) [
  | inl last ↦ rw last (record { move = rw h complete; same_owner = refl; same_amount = refl })
  | inr more ↦ rw more (record { move = stay; same_owner = refl; same_amount = refl })
]
advance-Moved reject_step idx count now r h = record {
  move = rw h turn_down;
  same_owner = refl;
  same_amount = refl;
}

pub decide-Evolves :
    (d : Decision) (id : ℕ) (role : Role) (user_id : ℕ) (note : Text) (e : Env) (w : World)
    → Evolves w.db (decide d id role user_id note e w).1.db
decide-Evolves d id role user_id note e w = elim (decide_outcome d id role user_id note e w) [
  | inl (failed, same) ↦ same-Evolves _ _ same
  | inr (claim, idx, st, done) ↦ rw done.written (
      update-Evolves id (advance d idx (length (steps_of id w.db)) e.now) w.db claim
        (λ r. (advance_keeps d idx (length (steps_of id w.db)) e.now r).0)
        (λ r. (advance_keeps d idx (length (steps_of id w.db)) e.now r).1) done.found
        (advance-Moved d idx (length (steps_of id w.db)) e.now claim done.waiting))
]

pub cancel_action-Evolves :
    (id user_id : ℕ) (e : Env) (w : World) → Evolves w.db (cancel_action id user_id e w).1.db
cancel_action-Evolves id user_id e w = elim (cancel_outcome id user_id e w) [
  | inl (failed, same) ↦ same-Evolves _ _ same
  | inr (claim, done) ↦ rw done.written (
      update-Evolves id (to_cancelled e.now) w.db claim (λ r. refl) (λ r. refl) done.found
        (record { move = rw done.waiting withdraw; same_owner = refl; same_amount = refl }))
]

pub pay_action-Evolves :
    (id : ℕ) (role : Role) (user_id : ℕ) (e : Env) (w : World)
    → Evolves w.db (pay_action id role user_id e w).1.db
pay_action-Evolves id role user_id e w = elim (pay_outcome id role user_id e w) [
  | inl (failed, same) ↦ same-Evolves _ _ same
  | inr (allowed, claim, done) ↦ rw done.written (
      update-Evolves id (to_paid e.now) w.db claim (λ r. refl) (λ r. refl) done.found
        (record { move = rw done.ready settle_claim; same_owner = refl; same_amount = refl }))
]

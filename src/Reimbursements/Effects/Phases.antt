-- ===== src/Reimbursements/Effects/Phases.antt =====
-- An abstract claim: the phase that it is in, with the number of approvals it has and needs.
use reimbursement_system.Base.{
  ℕ, zero, suc, ◌<◌, ◌≡◌, refl, ap, ◌∙◌, inl, inr, false, Option, none, some, List, [], ◌∷◌, ◌++◌,
  arith, ◌==◌, if◌then◌else◌, Bool-cases, Option-cases, ==_iff, length, map, find?, is_some, true,
  Bool, ◌≢◌, length-map,
}
use reimbursement_system.Approval.{
  Status, draft, submitted, approved, rejected, paid, cancelled, StepStatus, pending, step_approved,
  step_rejected,
}
use reimbursement_system.Approval.Sequence.{IsSequential}
use reimbursement_system.Store.{Reimbursement, ApprovalStep, Db, Env}
use reimbursement_system.Reimbursements.Repository.{find_claim, update_claim, steps_of}
use reimbursement_system.Reimbursements.Workflow.Lifecycle.{find_claim-update}
use reimbursement_system.Reimbursements.Workflow.Fits.{statuses}
use reimbursement_system.Reimbursements.Effects.Origins.{find_row, find_claim-row, created_db}
use reimbursement_system.Reimbursements.Effects.{edited_db}
use reimbursement_system.Reimbursements.Service.{CreateRequest}
use reimbursement_system.Reimbursements.Service.Writing.{new_items, with_items, set_amount}
use reimbursement_system.Reimbursements.Service.Outcomes.{cleared}
use reimbursement_system.Reimbursements.Repository.Writes.{claim_total, new_claim, edit_claim}

pub data Phase : Type 0 where
  absent in_draft accepted turned_down withdrawn settled removed : Phase
  waiting : ℕ → ℕ → Phase

-- What one change may do to an abstract claim. `waiting k n` has k of its n approvals.
pub data Move : Phase → Phase → Type 0 where
  stay : {p : Phase} → Move p p
  file : Move absent in_draft
  enter : {n : ℕ} → 0 < n → Move in_draft (waiting 0 n)
  enter_again : {n : ℕ} → 0 < n → Move turned_down (waiting 0 n)
  approve_next : {k n : ℕ} → suc k < n → Move (waiting k n) (waiting (suc k) n)
  approve_last : {k n : ℕ} → suc k ≡ n → Move (waiting k n) accepted
  turn_down : {k n : ℕ} → k < n → Move (waiting k n) turned_down
  withdraw : {n : ℕ} → 0 < n → Move (waiting 0 n) withdrawn
  settle : Move accepted settled
  remove : {p : Phase} → p ≢ absent → Move p removed

abbrev pub count_approved : List StepStatus → ℕ
count_approved [] = 0
count_approved (step_approved ∷ ss) = suc (count_approved ss)
count_approved (pending ∷ ss) = count_approved ss
count_approved (step_rejected ∷ ss) = count_approved ss

abbrev pub status_phase : Status → List StepStatus → Phase
status_phase draft ss = in_draft
status_phase submitted ss = waiting (count_approved ss) (length ss)
status_phase approved ss = accepted
status_phase rejected ss = turned_down
status_phase paid ss = settled
status_phase cancelled ss = withdrawn

abbrev pub claim_phase : Option Reimbursement → List ApprovalStep → Phase
claim_phase none steps = removed
claim_phase (some r) steps = status_phase r.status (statuses steps)

-- The claim has a row, deleted or not.
abbrev pub has_row : ℕ → Db → Bool
has_row j db = is_some (find_row j db)

-- The abstract claim that the tables hold under an id.
unfoldable pub phase : ℕ → Db → Phase
phase j db = if has_row j db then claim_phase (find_claim j db) (steps_of j db) else absent

pub count_approved-sequential :
    (k : ℕ) (ss : List StepStatus) → IsSequential k ss → count_approved ss ≡ k
count_approved-sequential zero [] s = refl
count_approved-sequential zero (x ∷ ss) s = rw s.0 (count_approved-sequential zero ss s.1)
count_approved-sequential (suc k) [] s = absurd s
count_approved-sequential (suc k) (x ∷ ss) s = rw s.0 (ap suc (count_approved-sequential k ss s.1))

-- The phase of a waiting claim that has k of n approvals.
pub waiting-phase :
    (k : ℕ) (r : Reimbursement) (steps : List ApprovalStep)
    → r.status ≡ submitted
    → IsSequential k (statuses steps)
    → status_phase r.status (statuses steps) ≡ waiting k (length steps)
waiting-phase k r steps h s =
    rw
      (
        h,
        count_approved-sequential k (statuses steps) s,
        length-map (λ (st : ApprovalStep). st.status) steps,
      )
      refl

pub same-Move :
    (j : ℕ) (db db' : Db)
    → find_claim j db' ≡ find_claim j db
    → steps_of j db' ≡ steps_of j db
    → has_row j db' ≡ has_row j db
    → Move (phase j db) (phase j db')
unfolding phase
same-Move j db db' claims steps rows = rw (claims, steps, rows) stay

pub has_row-update :
    (id j : ℕ) (f : Reimbursement → Reimbursement) (db : Db)
    → ((r : Reimbursement) → (f r).id ≡ r.id)
    → has_row j (update_claim id f db) ≡ has_row j db
has_row-update id j f db keeps = go db.reimbursements
  where
    go :
        (rs : List Reimbursement)
        → is_some (
            find?
              (λ (r : Reimbursement). r.id == j)
              (map (λ (r : Reimbursement). if r.id == id then f r else r) rs))
          ≡ is_some (find? (λ (r : Reimbursement). r.id == j) rs)
    go [] = refl
    go (r ∷ rs) = ground (arith, keeps r, go rs)

pub find_claim-has_row :
    (j : ℕ) (r : Reimbursement) (db : Db) → find_claim j db ≡ some r → has_row j db ≡ true
find_claim-has_row j r db h = elim (Option-cases (find_row j db)) [
  | inl missing ↦ absurd (find_claim-row j r db h missing)
  | inr (row, found) ↦ rw found refl
]

-- A write to one claim moves that claim alone.
pub write-Move :
    (id : ℕ) (f : Reimbursement → Reimbursement) (db db' : Db) (claim : Reimbursement)
    → ((r : Reimbursement) → (f r).id ≡ r.id)
    → ((r : Reimbursement) → (f r).deleted_at ≡ r.deleted_at)
    → find_claim id db ≡ some claim
    → ((j : ℕ) → find_claim j db' ≡ find_claim j (update_claim id f db))
    → ((j : ℕ) → has_row j db' ≡ has_row j (update_claim id f db))
    → ((j : ℕ) → (j == id) ≡ false → steps_of j db' ≡ steps_of j db)
    → Move
        (status_phase claim.status (statuses (steps_of id db)))
        (status_phase (f claim).status (statuses (steps_of id db')))
    → (j : ℕ) → Move (phase j db) (phase j db')
unfolding phase
write-Move id f db db' claim keeps_id keeps_deleted found same_claims same_rows others own j =
    let rows = same_rows j ∙ has_row-update id j f db keeps_id in
    let moved = same_claims j ∙ find_claim-update id j f db keeps_id keeps_deleted in
    elim (Bool-cases (j == id)) [
      | inl same ↦
          let k : j ≡ id = (==_iff _ _).0 same in
          let here : find_claim j db' ≡ some (f claim) = moved ∙ rw (same, k, found) in
          let written : find_claim id db' ≡ some (f claim) = rw k at here in
          let row = find_claim-has_row id claim db found in
          let there : has_row j db' ≡ true = rows ∙ rw (k, row) in
          let rows' : has_row id db' ≡ true = rw k at there in
          rw (k, rows', row) (rw (written, found) own)
      | inr other ↦
          let here : find_claim j db' ≡ find_claim j db = moved ∙ rw other in
          same-Move j db db' here (others j other) rows
    ]

pub claim_phase-present :
    (o : Option Reimbursement) (steps : List ApprovalStep) → claim_phase o steps ≢ absent
claim_phase-present none steps h = ground arith
claim_phase-present (some r) steps h = go r.status (statuses steps) h
  where
    go : (s : Status) (ss : List StepStatus) → status_phase s ss ≢ absent
    go s ss h = ground arith

pub created-has_row :
    (e : Env) (t id user_id : ℕ) (req : CreateRequest) (date cat : ℕ) (db : Db) (j : ℕ)
    → (j == id) ≡ false
    → has_row j (created_db e t id user_id req date cat db) ≡ has_row j db
created-has_row e t id user_id req date cat db j other =
    let claim = new_claim e id user_id cat req.title req.description date in
    let db1 = record db { reimbursements = db.reimbursements ++ claim ∷ [] } in
    let db2 = with_items db1 (new_items e t id req.items) in
    has_row-update id j (set_amount e.now (claim_total id db2)) db2 (λ r. refl)
    ∙ go claim db.reimbursements (ground arith)
  where
    go :
        (r : Reimbursement) (rs : List Reimbursement)
        → (r.id == j) ≡ false
        → is_some (find? (λ (x : Reimbursement). x.id == j) (rs ++ r ∷ []))
          ≡ is_some (find? (λ (x : Reimbursement). x.id == j) rs)
    go r [] h = ground arith
    go r (x ∷ rs) h = ground (arith, go r rs h)

pub edited-has_row :
    (e : Env) (t id : ℕ) (req : CreateRequest) (date cat : ℕ) (db : Db) (j : ℕ)
    → has_row j (edited_db e t id req date cat db) ≡ has_row j db
edited-has_row e t id req date cat db j =
    let db2 = with_items (cleared e id req date cat db) (new_items e t id req.items) in
    has_row-update id j (set_amount e.now (claim_total id db2)) db2 (λ r. refl)
    ∙ has_row-update id j (edit_claim e cat req.title req.description date) db (λ r. refl)

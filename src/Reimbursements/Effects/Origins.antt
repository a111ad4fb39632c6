-- ===== src/Reimbursements/Effects/Origins.antt =====
-- Where a claim comes from when service.go writes: it was there before, or it is a new draft.
use mathlib.Core.Option
use reimbursement_system.Base.{
  ℕ, ◌≡◌, refl, sym, ap, ◌∙◌, inl, inr, Option, none, some, List, [], ◌∷◌, ◌++◌, arith, ◌==◌,
  if◌then◌else◌, Bool-cases, Option-cases, ==_iff, ==_refl, not, ◌&&◌, is_some, map, find?, true,
}
use reimbursement_system.Approval.{draft}
use reimbursement_system.Store.{Reimbursement, Db, Env}
use reimbursement_system.Reimbursements.Repository.{find_claim, update_claim, steps_of}
use reimbursement_system.Reimbursements.Repository.Writes.{claim_total, new_claim, edit_claim}
use reimbursement_system.Reimbursements.Workflow.Lifecycle.{find_claim-update}
use reimbursement_system.Reimbursements.Workflow.Fits.{Fits}
use reimbursement_system.Reimbursements.Workflow.Invariant.{Invariant}
use reimbursement_system.Reimbursements.Service.{CreateRequest}
use reimbursement_system.Reimbursements.Service.Writing.{
  new_items, with_items, set_amount, recalculated,
}
use reimbursement_system.Reimbursements.Service.Outcomes.{cleared}
use reimbursement_system.Reimbursements.Service.Removal.{mark_deleted}
use reimbursement_system.Reimbursements.Service.Amounts.{find_claim-append, find_claim-mark_deleted}
use reimbursement_system.Reimbursements.Effects.{edited_db}

-- The claim's row, deleted or not.
abbrev pub find_row : ℕ → Db → Option Reimbursement
find_row id db = find? (λ (r : Reimbursement). r.id == id) db.reimbursements

-- Every approval step belongs to a claim that has a row.
abbrev pub Linked : Db → Type 0
Linked db = (j : ℕ) → find_row j db ≡ none → steps_of j db ≡ []

pub data Origin (db : Db) (j : ℕ) (r' : Reimbursement) : Type 0 where
  known :
      (r : Reimbursement)
      → find_claim j db ≡ some r
      → r'.status ≡ r.status
      → r'.current_step ≡ r.current_step
      → r'.employee_id ≡ r.employee_id
      → Origin db j r'
  filed : find_claim j db ≡ none → r'.status ≡ draft → steps_of j db ≡ [] → Origin db j r'

abbrev pub HaveOrigins : Db → Db → Type 0
HaveOrigins db db' = (j : ℕ) (r' : Reimbursement) → find_claim j db' ≡ some r' → Origin db j r'

pub find_row-update :
    (id j : ℕ) (f : Reimbursement → Reimbursement) (db : Db)
    → ((r : Reimbursement) → (f r).id ≡ r.id)
    → find_row j (update_claim id f db) ≡ none
    → find_row j db ≡ none
find_row-update id j f db keeps h = go db.reimbursements h
  where
    go :
        (rs : List Reimbursement)
        → find?
            (λ (r : Reimbursement). r.id == j)
            (map (λ (r : Reimbursement). if r.id == id then f r else r) rs)
          ≡ none
        → find? (λ (r : Reimbursement). r.id == j) rs ≡ none
    go [] h = refl
    go (r ∷ rs) h = ground (arith, keeps r, go rs)

pub find_claim-row :
    (j : ℕ) (r : Reimbursement) (db : Db) → find_claim j db ≡ some r → find_row j db ≡ none → ⊥
find_claim-row j r db h k = go db.reimbursements h k
  where
    go :
        (rs : List Reimbursement)
        → find? (λ (x : Reimbursement). x.id == j && not (is_some x.deleted_at)) rs ≡ some r
        → find? (λ (x : Reimbursement). x.id == j) rs ≡ none
        → ⊥
    go [] h k = cc
    go (x ∷ rs) h k = ground (arith, go rs)

pub no_row-claim : (j : ℕ) (db : Db) → find_row j db ≡ none → find_claim j db ≡ none
no_row-claim j db h = elim (Option-cases (find_claim j db)) [
  | inl missing ↦ missing
  | inr (r, found) ↦ absurd (find_claim-row j r db found h)
]

find_row-append :
    (j : ℕ) (r : Reimbursement) (rs : List Reimbursement)
    → find? (λ (x : Reimbursement). x.id == j) (rs ++ r ∷ []) ≡ none
    → find? (λ (x : Reimbursement). x.id == j) rs ≡ none
find_row-append j r [] h = refl
find_row-append j r (x ∷ rs) h = ground (arith, find_row-append j r rs)

-- Claims that have origins, with the steps as they were, keep the invariant.
pub origins-Invariant :
    (db db' : Db) → db'.approvals ≡ db.approvals → HaveOrigins db db' → Invariant db → Invariant db'
origins-Invariant db db' same origins inv = record {
  keys = rw same inv.keys;
  fits = λ j r' here. rw (steps j) (go j r' (origins j r' here));
}
  where
    steps : (j : ℕ) → steps_of j db' ≡ steps_of j db
    steps j = rw same refl

    go : (j : ℕ) (r' : Reimbursement) → Origin db j r' → Fits (steps_of j db) r'
    go j r' (known r here status step owner) =
        let fits = inv.fits j r here in
        record {
          waiting = λ h.
              let (k, sequential, below, current) = fits.waiting (sym status ∙ h) in
              (k, sequential, below, step ∙ current);
          settled = λ h. fits.settled (rw status at h);
          by_others = rw owner fits.by_others;
        }
    go j r' (filed none_yet is_draft no_steps) = record {
      waiting = λ h. ground arith;
      settled = λ h. ground arith;
      by_others = rw no_steps tt;
    }

-- Claims whose rows stay, with the steps as they were, keep the steps linked.
pub rows-Linked :
    (db db' : Db)
    → db'.approvals ≡ db.approvals
    → ((j : ℕ) → find_row j db' ≡ none → find_row j db ≡ none)
    → Linked db
    → Linked db'
rows-Linked db db' same rows linked j h = rw same (linked j (rows j h))

-- The claim's row after the transaction of Update.
abbrev pub edited : Env → ℕ → CreateRequest → ℕ → ℕ → Reimbursement → Reimbursement
edited e total req date cat r =
    set_amount e.now total (edit_claim e cat req.title req.description date r)

pub find_claim-edited :
    (e : Env) (t id : ℕ) (req : CreateRequest) (date cat : ℕ) (db : Db) (j : ℕ)
    → (total : ℕ) × (find_claim j (edited_db e t id req date cat db) ≡ (
        if j == id
        then Option.map (edited e total req date cat) (find_claim j db)
        else find_claim j db))
find_claim-edited e t id req date cat db j =
    let db2 = with_items (cleared e id req date cat db) (new_items e t id req.items) in
    let total = claim_total id db2 in
    let edit = edit_claim e cat req.title req.description date in
    let outer = find_claim-update id j (set_amount e.now total) db2 (λ r. refl) (λ r. refl) in
    let inner = find_claim-update id j edit db (λ r. refl) (λ r. refl) in
    elim (Bool-cases (j == id)) [
      | inr other ↦ (total, outer ∙ rw other (inner ∙ rw other))
      | inl same ↦ elim (Option-cases (find_claim j db)) [
        | inl missing ↦ (total, ground (arith, inner, outer))
        | inr (r, found) ↦ (total, ground (arith, inner, outer))
      ]
    ]

pub edited-Origins :
    (e : Env) (t id : ℕ) (req : CreateRequest) (date cat : ℕ) (db : Db)
    → HaveOrigins db (edited_db e t id req date cat db)
edited-Origins e t id req date cat db j r' here =
    let (total, moved) = find_claim-edited e t id req date cat db j in
    elim (Bool-cases (j == id)) [
      | inr other ↦ known r' (sym (moved ∙ rw other) ∙ here) refl refl refl
      | inl same ↦ elim (Option-cases (find_claim j db)) [
        | inl missing ↦ absurd (ground arith)
        | inr (r, found) ↦
            let k : edited e total req date cat r ≡ r' = ground arith in
            known r found (sym (ap (λ (x : Reimbursement). x.status) k))
              (sym (ap (λ (x : Reimbursement). x.current_step) k))
              (sym (ap (λ (x : Reimbursement). x.employee_id) k))
      ]
    ]

pub deleted-Origins :
    (now id : ℕ) (db : Db) → HaveOrigins db (update_claim id (mark_deleted now) db)
deleted-Origins now id db j r' here =
    let moved = find_claim-mark_deleted id j now db in
    let old : find_claim j db ≡ some r' = ground (arith, moved) in known r' old refl refl refl

-- The tables after the transaction of Create.
abbrev pub created_db : Env → ℕ → ℕ → ℕ → CreateRequest → ℕ → ℕ → Db → Db
created_db e t id user_id req date cat db = recalculated e.now id (
    with_items
      (record db {
        reimbursements =
            db.reimbursements ++ new_claim e id user_id cat req.title req.description date ∷ [];
      })
      (new_items e t id req.items))

abbrev pub filed_claim : Env → ℕ → ℕ → ℕ → CreateRequest → ℕ → ℕ → Reimbursement
filed_claim e total id user_id req date cat =
    set_amount e.now total (new_claim e id user_id cat req.title req.description date)

find_claim-last :
    (j : ℕ) (r : Reimbursement) (rs : List Reimbursement)
    → (r.id == j) ≡ true
    → r.deleted_at ≡ none
    → find? (λ (x : Reimbursement). x.id == j) rs ≡ none
    → find? (λ (x : Reimbursement). x.id == j && not (is_some x.deleted_at)) (rs ++ r ∷ []) ≡ some r
find_claim-last j r [] h live fresh = ground arith
find_claim-last j r (x ∷ rs) h live fresh = ground (arith, find_claim-last j r rs h live)

pub find_claim-created :
    (e : Env) (t id user_id : ℕ) (req : CreateRequest) (date cat : ℕ) (db : Db) (j : ℕ)
    → find_row id db ≡ none
    → (total : ℕ) × (find_claim j (created_db e t id user_id req date cat db)
        ≡ (if j == id then some (filed_claim e total id user_id req date cat) else find_claim j db))
find_claim-created e t id user_id req date cat db j fresh =
    let claim = new_claim e id user_id cat req.title req.description date in
    let db1 = record db { reimbursements = db.reimbursements ++ claim ∷ [] } in
    let db2 = with_items db1 (new_items e t id req.items) in
    let total = claim_total id db2 in
    let outer = find_claim-update id j (set_amount e.now total) db2 (λ r. refl) (λ r. refl) in
    elim (Bool-cases (j == id)) [
      | inr other ↦
          (total, outer ∙ rw other (find_claim-append j claim db.reimbursements (ground arith)))
      | inl same ↦
          let k : j ≡ id = (==_iff _ _).0 same in
          let last : find_claim id db2 ≡ some claim =
            find_claim-last id claim db.reimbursements (==_refl id) refl fresh in
          (total, outer ∙ rw (same, k, last) refl)
    ]

pub created-Origins :
    (e : Env) (t id user_id : ℕ) (req : CreateRequest) (date cat : ℕ) (db : Db)
    → find_row id db ≡ none
    → Linked db
    → HaveOrigins db (created_db e t id user_id req date cat db)
created-Origins e t id user_id req date cat db fresh linked j r' here =
    let (total, moved) = find_claim-created e t id user_id req date cat db j fresh in
    elim (Bool-cases (j == id)) [
      | inr other ↦ known r' (sym (moved ∙ rw other refl) ∙ here) refl refl refl
      | inl same ↦
          let k : j ≡ id = (==_iff _ _).0 same in
          let made : filed_claim e total id user_id req date cat ≡ r' = ground arith in
          filed (rw k (no_row-claim id db fresh)) (sym (ap (λ (x : Reimbursement). x.status) made))
            (rw k (linked id fresh))
    ]

pub created-rows :
    (e : Env) (t id user_id : ℕ) (req : CreateRequest) (date cat : ℕ) (db : Db) (j : ℕ)
    → find_row j (created_db e t id user_id req date cat db) ≡ none
    → find_row j db ≡ none
created-rows e t id user_id req date cat db j h =
    let claim = new_claim e id user_id cat req.title req.description date in
    let db1 = record db { reimbursements = db.reimbursements ++ claim ∷ [] } in
    let db2 = with_items db1 (new_items e t id req.items) in
    find_row-append j claim db.reimbursements
      (find_row-update id j (set_amount e.now (claim_total id db2)) db2 (λ r. refl) h)

pub edited-rows :
    (e : Env) (t id : ℕ) (req : CreateRequest) (date cat : ℕ) (db : Db) (j : ℕ)
    → find_row j (edited_db e t id req date cat db) ≡ none
    → find_row j db ≡ none
edited-rows e t id req date cat db j h =
    let db2 = with_items (cleared e id req date cat db) (new_items e t id req.items) in
    let edit = edit_claim e cat req.title req.description date in
    find_row-update id j edit db (λ r. refl)
      (find_row-update id j (set_amount e.now (claim_total id db2)) db2 (λ r. refl) h)

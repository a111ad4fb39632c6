-- ===== src/Reimbursements/Service/Amounts.antt =====
-- The amounts of the claims and the totals of their items, under Create, Update and Delete of
-- backend/internal/modules/reimbursements/service.go.
use mathlib.Core.List.{append-nil}
use reimbursement_system.Base.{
  ℕ, ◌+◌, ◌≡◌, refl, sym, ap, ◌∙◌, inl, inr, Bool, false, not, ◌&&◌, none, some, List, [], ◌∷◌,
  ◌++◌, map, ◌==◌, if◌then◌else◌, arith, filter, find?, is_some, Bool-cases, filter-append, ==_refl,
  ap₂,
}
use reimbursement_system.Approval.{Role}
use reimbursement_system.Store.{Reimbursement, ItemRow, Db, Env, World}
use reimbursement_system.Reimbursements.Scope.{DetailRow}
use reimbursement_system.Reimbursements.Repository.{find_claim, update_claim}
use reimbursement_system.Reimbursements.Repository.Writes.{
  ItemRequest, claim_total, sum_lines, new_claim, edit_claim,
}
use reimbursement_system.Reimbursements.Workflow.Lifecycle.{find_claim-update}
use reimbursement_system.Reimbursements.Service.{CreateRequest, create, update, delete}
use reimbursement_system.Reimbursements.Service.Writing.{
  new_items, with_items, recalculated, set_amount, Created,
}
use reimbursement_system.Reimbursements.Service.Outcomes.{
  cleared, Updated, create_outcome, update_outcome,
}
use reimbursement_system.Reimbursements.Service.Removal.{mark_deleted, delete_outcome}

-- Every claim that is not deleted has the total of its items as its amount.
abbrev pub Totals : Db → Type 0
Totals db = (j : ℕ) (r : Reimbursement) → find_claim j db ≡ some r → r.amount ≡ claim_total j db

-- The same of every claim but one.
abbrev pub TotalsBut : ℕ → Db → Type 0
TotalsBut id db =
    (j : ℕ) (r : Reimbursement)
    → (j == id) ≡ false
    → find_claim j db ≡ some r
    → r.amount ≡ claim_total j db

abbrev of_item : ℕ → ItemRow → Bool
of_item id it = it.reimbursement_id == id

pub recalculated-Totals : (now id : ℕ) (db : Db) → TotalsBut id db → Totals (recalculated now id db)
recalculated-Totals now id db others j r here =
    let total = claim_total id db in
    let moved = find_claim-update id j (set_amount now total) db (λ r. refl) (λ r. refl) in
    elim (Bool-cases (j == id)) [
      | inl same ↦ ground (arith)
      | inr other ↦ others j r other (sym (moved ∙ rw other) ∙ here)
    ]

new_items_other :
    (e : Env) (t j id : ℕ) (its : List ItemRequest)
    → (j == id) ≡ false
    → filter (of_item j) (new_items e t id its) ≡ []
new_items_other e t j id [] h = refl
new_items_other e t j id (it ∷ its) h = ground (arith, new_items_other e (t + 1) j id its h)

kept_items :
    (j id : ℕ) (rows : List ItemRow)
    → (j == id) ≡ false
    → filter (of_item j) (filter (λ (it : ItemRow). not (it.reimbursement_id == id)) rows)
      ≡ filter (of_item j) rows
kept_items j id [] h = refl
kept_items j id (it ∷ rows) h = ground (arith, kept_items j id rows h)

new_items_own :
    (e : Env) (t id : ℕ) (its : List ItemRequest)
    → filter (of_item id) (new_items e t id its) ≡ new_items e t id its
new_items_own e t id [] = refl
new_items_own e t id (it ∷ its) = ground (arith, ==_refl id, new_items_own e (t + 1) id its)

gone_items :
    (id : ℕ) (rows : List ItemRow)
    → filter (of_item id) (filter (λ (it : ItemRow). not (it.reimbursement_id == id)) rows) ≡ []
gone_items id [] = refl
gone_items id (it ∷ rows) = elim (Bool-cases (it.reimbursement_id == id)) [
  | inl same ↦ ground (arith, gone_items id rows)
  | inr other ↦ ground (arith, gone_items id rows)
]

-- Behind the old items, which are deleted, come the new ones.
pub replaced_items :
    (e : Env) (t id : ℕ) (its : List ItemRequest) (rows : List ItemRow)
    → filter
        (λ (it : ItemRow). it.reimbursement_id == id)
        (filter (λ (it : ItemRow). not (it.reimbursement_id == id)) rows ++ new_items e t id its)
      ≡ new_items e t id its
replaced_items e t id its rows =
    filter-append (of_item id) (filter (λ (it : ItemRow). not (it.reimbursement_id == id)) rows)
      (new_items e t id its)
    ∙ ap₂ ◌++◌ (gone_items id rows) (new_items_own e t id its)

pub total-with_items :
    (e : Env) (t j id : ℕ) (its : List ItemRequest) (db : Db)
    → (j == id) ≡ false
    → claim_total j (with_items db (new_items e t id its)) ≡ claim_total j db
total-with_items e t j id its db h = ap sum_lines (
    filter-append (of_item j) db.items (new_items e t id its)
    ∙ ap (λ rows. filter (of_item j) db.items ++ rows) (new_items_other e t j id its h)
    ∙ append-nil (filter (of_item j) db.items))

pub find_claim-append :
    (j : ℕ) (r : Reimbursement) (rs : List Reimbursement)
    → (r.id == j) ≡ false
    → find? (λ (x : Reimbursement). x.id == j && not (is_some x.deleted_at)) (rs ++ r ∷ [])
      ≡ find? (λ (x : Reimbursement). x.id == j && not (is_some x.deleted_at)) rs
find_claim-append j r [] h = ground arith
find_claim-append j r (x ∷ rs) h = ground (arith, find_claim-append j r rs h)

pub Created-Totals :
    (e : Env) (t id user_id : ℕ) (req : CreateRequest) (date cat : ℕ) (db db' : Db)
    → Created e t id user_id req date cat db db'
    → Totals db
    → Totals db'
Created-Totals e t id user_id req date cat db db' made totals =
    let claim = new_claim e id user_id cat req.title req.description date in
    let db1 = record db { reimbursements = db.reimbursements ++ claim ∷ [] } in
    rw made.written (
      recalculated-Totals e.now id (with_items db1 (new_items e t id req.items)) (λ j r other here.
        let old : find_claim j db ≡ some r =
          sym (find_claim-append j claim db.reimbursements (ground arith)) ∙ here in
        totals j r old ∙ sym (total-with_items e t j id req.items db1 other)))

pub cleared-TotalsBut :
    (e : Env) (id : ℕ) (req : CreateRequest) (date cat : ℕ) (db : Db)
    → Totals db
    → TotalsBut id (cleared e id req date cat db)
cleared-TotalsBut e id req date cat db totals j r other here =
    let edit = edit_claim e cat req.title req.description date in
    let moved = find_claim-update id j edit db (λ x. refl) (λ x. refl) in
    totals j r (sym (moved ∙ rw other) ∙ here) ∙ ap sum_lines (sym (kept_items j id db.items other))

Updated-Totals :
    (e : Env) (t id : ℕ) (role : Role) (user_id : ℕ) (req : CreateRequest) (date cat : ℕ)
    (row : DetailRow) (db db' : Db)
    → Updated e t id role user_id req date cat row db db'
    → Totals db
    → Totals db'
Updated-Totals e t id role user_id req date cat row db db' made totals = rw made.written (
    recalculated-Totals e.now id
      (with_items (cleared e id req date cat db) (new_items e t id req.items))
      (λ j r other here.
        cleared-TotalsBut e id req date cat db totals j r other here
        ∙ sym (total-with_items e t j id req.items (cleared e id req date cat db) other)))

pub find_claim-mark_deleted :
    (id j now : ℕ) (db : Db)
    → find_claim j (update_claim id (mark_deleted now) db)
      ≡ (if j == id then none else find_claim j db)
find_claim-mark_deleted id j now db = go db.reimbursements
  where
    go :
        (rs : List Reimbursement)
        → find?
            (λ (x : Reimbursement). x.id == j && not (is_some x.deleted_at))
            (map (λ (x : Reimbursement). if x.id == id then mark_deleted now x else x) rs)
          ≡ (if j == id
              then none
              else find? (λ (x : Reimbursement). x.id == j && not (is_some x.deleted_at)) rs)
    go [] = ground arith
    go (x ∷ rs) = ground (arith, go rs)

-- Create, Update and Delete, whichever of their statements fail, keep the total of its items as
-- the amount of every claim that is not deleted.
pub service-Totals :
    (id : ℕ) (req : CreateRequest) (role : Role) (user_id : ℕ) (e : Env) (w : World)
    → Totals w.db
    → Totals (create req user_id e w).1.db
      × Totals (update id req role user_id e w).1.db
      × Totals (delete id role user_id e w).1.db
service-Totals id req role user_id e w totals = (
  elim (create_outcome req user_id e w) [
    | inl (failed, same) ↦ rw same totals
    | inr (t, new_id, date, cat, made) ↦
        Created-Totals e t new_id user_id req date cat w.db _ made totals
  ],
  elim (update_outcome id req role user_id e w) [
    | inl (failed, same) ↦ rw same totals
    | inr (t, date, cat, row, made) ↦
        Updated-Totals e t id role user_id req date cat row w.db _ made totals
  ],
  elim (delete_outcome id role user_id e w) [
    | inl (failed, same) ↦ rw same totals
    | inr (row, found, owner, is_draft, written) ↦
        rw written (λ j r here. ground (arith, totals j r, find_claim-mark_deleted id j e.now w.db))
  ],
)

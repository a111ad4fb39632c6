-- ===== src/Reimbursements/Repository/Writes.antt =====
-- The writes of repository.go: a claim with its items, and the amount that PostgreSQL computes.
use reimbursement_system.Base.{
  ℕ, ◌+◌, ◌*◌, ◌^◌, Bool, ◌&&◌, ◌||◌, not, Option, none, some, List, [], ◌∷◌, ◌++◌, ltb, leb, ◌==◌,
  if◌then◌else◌, filter, find?, is_some, is_empty, Text, text_eq, trim_space,
}
use reimbursement_system.Approval.{draft}
use reimbursement_system.AppErr.{fault, unique_violation, driver}
use reimbursement_system.Store.{
  Reimbursement, ItemRow, line_total, AttachmentRow, Db, Env, M, Result, ok, err, done, ◌>>=◌, ◌>>◌,
  ask, statement, exec, transaction,
}
use reimbursement_system.Reimbursements.Scope.{find_user, find_category}
use reimbursement_system.Reimbursements.Repository.{update_claim}

-- ItemRequest, with the price as PostgreSQL rounds it to cents.
pub record ItemRequest : Type 0 where
  pub description : Text
  pub quantity : ℕ
  pub unit_price : ℕ

-- normDescPtr
abbrev pub norm_desc_ptr : Text → Option Text
norm_desc_ptr s = let t = trim_space s in if is_empty t then none else some t

-- `CHECK (quantity >= 1)` on an INT, and `CHECK (unit_price > 0 AND unit_price <= 999999999)`.
abbrev pub item_checks : ItemRequest → Bool
item_checks it =
    leb 1 it.quantity
    && leb it.quantity 2147483647
    && (leb 1 it.unit_price && leb it.unit_price (999999999 * 100))

abbrev pub add_item : Env → ℕ → ItemRequest → ℕ → Db → Result (Unit {0}) × Db
add_item e claim_id it t db =
    if item_checks it
    then (
      ok tt,
      record db {
        items =
            db.items
            ++ record {
              id = e.fresh_id t;
              reimbursement_id = claim_id;
              description = it.description;
              quantity = it.quantity;
              unit_price = it.unit_price;
              created_at = e.now;
            }
              ∷ [];
      },
    )
    else (err (fault driver), db)

-- insertItems
unfoldable pub insert_items : ℕ → List ItemRequest → M (Unit {0})
insert_items claim_id [] = done
insert_items claim_id (it ∷ its) =
    (λ e. statement (add_item e claim_id it) e) >> insert_items claim_id its

abbrev pub sum_lines : List ItemRow → ℕ
sum_lines [] = 0
sum_lines (it ∷ its) = line_total it + sum_lines its

abbrev pub claim_total : ℕ → Db → ℕ
claim_total id db = sum_lines (filter (λ it. it.reimbursement_id == id) db.items)

-- numeric(14,2) holds less than 10 ^ 12; a larger sum is refused.
abbrev pub recalc : Env → ℕ → ℕ → Db → Result (Unit {0}) × Db
recalc e id t db =
    if ltb (claim_total id db) (10 ^ 14)
    then (
      ok tt,
      update_claim id (λ r. record r { amount = claim_total id db; updated_at = e.now }) db,
    )
    else (err (fault driver), db)

-- recalcAmount
unfoldable pub recalc_amount : ℕ → M (Unit {0})
recalc_amount id e = statement (recalc e id) e

abbrev pub new_claim : Env → ℕ → ℕ → ℕ → Text → Text → ℕ → Reimbursement
new_claim e id user_id category_id title description date = record {
  id = id;
  employee_id = user_id;
  category_id = category_id;
  title = title;
  description = norm_desc_ptr description;
  expense_date = date;
  amount = 0;
  status = draft;
  current_step = 0;
  submitted_at = none;
  decided_at = none;
  paid_at = none;
  cancelled_at = none;
  created_at = e.now;
  updated_at = e.now;
  deleted_at = none;
}

-- The foreign keys of reimbursements.
abbrev pub refers_to_rows : Reimbursement → Db → Bool
refers_to_rows r db =
    is_some (find_user r.employee_id db.users)
    && is_some (find_category r.category_id db.categories)

-- The INSERT, with the foreign keys and the primary key.
abbrev pub add_claim : Reimbursement → ℕ → Db → Result (Unit {0}) × Db
add_claim r t db =
    if refers_to_rows r db
    then (if is_some (find? (λ (x : Reimbursement). x.id == r.id) db.reimbursements)
        then (err (fault unique_violation), db)
        else (ok tt, record db { reimbursements = db.reimbursements ++ r ∷ [] }))
    else (err (fault driver), db)

-- Repository.CreateClaim
unfoldable pub create_claim : ℕ → ℕ → ℕ → Text → Text → ℕ → List ItemRequest → M (Unit {0})
create_claim id user_id category_id title description date its = transaction (do
  r ← ask (λ e. new_claim e id user_id category_id title description date)
  statement (add_claim r)
  insert_items id its
  recalc_amount id)

abbrev pub edit_claim : Env → ℕ → Text → Text → ℕ → Reimbursement → Reimbursement
edit_claim e category_id title description date r = record r {
  category_id = category_id;
  title = title;
  description = norm_desc_ptr description;
  expense_date = date;
  updated_at = e.now;
}

abbrev pub delete_items : ℕ → Db → Db
delete_items id db = record db { items = filter (λ it. not (it.reimbursement_id == id)) db.items }

-- The UPDATE of the header, with the foreign key of the category.
abbrev pub edit_row : ℕ → ℕ → (Reimbursement → Reimbursement) → ℕ → Db → Result (Unit {0}) × Db
edit_row id category_id edit t db =
    if is_some (find_category category_id db.categories)
      || not (is_some (find? (λ (r : Reimbursement). r.id == id) db.reimbursements))
    then (ok tt, update_claim id edit db)
    else (err (fault driver), db)

-- Repository.UpdateClaim
unfoldable pub update_claim_items : ℕ → ℕ → Text → Text → ℕ → List ItemRequest → M (Unit {0})
update_claim_items id category_id title description date its = transaction (do
  edit ← ask (λ e. edit_claim e category_id title description date)
  statement (edit_row id category_id edit)
  exec (delete_items id)
  insert_items id its
  recalc_amount id)

-- Repository.SoftDelete
unfoldable pub soft_delete : ℕ → M (Unit {0})
soft_delete id = do
  now ← ask (λ e. e.now)
  exec (update_claim id (λ r. record r { deleted_at = some now }))

abbrev pub attachment_clashes : AttachmentRow → AttachmentRow → Bool
attachment_clashes new old = old.id == new.id || text_eq old.storage_key new.storage_key

-- The INSERT, with the foreign keys, the primary key and the unique storage key.
abbrev pub add_attachment_row : AttachmentRow → ℕ → Db → Result (Unit {0}) × Db
add_attachment_row a t db =
    if is_some (find? (λ (r : Reimbursement). r.id == a.reimbursement_id) db.reimbursements)
      && is_some (find_user a.uploaded_by db.users)
    then (if is_some (find? (attachment_clashes a) db.attachments)
        then (err (fault unique_violation), db)
        else (ok tt, record db { attachments = db.attachments ++ a ∷ [] }))
    else (err (fault driver), db)

-- Repository.CreateAttachment
unfoldable pub create_attachment : AttachmentRow → M (Unit {0})
create_attachment a = statement (add_attachment_row a)

-- ===== src/Reimbursements/Repository.antt =====
-- Reads and writes of backend/internal/modules/reimbursements/repository.go.
pub mod Writes
pub mod Policy
pub mod Detail
use reimbursement_system.Base.{
  ℕ, ◌+◌, ◌≡◌, Bool, true, false, ◌&&◌, ◌||◌, not, Option, none, some, List, [], ◌∷◌, map, leb,
  ◌==◌, if◌then◌else◌, is_some, is_empty, length, filter, find?, sort_by, Text, text_eq, lit,
}
use reimbursement_system.Decimal.{numeric_text}
use reimbursement_system.Approval.{
  Status, Role, draft, submitted, approved, rejected, paid, cancelled,
}
use reimbursement_system.AppErr.{
  Err, app, fault, record_not_found, not_found, validation, internal_err,
}
use reimbursement_system.Store.{
  Category, Reimbursement, ItemRow, AttachmentRow, ApprovalStep, Db, Env, M, Result, ok, err, pure,
  throw, ◌>>=◌, ◌>>◌, throw_if, map_err, ask, query, first, exec,
}
use reimbursement_system.Reimbursements.Scope.{DetailRow, base_query, scope_filter}

-- gorm.ErrRecordNotFound becomes a 404; another error is passed on as it is.
abbrev pub not_found_as : Text → Err → Err
not_found_as msg (fault record_not_found) = not_found msg
not_found_as msg x = x

abbrev pub has_id : ℕ → DetailRow → Bool
has_id id row = row.claim.id == id

-- Repository.GetDetail
unfoldable pub get_detail : ℕ → Role → ℕ → M DetailRow
get_detail id role user_id =
    map_err (not_found_as (lit "Claim not found"))
      (first (λ db. find? (has_id id) (scope_filter role user_id (base_query db))))

-- Repository.Items, Repository.Attachments and Repository.ApprovalsFor.
abbrev pub items_of : ℕ → Db → List ItemRow
items_of id db = sort_by (λ it. it.created_at) (filter (λ it. it.reimbursement_id == id) db.items)

abbrev pub attachments_of : ℕ → Db → List AttachmentRow
attachments_of id db =
    sort_by (λ a. a.created_at) (filter (λ a. a.reimbursement_id == id) db.attachments)

abbrev pub steps_of : ℕ → Db → List ApprovalStep
steps_of id db =
    sort_by (λ st. st.step_number) (filter (λ st. st.reimbursement_id == id) db.approvals)

unfoldable pub items : ℕ → M (List ItemRow)
items id = query (items_of id)

unfoldable pub attachments : ℕ → M (List AttachmentRow)
attachments id = query (attachments_of id)

unfoldable pub approvals_for : ℕ → M (List ApprovalStep)
approvals_for id = query (steps_of id)

-- Repository.EnsureActiveCategory
unfoldable pub ensure_active_category : ℕ → M (Unit {0})
ensure_active_category id = do
  n ←
      map_err internal_err
        (query (λ db. length (filter (λ (c : Category). c.id == id && c.is_active) db.categories)))
  throw_if (n == 0) (validation (lit "category_id does not reference an active category"))

-- The claim that a transaction locks: `First(&claim, "id = ? AND deleted_at IS NULL", id)`.
abbrev pub find_claim : ℕ → Db → Option Reimbursement
find_claim id db =
    find? (λ (r : Reimbursement). r.id == id && not (is_some r.deleted_at)) db.reimbursements

unfoldable pub lock_claim : ℕ → M Reimbursement
lock_claim id = first (find_claim id)

-- `UPDATE reimbursements SET ... WHERE id = ?`
abbrev pub update_claim : ℕ → (Reimbursement → Reimbursement) → Db → Db
update_claim id f db = record db {
  reimbursements = map (λ (r : Reimbursement). if r.id == id then f r else r) db.reimbursements;
}

-- `UPDATE approvals SET ... WHERE id = ?`
abbrev pub update_step : ℕ → (ApprovalStep → ApprovalStep) → Db → Db
update_step id f db = record db {
  approvals = map (λ (st : ApprovalStep). if st.id == id then f st else st) db.approvals;
}

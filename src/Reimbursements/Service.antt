-- ===== src/Reimbursements/Service.antt =====
-- backend/internal/modules/reimbursements/service.go: the owner's own operations on a claim.
pub mod Dates
pub mod Writing
pub mod Outcomes
pub mod Removal
pub mod Amounts
pub mod Kept
pub mod Files
pub mod Names
use reimbursement_system.Base.{
  ℕ, ◌+◌, ◌*◌, Bool, true, false, ◌||◌, not, Option, none, some, List, [], ◌∷◌, ltb, ◌==◌,
  if◌then◌else◌, Text, lit,
}
use reimbursement_system.Approval.{Status, draft, rejected, Role, admin, status_eq}
use reimbursement_system.AppErr.{Err, forbidden, conflict, validation, internal_err}
use reimbursement_system.Store.{
  Env, M, pure, throw, done, ◌>>=◌, ◌>>◌, throw_if, map_err, ask, new_uuid,
}
use reimbursement_system.Reimbursements.Scope.{DetailRow}
use reimbursement_system.Reimbursements.Repository.{get_detail, ensure_active_category}
use reimbursement_system.Reimbursements.Repository.Writes.{
  ItemRequest, create_claim, update_claim_items, soft_delete,
}
use reimbursement_system.Reimbursements.Repository.Detail.{DetailResponse, read_detail}
use reimbursement_system.Reimbursements.Service.Dates.{parse_date}

-- CreateRequest, which is UpdateRequest as well.
pub record CreateRequest : Type 0 where
  pub category_id : Text
  pub title : Text
  pub description : Text
  pub expense_date : Text
  pub items : List ItemRequest

-- The nanoseconds of a day; a time counts them from the first day of the year 0.
abbrev pub day : ℕ
day = 86400000000000

abbrev pub valid_date : Option ℕ → M ℕ
valid_date none = throw (validation (lit "expense_date must be YYYY-MM-DD"))
valid_date (some d) = do
  now ← ask (λ e. e.now)
  throw_if (ltb (now + 30 * day) (d * day))
      (validation (lit "expense_date cannot be more than 30 days in the future"))
  pure d

-- validateExpenseDate
unfoldable pub validate_expense_date : Text → M ℕ
validate_expense_date raw = valid_date (parse_date raw)

abbrev pub valid_uuid : Option ℕ → M ℕ
valid_uuid none = throw (validation (lit "category_id is invalid"))
valid_uuid (some id) = pure id

-- `uuid.Parse(req.CategoryID)`
abbrev pub parse_category : Text → M ℕ
parse_category s = do parsed ← ask (λ e. e.parse_uuid s); valid_uuid parsed

-- GetDetail
unfoldable pub service_detail : ℕ → Role → ℕ → M DetailResponse
service_detail id role user_id = do row ← get_detail id role user_id; read_detail id row

-- What Create and Update check of a request: the day of its date and its category.
unfoldable pub check_request : CreateRequest → M (ℕ × ℕ)
check_request req = do
  expense_date ← validate_expense_date req.expense_date
  category_id ← parse_category req.category_id
  ensure_active_category category_id
  pure (expense_date, category_id)

-- Create
unfoldable pub create : CreateRequest → ℕ → M DetailResponse
create req user_id = do
  (expense_date, category_id) ← check_request req
  id ← new_uuid
  create_claim id user_id category_id req.title req.description expense_date req.items
  service_detail id admin user_id

abbrev pub is_editable : Status → Bool
is_editable s = status_eq s draft || status_eq s rejected

-- The claim that Update may write.
unfoldable pub read_editable : ℕ → Role → ℕ → M DetailRow
read_editable id role user_id = do
  current ← get_detail id role user_id
  throw_if (not (current.claim.employee_id == user_id))
      (forbidden (lit "Only the owner can edit this claim"))
  throw_if (not (is_editable current.claim.status))
      (conflict (lit "Only DRAFT or REJECTED claims can be edited"))
  pure current

-- Update
unfoldable pub update : ℕ → CreateRequest → Role → ℕ → M DetailResponse
update id req role user_id = do
  current ← read_editable id role user_id
  (expense_date, category_id) ← check_request req
  update_claim_items id category_id req.title req.description expense_date req.items
  service_detail id admin user_id

-- The claim that Delete may mark.
unfoldable pub read_deletable : ℕ → Role → ℕ → M DetailRow
read_deletable id role user_id = do
  current ← get_detail id role user_id
  throw_if (not (current.claim.employee_id == user_id))
      (forbidden (lit "Only the owner can delete this claim"))
  throw_if (not (status_eq current.claim.status draft))
      (conflict (lit "Only DRAFT claims can be deleted"))
  pure current

-- Delete
unfoldable pub delete : ℕ → Role → ℕ → M (Unit {0})
delete id role user_id = do
  current ← read_deletable id role user_id
  map_err internal_err (soft_delete id)

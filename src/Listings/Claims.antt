-- ===== src/Listings/Claims.antt =====
-- List of backend/internal/modules/reimbursements: repository.go, service.go and the part of
-- handler.go that reads the filters.
pub mod Sound
use reimbursement_system.Base.{
  ℕ, ◌≡◌, refl, ◌≤◌, inl, inr, Bool, true, false, ◌&&◌, ◌||◌, Option, none, some, List, [], ◌∷◌,
  ◌++◌, map, arith, leb, if◌then◌else◌, length, filter, All, MemIn, All-MemIn, filter-MemIn,
  is_empty, Text, text_eq, lit, length-take-le, take, drop, pos, negsuc, zero, suc, Option-cases,
  &&-true, ◌==◌, ℤ,
}
use reimbursement_system.Approval.{
  Status, draft, submitted, approved, rejected, paid, cancelled, Role, status_eq,
}
use reimbursement_system.AppErr.{fault, driver, internal_err}
use reimbursement_system.Store.{
  Db, Env, World, M, Result, ok, err, pure, ◌>>=◌, map_err, ask, statement,
}
use reimbursement_system.Reimbursements.Scope.{
  DetailRow, base_query, scope_filter, can_see, scope_filter-can_see,
}
use reimbursement_system.Reimbursements.Repository.Detail.{ReimbursementResponse, to_response}
use reimbursement_system.Reimbursements.Workflow.Notify.{status_text}
use reimbursement_system.Requests.Paging.{Params, Order, total_pages}
use reimbursement_system.Listings.Pages.{page_rows}

-- What PostgreSQL computes: whether a text is ILIKE a pattern, the date that a text names, and the
-- rows in the order of a column and then of their ids.
pub record Sql : Type 0 where
  pub ilike : Text → Text → Bool
  pub read_date : Text → Option ℕ
  pub arrange : Text → Order → List DetailRow → List DetailRow

abbrev pub claim_columns : List (Text × Text)
claim_columns =
    (lit "title", lit "title")
    ∷ (lit "amount", lit "amount")
    ∷ (lit "status", lit "status")
    ∷ (lit "expense_date", lit "expense_date")
    ∷ (lit "created_at", lit "created_at")
    ∷ []

pub record ListFilters : Type 0 where
  pub status : Text
  pub category_id : Text
  pub date_from : Text
  pub date_to : Text

-- The cast to the enum reimb_status.
unfoldable pub cast_status : Text → Option Status
cast_status s =
    if text_eq s (status_text draft)
    then some draft
    else if text_eq s (status_text submitted)
    then some submitted
    else if text_eq s (status_text approved)
    then some approved
    else if text_eq s (status_text rejected)
    then some rejected
    else if text_eq s (status_text paid)
    then some paid
    else if text_eq s (status_text cancelled)
    then some cancelled
    else none

-- `if value != "" { db.Where(...) }` with the value cast to the column's type; `none` if it cannot
-- be.
abbrev pub condition :
    {A : Type 0} → Text → (Text → Option A) → (A → DetailRow → Bool) → Option (DetailRow → Bool)
condition value cast test =
    if is_empty value
    then some (λ row. true)
    else elim (cast value) [ none ↦ none | some a ↦ some (test a) ]

abbrev pub both : Option (DetailRow → Bool) → Option (DetailRow → Bool) → Option (DetailRow → Bool)
both none q = none
both (some p) none = none
both (some p) (some q) = some (λ row. p row && q row)

-- applyListFilters
unfoldable pub apply_list_filters : Sql → Env → ListFilters → Option (DetailRow → Bool)
apply_list_filters sql e f =
    both (condition f.status cast_status (λ s row. status_eq row.claim.status s)) (
      both (condition f.category_id e.parse_uuid (λ id row. row.claim.category_id == id)) (
        both (condition f.date_from sql.read_date (λ d row. leb d row.claim.expense_date))
          (condition f.date_to sql.read_date (λ d row. leb row.claim.expense_date d))))

abbrev pub pattern : Text → Text
pattern search = b'%' ∷ search ++ b'%' ∷ []

-- A comparison with NULL is not true.
abbrev pub is_like : Sql → Option Text → Text → Bool
is_like sql none p = false
is_like sql (some t) p = sql.ilike t p

abbrev pub search_test : Sql → Text → DetailRow → Bool
search_test sql search row =
    if is_empty search
    then true
    else sql.ilike row.claim.title (pattern search)
      || is_like sql row.claim.description (pattern search)

-- The rows that the query of List selects, or none if a cast fails.
unfoldable pub selected : Sql → Env → Params → ListFilters → Role → ℕ → Db → Option (List DetailRow)
selected sql e p f role user_id db = elim (apply_list_filters sql e f) [
  | none ↦ none
  | some test ↦ some (
      filter (λ row. test row && search_test sql p.search row)
        (scope_filter role user_id (base_query db)))
]

abbrev pub count_rows : Option (List DetailRow) → Result ℕ
count_rows none = err (fault driver)
count_rows (some rows) = ok (length rows)

abbrev pub rows_of_page : Sql → Params → Option (List DetailRow) → Result (List DetailRow)
rows_of_page sql p none = err (fault driver)
rows_of_page sql p (some rows) = ok (page_rows p (sql.arrange p.sort p.order rows))

-- Repository.List: the count, and the rows of one page.
unfoldable pub list_claims : Sql → Params → ListFilters → Role → ℕ → M (List DetailRow × ℕ)
list_claims sql p f role user_id = do
  total ← λ e. statement (λ t db. (count_rows (selected sql e p f role user_id db), db)) e
  rows ← λ e. statement (λ t db. (rows_of_page sql p (selected sql e p f role user_id db), db)) e
  pure (rows, total)

pub record ListResult : Type 0 where
  pub items : List ReimbursementResponse
  pub page : ℕ
  pub limit : ℕ
  pub total : ℕ
  pub total_pages : ℕ

abbrev pub list_item : Env → DetailRow → ReimbursementResponse
list_item e row = to_response e row.claim row.employee_name row.category_name row.category_code

-- Service.List
unfoldable pub service_list : Sql → Params → ListFilters → Role → ℕ → M ListResult
service_list sql p f role user_id = do
  (rows, total) ← map_err internal_err (list_claims sql p f role user_id)
  ask (λ e. record {
    items = map (list_item e) rows;
    page = p.page;
    limit = p.limit;
    total = total;
    total_pages = total_pages p total;
  })

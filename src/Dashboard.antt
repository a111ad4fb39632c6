-- ===== src/Dashboard.antt =====
-- backend/internal/modules/dashboard: service.go, repository.go and dto.go. JSON, the rate as
-- float64 computes it and the order of the texts in the database are parameters.
pub mod Months
pub mod Trend
pub mod Breakdown
pub mod Cached
use reimbursement_system.Base.{
  ℕ, zero, suc, ◌+◌, ◌-◌, ◌/◌, ◌<◌, Bool, true, false, ◌&&◌, ◌||◌, not, Option, none, some, List,
  [], ◌∷◌, ◌++◌, map, length, filter, ltb, ◌==◌, if◌then◌else◌, is_some, is_empty, Text, lit, ℤ,
  pos, negsuc,
}
use reimbursement_system.Approval.{
  Status, submitted, approved, rejected, Role, employee, manager, finance, admin, unlisted,
  status_eq,
}
use reimbursement_system.AppErr.{Err, app, fault, driver, new, validation, internal_err}
use reimbursement_system.Store.{
  Category, Reimbursement, Db, Env, Redis, M, Result, ok, err, pure, throw, ◌>>=◌, ◌>>◌, map_err,
  ignore_err, ask, query, command,
}
use reimbursement_system.Reimbursements.Repository.Policy.{is_spent, sum_text}
use reimbursement_system.Reimbursements.Service.{day}
use reimbursement_system.Reimbursements.Workflow.Steps.{role_text}
use reimbursement_system.Sessions.{set}
use reimbursement_system.Dashboard.Months.{month_series, left_join, group_by_month, present}

-- apperr.BadRequest
abbrev pub bad_request : Text → Err
bad_request msg = app (new 400 (lit "BAD_REQUEST") msg)

-- scope: an employee's own claims, else all of them.
abbrev pub in_scope : Role → ℕ → Reimbursement → Bool
in_scope employee user_id r = r.employee_id == user_id
in_scope manager user_id r = true
in_scope finance user_id r = true
in_scope admin user_id r = true
in_scope (unlisted s) user_id r = true

-- The claims that are not deleted and in scope.
unfoldable pub scoped : Role → ℕ → Db → List Reimbursement
scoped role user_id db =
    filter (λ r. not (is_some r.deleted_at) && in_scope role user_id r) db.reimbursements

-- Repository.PendingCount
unfoldable pub pending_count : Role → ℕ → Db → ℕ
pending_count role user_id db =
    length (filter (λ r. status_eq r.status submitted) (scoped role user_id db))

-- The claims of a month that count as money asked for or spent.
unfoldable pub active_in : (ℕ → ℕ) → Role → ℕ → ℕ → Db → List Reimbursement
active_in month_of role user_id month db =
    filter (λ r. is_spent r.status && month_of r.expense_date == month) (scoped role user_id db)

-- Repository.MonthlyTotal
unfoldable pub monthly_total : (ℕ → ℕ) → Role → ℕ → ℕ → Db → Text
monthly_total month_of role user_id month db = sum_text (active_in month_of role user_id month db)

-- Repository.ApprovalCounts
unfoldable pub approval_counts : Role → ℕ → Db → ℕ × ℕ
approval_counts role user_id db = (
  length (filter (λ r. status_eq r.status approved) (scoped role user_id db)),
  length (filter (λ r. status_eq r.status rejected) (scoped role user_id db)),
)

pub record TrendPoint : Type 0 where
  pub month : Text
  pub total : Text

pub record BreakdownItem : Type 0 where
  pub category_id : Text
  pub category_name : Text
  pub total : Text
  pub claim_count : ℕ

pub record SummaryResponse : Type 0 where
  pub pending_count : ℕ
  pub monthly_total : Text
  pub approval_rate : Option Text

pub record TrendResponse : Type 0 where
  pub months : ℕ
  pub series : List TrendPoint

pub record BreakdownResponse : Type 0 where
  pub month : Text
  pub items : List BreakdownItem

-- json.Marshal and json.Unmarshal of one type.
pub record Codec (A : Type 0) : Type 0 where
  pub marshal : A → Text
  pub unmarshal : Text → Option A

-- The months of the calendar as numbers, their names YYYY-MM and their parser, the rate of a pair
-- of counts as JSON shows it, the order of a breakdown, and the JSON of the three answers.
pub record Library : Type 0 where
  pub month_text : ℕ → Text
  pub read_month : Text → Option ℕ
  pub rate : ℕ → ℕ → Text
  pub arrange : List BreakdownItem → List BreakdownItem
  pub summary : Codec SummaryResponse
  pub trend : Codec TrendResponse
  pub breakdown : Codec BreakdownResponse

-- The month in which a request is served.
abbrev pub this_month : Env → ℕ
this_month e = e.month_of (e.now / day)

abbrev pub group_point : Library → ℕ × List (Option Reimbursement) → TrendPoint
group_point lib group = record {
  month = lib.month_text group.0;
  total = sum_text (present group.1);
}

-- Repository.MonthlyTrend
unfoldable pub trend_points : Library → Env → Role → ℕ → ℕ → Db → List TrendPoint
trend_points lib e role user_id months db =
    let active = filter (λ r. is_spent r.status) (scoped role user_id db) in
    map (group_point lib) (
      group_by_month
        (left_join e.month_of active (month_series (this_month e - (months - 1)) (this_month e))))

-- `GROUP BY r.category_id`: the claims of a category.
abbrev pub in_category : List Reimbursement → Category → List Reimbursement
in_category claims c = filter (λ (r : Reimbursement). r.category_id == c.id) claims

-- The row of a category in the breakdown.
abbrev pub breakdown_item : Env → List Reimbursement → Category → BreakdownItem
breakdown_item e claims c = record {
  category_id = e.id_text c.id;
  category_name = c.name;
  total = sum_text (in_category claims c);
  claim_count = length (in_category claims c);
}

-- Repository.CategoryBreakdown
unfoldable pub breakdown_items : Library → Env → Role → ℕ → ℕ → Db → List BreakdownItem
breakdown_items lib e role user_id month db =
    lib.arrange (map (breakdown_item e (active_in e.month_of role user_id month db)) db.categories)

abbrev pub unmarshalled : {A : Type 0} → Option A → M A
unmarshalled none = throw (fault driver)
unmarshalled (some a) = pure a

abbrev pub cache_put : Text → Text → Redis → Redis
cache_put key raw r = record r { values = set key (some raw) r.values }

abbrev pub or_load : {A : Type 0} → Codec A → Text → M A → Option Text → M A
or_load codec key load (some raw) = unmarshalled (codec.unmarshal raw)
or_load codec key load none = do
  out ← load
  ignore_err tt (command (λ r. (tt, cache_put key (codec.marshal out) r)))
  pure out

-- cached, with a cache that is set; a GET that fails is a miss, and an expired key is absent.
unfoldable pub cached : {A : Type 0} → Codec A → Text → M A → M A
cached codec key load = do
  hit ← ignore_err none (command (λ r. (r.values key, r)))
  or_load codec key load hit

abbrev pub rate_of : Library → ℕ × ℕ → Option Text
rate_of lib (done, refused) =
    if ltb 0 (done + refused) then some (lib.rate done (done + refused)) else none

-- The three queries of Summary.
unfoldable pub load_summary : Library → Role → ℕ → M SummaryResponse
load_summary lib role user_id = do
  pending ← map_err internal_err (query (pending_count role user_id))
  total ← map_err internal_err (λ e. query (monthly_total e.month_of role user_id (this_month e)) e)
  counts ← map_err internal_err (query (approval_counts role user_id))
  pure (record {
    pending_count = pending;
    monthly_total = total;
    approval_rate = rate_of lib counts;
  })

abbrev pub summary_key : Env → Role → ℕ → Text
summary_key e role user_id = lit "dash:sum:" ++ (role_text role ++ (b':' ∷ e.id_text user_id))

-- Summary
unfoldable pub summary : Library → Role → ℕ → M SummaryResponse
summary lib role user_id e =
    cached lib.summary (summary_key e role user_id) (load_summary lib role user_id) e

unfoldable pub load_trend : Library → Role → ℕ → ℕ → M TrendResponse
load_trend lib role user_id months = do
  series ← map_err internal_err (λ e. query (trend_points lib e role user_id months) e)
  pure (record { months = months; series = series })

abbrev pub trend_within : Library → (ℕ → Text) → Role → ℕ → ℕ → M TrendResponse
trend_within lib show role user_id months e =
    cached lib.trend
      (lit "dash:trend:" ++ (role_text role ++ (b':' ∷ e.id_text user_id ++ (b':' ∷ show months))))
      (load_trend lib role user_id months) e

abbrev pub too_many : Err
too_many = bad_request (lit "months must be between 1 and 24")

-- MonthlyTrend
unfoldable pub monthly_trend : Library → (ℕ → Text) → Role → ℕ → ℤ → M TrendResponse
monthly_trend lib show role user_id (negsuc n) = throw too_many
monthly_trend lib show role user_id (pos n) =
    if ltb n 1 || ltb 24 n then throw too_many else trend_within lib show role user_id n

unfoldable pub load_breakdown : Library → Role → ℕ → Text → ℕ → M BreakdownResponse
load_breakdown lib role user_id name month = do
  items ← map_err internal_err (λ e. query (breakdown_items lib e role user_id month) e)
  pure (record { month = name; items = items })

abbrev pub breakdown_of : Library → Role → ℕ → Text → Option ℕ → M BreakdownResponse
breakdown_of lib role user_id name none = throw (validation (lit "month must be YYYY-MM"))
breakdown_of lib role user_id name (some month) = λ e.
    cached lib.breakdown
      (lit "dash:breakdown:" ++ (role_text role ++ (b':' ∷ e.id_text user_id ++ (b':' ∷ name))))
      (load_breakdown lib role user_id name month) e

-- CategoryBreakdown
unfoldable pub category_breakdown : Library → Role → ℕ → Text → M BreakdownResponse
category_breakdown lib role user_id month e =
    let name = if is_empty month then lib.month_text (this_month e) else month in
    breakdown_of lib role user_id name (lib.read_month name) e

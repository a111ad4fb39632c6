-- ===== src/Dashboard/Trend.antt =====
-- The monthly series of backend/internal/modules/dashboard, as its query makes it.
use reimbursement_system.Base.{
  ℕ, zero, suc, ◌+◌, ◌-◌, ◌≤◌, ◌≡◌, refl, ap, ◌∙◌, inl, inr, Bool, ◌&&◌, ◌<◌, ◌++◌, filter, Option,
  none, some, List, [], ◌∷◌, map, arith, length, length-map, ◌==◌, Bool-cases, get_elem?, ap₂,
}
use reimbursement_system.Approval.{Role}
use reimbursement_system.Store.{Reimbursement, Db, Env}
use reimbursement_system.Reimbursements.Repository.Policy.{is_spent}
use reimbursement_system.Dashboard.Months.{
  series_from, month_series, match_rows, left_join, into_group, group_by_month, present,
}
use reimbursement_system.Dashboard.{
  Library, TrendPoint, group_point, trend_points, this_month, scoped, active_in, monthly_total,
}

length-series_from : (first n : ℕ) → length (series_from first n) ≡ n
length-series_from first zero = refl
length-series_from first (suc n) = ap suc (length-series_from (first + 1) n)

get_elem?-series_from :
    (first n k : ℕ) → suc k ≤ n → get_elem? (series_from first n) k ≡ some (first + k)
get_elem?-series_from first zero k h = absurd (omega arith)
get_elem?-series_from first (suc n) zero h = ground arith
get_elem?-series_from first (suc n) (suc k) h =
    get_elem?-series_from (first + 1) n k (omega arith) ∙ ap some (omega arith)

get_elem?-map :
    {A B : Type 0} (f : A → B) (xs : List A) (k : ℕ) (a : A)
    → get_elem? xs k ≡ some a
    → get_elem? (map f xs) k ≡ some (f a)
get_elem?-map f [] k a h = cc
get_elem?-map f (x ∷ xs) zero a h = ground arith
get_elem?-map f (x ∷ xs) (suc k) a h = get_elem?-map f xs k a h

-- The groups start above a month.
abbrev Above : ℕ → List (ℕ × List (Option Reimbursement)) → Type 0
Above month [] = Unit
Above month ((k, rs) ∷ groups) = month < k

-- What a month's rows hold.
abbrev held : List Reimbursement → List (Option Reimbursement)
held [] = none ∷ []
held (r ∷ rs) = map some (r ∷ rs)

present-held : (rs : List Reimbursement) → present (held rs) ≡ rs
present-held [] = refl
present-held (r ∷ rs) = go (r ∷ rs)
  where
    go : (rs : List Reimbursement) → present (map some rs) ≡ rs
    go [] = refl
    go (r ∷ rs) = ap (λ xs. r ∷ xs) (go rs)

into_group-Above :
    (month : ℕ) (r : Option Reimbursement) (groups : List (ℕ × List (Option Reimbursement)))
    → Above month groups
    → into_group month r groups ≡ (month, r ∷ []) ∷ groups
into_group-Above month r [] h = refl
into_group-Above month r ((k, rs) ∷ groups) h = ground arith

into_group-head :
    (month : ℕ) (r : Option Reimbursement) (rs : List (Option Reimbursement))
    (groups : List (ℕ × List (Option Reimbursement)))
    → into_group month r ((month, rs) ∷ groups) ≡ (month, r ∷ rs) ∷ groups
into_group-head month r rs groups = ground arith

group_by_month-match_rows :
    (month : ℕ) (rs : List Reimbursement) (rows : List (ℕ × Option Reimbursement))
    → Above month (group_by_month rows)
    → group_by_month (match_rows month rs ++ rows) ≡ (month, held rs) ∷ group_by_month rows
unfolding group_by_month
group_by_month-match_rows month [] rows h = into_group-Above month none (group_by_month rows) h
group_by_month-match_rows month (r ∷ rs) rows h = go r rs
  where
    go :
        (r : Reimbursement) (rs : List Reimbursement)
        → group_by_month (map (λ x. (month, some x)) (r ∷ rs) ++ rows)
          ≡ (month, map some (r ∷ rs)) ∷ group_by_month rows
    go r [] = into_group-Above month (some r) (group_by_month rows) h
    go r (x ∷ rs) =
        ap (into_group month (some r)) (go x rs)
        ∙ into_group-head month (some r) (map some (x ∷ rs)) (group_by_month rows)

-- The group of each month of the series.
abbrev of_month : (ℕ → ℕ) → List Reimbursement → ℕ → ℕ × List (Option Reimbursement)
of_month month_of rs month = (month, held (filter (λ r. month_of r.expense_date == month) rs))

group_by_month-left_join :
    (month_of : ℕ → ℕ) (rs : List Reimbursement) (first n : ℕ)
    → group_by_month (left_join month_of rs (series_from first n))
      ≡ map (of_month month_of rs) (series_from first n)
unfolding left_join group_by_month
group_by_month-left_join month_of rs first zero = refl
group_by_month-left_join month_of rs first (suc n) =
    let rest = group_by_month-left_join month_of rs (first + 1) n in
    group_by_month-match_rows first (filter (λ r. month_of r.expense_date == first) rs)
      (left_join month_of rs (series_from (first + 1) n)) (rw rest (above first n))
    ∙ ap (λ gs. of_month month_of rs first ∷ gs) rest
  where
    above : (first n : ℕ) → Above first (map (of_month month_of rs) (series_from (first + 1) n))
    above first zero = tt
    above first (suc n) = omega arith

filter-&& :
    (f g : Reimbursement → Bool) (rs : List Reimbursement)
    → filter g (filter f rs) ≡ filter (λ r. f r && g r) rs
filter-&& f g [] = refl
filter-&& f g (r ∷ rs) = elim (Bool-cases (f r)) [
  | inl kept ↦ ground (arith, filter-&& f g rs)
  | inr left ↦ ground (arith, filter-&& f g rs)
]

-- The point of a month.
abbrev point : Library → Env → Role → ℕ → Db → ℕ → TrendPoint
point lib e role user_id db month = record {
  month = lib.month_text month;
  total = monthly_total e.month_of role user_id month db;
}

group_point-of_month :
    (lib : Library) (e : Env) (role : Role) (user_id : ℕ) (db : Db) (month : ℕ)
    → group_point lib
        (of_month e.month_of (filter (λ r. is_spent r.status) (scoped role user_id db)) month)
      ≡ point lib e role user_id db month
unfolding monthly_total active_in
group_point-of_month lib e role user_id db month =
    let all = scoped role user_id db in
    let active = filter (λ r. is_spent r.status) all in
    let mine = filter (λ r. e.month_of r.expense_date == month) active in
    rw
      (
        present-held mine,
        filter-&& (λ r. is_spent r.status) (λ r. e.month_of r.expense_date == month) all,
      )
      refl

-- The query's groups are the monthly totals.
trend_points_lem :
    (lib : Library) (e : Env) (role : Role) (user_id n : ℕ) (db : Db)
    → n ≤ this_month e
    → 1 ≤ n
    → trend_points lib e role user_id n db
      ≡ map (point lib e role user_id db) (series_from (this_month e - (n - 1)) n)
unfolding trend_points month_series
trend_points_lem lib e role user_id n db enough some_month =
    let active = filter (λ r. is_spent r.status) (scoped role user_id db) in
    let first = this_month e - (n - 1) in
    let count : this_month e + 1 - first ≡ n = omega (arith, enough, some_month) in
    rw (count, group_by_month-left_join e.month_of active first n) (go first n)
  where
    go :
        (first n : ℕ)
        → map (group_point lib) (
            map
              (of_month e.month_of (filter (λ r. is_spent r.status) (scoped role user_id db)))
              (series_from first n))
          ≡ map (point lib e role user_id db) (series_from first n)
    go first zero = refl
    go first (suc n) =
        ap₂ (λ x xs. x ∷ xs) (group_point-of_month lib e role user_id db first) (go (first + 1) n)

-- A trend over n months, at least one and not more than the calendar has had, has n points, and
-- in the join of the series with the claims, grouped by month, the point k is what MonthlyTotal
-- gives for the month that is n-1-k months before the current one, with 0 for a month without
-- claims.
pub trend_points-months :
    (lib : Library) (e : Env) (role : Role) (user_id n : ℕ) (db : Db)
    → n ≤ this_month e
    → 1 ≤ n
    → (length (trend_points lib e role user_id n db) ≡ n)
      × ((k : ℕ)
          → suc k ≤ n
          → get_elem? (trend_points lib e role user_id n db) k
            ≡ some (record {
              month = lib.month_text (this_month e - (n - 1 - k));
              total = monthly_total e.month_of role user_id (this_month e - (n - 1 - k)) db;
            }))
trend_points-months lib e role user_id n db enough some_month =
    let first = this_month e - (n - 1) in
    let points = point lib e role user_id db in
    rw (trend_points_lem lib e role user_id n db enough some_month) (
      length-map points (series_from first n) ∙ length-series_from first n,
      λ k below.
          let at : first + k ≡ this_month e - (n - 1 - k) = omega (arith, enough, below) in
          get_elem?-map points (series_from first n) k (first + k)
            (get_elem?-series_from first n k below)
          ∙ ap (λ m. some (points m)) at,
    )

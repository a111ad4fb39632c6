-- ===== src/Reimbursements/Scope.antt =====
-- Who sees which claim: scopeFilter and baseQuery of repository.go, canSee of attachments.go.
use reimbursement_system.Base.{
  ℕ, ◌≡◌, refl, sym, Bool, true, Option, none, some, List, [], ◌∷◌, arith, ◌==◌, is_some, not,
  filter, find?, find?-filter, Text,
}
use reimbursement_system.Approval.{Role, employee, manager, finance, admin, unlisted}
use reimbursement_system.Store.{User, Category, Reimbursement, Db}

-- The row of the joined query.
pub record DetailRow : Type 0 where
  pub claim : Reimbursement
  pub employee_name : Text
  pub category_name : Text
  pub category_code : Text
  pub submitter_role : Role

abbrev pub find_user : ℕ → List User → Option User
find_user id = find? (λ u. u.id == id)

abbrev pub find_category : ℕ → List Category → Option Category
find_category id = find? (λ c. c.id == id)

-- The inner joins drop a claim whose employee or category has no row.
unfoldable pub join_row : Db → Reimbursement → Option DetailRow
join_row db r = elim (find_user r.employee_id db.users) [
  | none ↦ none
  | some u ↦ elim (find_category r.category_id db.categories) [
    | none ↦ none
    | some c ↦ some (record {
      claim = r;
      employee_name = u.name;
      category_name = c.name;
      category_code = c.code;
      submitter_role = u.role;
    })
  ]
]

unfoldable pub join_rows : Db → List Reimbursement → List DetailRow
join_rows db [] = []
join_rows db (r ∷ rs) =
    let rest = join_rows db rs in elim (join_row db r) [ none ↦ rest | some row ↦ row ∷ rest ]

abbrev pub is_live : Reimbursement → Bool
is_live r = not (is_some r.deleted_at)

unfoldable pub base_query : Db → List DetailRow
base_query db = join_rows db (filter is_live db.reimbursements)

-- scopeFilter: the rows that a role may read.
unfoldable pub scope_filter : Role → ℕ → List DetailRow → List DetailRow
scope_filter manager user_id rows = rows
scope_filter finance user_id rows = rows
scope_filter admin user_id rows = rows
scope_filter employee user_id rows = filter (λ row. row.claim.employee_id == user_id) rows
scope_filter (unlisted s) user_id rows = filter (λ row. row.claim.employee_id == user_id) rows

unfoldable pub can_see : Role → ℕ → ℕ → Bool
can_see manager user_id employee_id = true
can_see finance user_id employee_id = true
can_see admin user_id employee_id = true
can_see employee user_id employee_id = user_id == employee_id
can_see (unlisted s) user_id employee_id = user_id == employee_id

filter-true : (rows : List DetailRow) → filter (λ row. true) rows ≡ rows
filter-true [] = refl
filter-true (row ∷ rows) = rw (filter-true rows)

filter_swap :
    (u : ℕ) (rows : List DetailRow)
    → filter (λ row. row.claim.employee_id == u) rows
      ≡ filter (λ row. u == row.claim.employee_id) rows
filter_swap u [] = refl
filter_swap u (row ∷ rows) = ground (arith, filter_swap u rows)

-- The filter of the queries and the check of the downloads are one rule.
pub scope_filter-can_see :
    (role : Role) (user_id : ℕ) (rows : List DetailRow)
    → scope_filter role user_id rows
      ≡ filter (λ row. can_see role user_id row.claim.employee_id) rows
unfolding scope_filter can_see
scope_filter-can_see employee u rows = filter_swap u rows
scope_filter-can_see manager u rows = sym (filter-true rows)
scope_filter-can_see finance u rows = sym (filter-true rows)
scope_filter-can_see admin u rows = sym (filter-true rows)
scope_filter-can_see (unlisted s) u rows = filter_swap u rows

-- What a scoped query returns, the caller may see: an employee only finds own claims.
pub find?-scope_filter :
    (role : Role) (user_id : ℕ) (p : DetailRow → Bool) (rows : List DetailRow) (row : DetailRow)
    → find? p (scope_filter role user_id rows) ≡ some row
    → can_see role user_id row.claim.employee_id ≡ true
find?-scope_filter role user_id p rows row h =
    find?-filter p (λ row. can_see role user_id row.claim.employee_id) rows row
      (rw (scope_filter-can_see role user_id rows) at h)

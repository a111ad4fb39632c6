-- ===== src/Listings/Staff.antt =====
-- List of backend/internal/modules/users and backend/internal/modules/categories: repository.go
-- and service.go.
use reimbursement_system.Base.{
  ℕ, Bool, true, ◌&&◌, ◌||◌, not, Option, none, some, List, [], ◌∷◌, map, length, filter,
  if◌then◌else◌, is_empty, Text, text_eq, lit,
}
use reimbursement_system.Approval.{Role, employee, manager, finance, admin, role_eq}
use reimbursement_system.AppErr.{fault, driver, internal_err}
use reimbursement_system.Store.{
  User, Category, Db, M, Result, ok, err, pure, ◌>>=◌, map_err, ask, statement, query,
}
use reimbursement_system.Requests.Paging.{Params, Order, total_pages}
use reimbursement_system.Directory.Users.{AdminUserResponse, user_response}
use reimbursement_system.Directory.Categories.{CategoryResponse, category_response, stored_limit}
use reimbursement_system.Listings.Pages.{page_rows}
use reimbursement_system.Listings.Claims.{pattern}

-- The rows in the order of a column and then of their ids.
abbrev pub Arrange : Type 0 → Type 0
Arrange A = Text → Order → List A → List A

pub record Listed (A : Type 0) : Type 0 where
  pub items : List A
  pub page : ℕ
  pub limit : ℕ
  pub total : ℕ
  pub total_pages : ℕ

abbrev pub listed : {A : Type 0} → Params → List A → ℕ → Listed A
listed p items total = record {
  items = items;
  page = p.page;
  limit = p.limit;
  total = total;
  total_pages = total_pages p total;
}

module _ (ilike : Text → Text → Bool) where
  abbrev pub matches_either : Text → Text → Text → Bool
  matches_either search a b =
      if is_empty search then true else ilike a (pattern search) || ilike b (pattern search)

  module _ (arrange : Arrange User) where
    -- The cast to the enum user_role.
    abbrev pub cast_role : Text → Option Role
    cast_role s =
        if text_eq s (lit "employee")
        then some employee
        else if text_eq s (lit "manager")
        then some manager
        else if text_eq s (lit "finance")
        then some finance
        else if text_eq s (lit "admin")
        then some admin
        else none

    abbrev pub role_test : Text → Option (User → Bool)
    role_test role =
        if is_empty role
        then some (λ u. true)
        else elim (cast_role role) [ none ↦ none | some r ↦ some (λ u. role_eq u.role r) ]

    -- applyFilters
    unfoldable pub selected_users : Params → Text → Db → Option (List User)
    selected_users p role db = elim (role_test role) [
      | none ↦ none
      | some test ↦ some (filter (λ u. matches_either p.search u.name u.email && test u) db.users)
    ]

    abbrev pub count_users : Option (List User) → Result ℕ
    count_users none = err (fault driver)
    count_users (some us) = ok (length us)

    abbrev pub users_of_page : Params → Option (List User) → Result (List User)
    users_of_page p none = err (fault driver)
    users_of_page p (some us) = ok (page_rows p (arrange p.sort p.order us))

    -- Repository.List of users
    unfoldable pub list_users : Params → Text → M (List User × ℕ)
    list_users p role = do
      total ← statement (λ t db. (count_users (selected_users p role db), db))
      rows ← statement (λ t db. (users_of_page p (selected_users p role db), db))
      pure (rows, total)

    -- Service.List of users
    unfoldable pub service_list_users : Params → Text → M (Listed AdminUserResponse)
    service_list_users p role = do
      (rows, total) ← map_err internal_err (list_users p role)
      ask (λ e. listed p (map (user_response e) rows) total)

  module _ (arrange : Arrange Category) where
    unfoldable pub selected_categories : Params → Bool → Db → List Category
    selected_categories p active_only db =
        filter
          (λ c.
            matches_either p.search c.name c.code && (if active_only then c.is_active else true))
          db.categories

    -- Repository.List of categories
    unfoldable pub list_categories : Params → Bool → M (List Category × ℕ)
    list_categories p active_only = do
      total ← query (λ db. length (selected_categories p active_only db))
      rows ← statement (λ t db.
          (ok (page_rows p (arrange p.sort p.order (selected_categories p active_only db))), db))
      pure (rows, total)

    -- Service.List of categories
    unfoldable pub service_list_categories : Params → Bool → M (Listed CategoryResponse)
    service_list_categories p is_admin = do
      (rows, total) ← map_err internal_err (list_categories p (not is_admin))
      ask (λ e.
          listed p
            (map (λ c. category_response e c (stored_limit c.monthly_limit_per_employee)) rows)
            total)

abbrev pub user_columns : List (Text × Text)
user_columns =
    (lit "name", lit "name")
    ∷ (lit "email", lit "email")
    ∷ (lit "role", lit "role")
    ∷ (lit "is_active", lit "is_active")
    ∷ (lit "created_at", lit "created_at")
    ∷ []

abbrev pub category_columns : List (Text × Text)
category_columns =
    (lit "code", lit "code")
    ∷ (lit "name", lit "name")
    ∷ (lit "is_active", lit "is_active")
    ∷ (lit "created_at", lit "created_at")
    ∷ []

-- ===== src/Directory/Categories.antt =====
-- backend/internal/modules/categories/service.go and repository.go.
use reimbursement_system.Base.{
  ℕ, Bool, true, ◌&&◌, ◌||◌, not, Option, none, some, [], ◌∷◌, ◌++◌, map, ltb, ◌==◌, ◌^◌,
  if◌then◌else◌, is_some, filter, find?, length, Text, text_eq, lit,
}
use reimbursement_system.AppErr.{Err, fault, unique_violation, driver, not_found, conflict}
use reimbursement_system.Store.{
  Category, Reimbursement, Db, Env, M, Result, ok, err, ◌>>=◌, ◌>>◌, throw_if, map_err, ask, first,
  query, statement, new_uuid,
}
use reimbursement_system.Decimal.{numeric_text}
use reimbursement_system.Reimbursements.Scope.{find_category}
use reimbursement_system.Reimbursements.Repository.{not_found_as}

-- A JSON number with the cents that PostgreSQL rounds it to.
pub record Amount : Type 0 where
  pub text : Text
  pub cents : ℕ

-- CreateRequest and UpdateRequest
pub record CategoryCreate : Type 0 where
  pub code : Text
  pub name : Text
  pub monthly_limit : Option Amount

pub record CategoryUpdate : Type 0 where
  pub name : Text
  pub monthly_limit : Option Amount
  pub is_active : Option Bool

pub record CategoryResponse : Type 0 where
  pub id : Text
  pub code : Text
  pub name : Text
  pub monthly_limit : Option Text
  pub is_active : Bool
  pub created_at : Text
  pub updated_at : Text

abbrev pub cents_of : Option Amount → Option ℕ
cents_of none = none
cents_of (some a) = some a.cents

abbrev pub text_of : Option Amount → Option Text
text_of none = none
text_of (some a) = some a.text

abbrev pub stored_limit : Option ℕ → Option Text
stored_limit none = none
stored_limit (some n) = some (numeric_text n)

-- toResponse, with the limit as the request or the row has it.
abbrev pub category_response : Env → Category → Option Text → CategoryResponse
category_response e c limit = record {
  id = e.id_text c.id;
  code = c.code;
  name = c.name;
  monthly_limit = limit;
  is_active = c.is_active;
  created_at = e.time_text c.created_at;
  updated_at = e.time_text c.updated_at;
}

-- mapUniq
abbrev pub map_uniq : Err → Err
map_uniq (fault unique_violation) = conflict (lit "Category code or name already exists")
map_uniq x = x

-- The CHECK of the limit, and what numeric(14,2) holds.
abbrev pub limit_fits : Option ℕ → Bool
limit_fits none = true
limit_fits (some n) = ltb 0 n && ltb n (10 ^ 14)

abbrev pub clashes : Category → Category → Bool
clashes new old = old.id == new.id || (text_eq old.code new.code || text_eq old.name new.name)

abbrev pub add_category : Category → ℕ → Db → Result (Unit {0}) × Db
add_category c t db =
    if limit_fits c.monthly_limit_per_employee
    then (if is_some (find? (clashes c) db.categories)
        then (err (fault unique_violation), db)
        else (ok tt, record db { categories = db.categories ++ c ∷ [] }))
    else (err (fault driver), db)

abbrev pub new_category : Env → CategoryCreate → ℕ → Category
new_category e req id = record {
  id = id;
  code = req.code;
  name = req.name;
  monthly_limit_per_employee = cents_of req.monthly_limit;
  is_active = true;
  created_at = e.now;
  updated_at = e.now;
}

-- Create
unfoldable pub create_category : CategoryCreate → M CategoryResponse
create_category req = do
  id ← new_uuid
  c ← ask (λ e. new_category e req id)
  map_err map_uniq (statement (add_category c))
  ask (λ e. category_response e c (text_of req.monthly_limit))

-- Repository.GetByID
unfoldable pub read_category : ℕ → M Category
read_category id =
    map_err (not_found_as (lit "Category not found")) (first (λ db. find_category id db.categories))

-- Get
unfoldable pub get_category : ℕ → M CategoryResponse
get_category id = do
  c ← read_category id
  ask (λ e. category_response e c (stored_limit c.monthly_limit_per_employee))

abbrev pub or_active : Option Bool → Bool → Bool
or_active none old = old
or_active (some new) old = new

abbrev pub patch_category : CategoryUpdate → Category → Category
patch_category req c = record c {
  name = req.name;
  monthly_limit_per_employee = cents_of req.monthly_limit;
  is_active = or_active req.is_active c.is_active;
}

abbrev pub write_category : Category → ℕ → Category → Category
write_category c now old =
    if old.id == c.id
    then record old {
      name = c.name;
      monthly_limit_per_employee = c.monthly_limit_per_employee;
      is_active = c.is_active;
      updated_at = now;
    }
    else old

-- Another row with the name.
abbrev pub name_taken : Category → Category → Bool
name_taken c old = not (old.id == c.id) && text_eq old.name c.name

-- Repository.Update
abbrev pub set_category : Env → Category → ℕ → Db → Result (Unit {0}) × Db
set_category e c t db =
    if limit_fits c.monthly_limit_per_employee
    then (if is_some (find? (name_taken c) db.categories)
        then (err (fault unique_violation), db)
        else (ok tt, record db { categories = map (write_category c e.now) db.categories }))
    else (err (fault driver), db)

-- Update
unfoldable pub update_category : ℕ → CategoryUpdate → M CategoryResponse
update_category id req = do
  old ← read_category id
  let c = patch_category req old
  map_err map_uniq (λ e. statement (set_category e c) e)
  ask (λ e. category_response e c (text_of req.monthly_limit))

abbrev pub refers : ℕ → Reimbursement → Bool
refers id r = r.category_id == id

-- The DELETE, which the foreign key of the claims restricts; whether a row was there.
abbrev pub remove_category : ℕ → ℕ → Db → Result Bool × Db
remove_category id t db =
    if is_some (find_category id db.categories) && is_some (find? (refers id) db.reimbursements)
    then (err (fault driver), db)
    else (
      ok (is_some (find_category id db.categories)),
      record db { categories = filter (λ (c : Category). not (c.id == id)) db.categories },
    )

-- Repository.Delete; a table that is not there yet has no references, and the tables of the model
-- are all there.
unfoldable pub delete_category : ℕ → M (Unit {0})
delete_category id = do
  refs ← query (λ db. length (filter (refers id) db.reimbursements))
  throw_if (ltb 0 refs) (conflict (lit "Cannot delete: category is used by reimbursement claims"))
  there ← statement (remove_category id)
  throw_if (not there) (not_found (lit "Category not found"))

-- ===== src/Directory/Users.antt =====
-- backend/internal/modules/users/service.go and repository.go.
use reimbursement_system.Base.{
  ℕ, Bool, true, false, ◌||◌, not, Option, none, some, [], ◌∷◌, ◌++◌, map, ◌==◌, if◌then◌else◌,
  is_some, find?, Text, text_eq, trim_space, lit,
}
use reimbursement_system.Approval.{Role, unlisted}
use reimbursement_system.AppErr.{
  Err, fault, unique_violation, driver, not_found, conflict, internal_err,
}
use reimbursement_system.Store.{
  User, Db, Env, M, Result, ok, err, ◌>>=◌, ◌>>◌, throw_if, map_err, ask, first, statement,
  new_uuid, call,
}
use reimbursement_system.Reimbursements.Scope.{find_user}
use reimbursement_system.Reimbursements.Repository.{not_found_as}

-- CreateRequest and UpdateRequest
pub record UserCreate : Type 0 where
  pub name : Text
  pub email : Text
  pub password : Text
  pub role : Role

pub record UserUpdate : Type 0 where
  pub name : Option Text
  pub role : Option Role
  pub is_active : Option Bool

pub record AdminUserResponse : Type 0 where
  pub id : Text
  pub name : Text
  pub email : Text
  pub role : Role
  pub is_active : Bool
  pub created_at : ℕ

-- toResponse
abbrev pub user_response : Env → User → AdminUserResponse
user_response e u = record {
  id = e.id_text u.id;
  name = u.name;
  email = u.email;
  role = u.role;
  is_active = u.is_active;
  created_at = u.created_at;
}

-- normEmail
abbrev pub norm_email : Env → Text → Text
norm_email e s = e.to_lower (trim_space s)

abbrev pub email_taken : Env → User → User → Bool
email_taken e new old = old.id == new.id || text_eq (e.to_lower old.email) (e.to_lower new.email)

-- The enum user_role.
abbrev pub is_listed : Role → Bool
is_listed (unlisted s) = false
is_listed r = true

-- The INSERT, with the primary key and the unique column email.
abbrev pub add_user : Env → User → ℕ → Db → Result (Unit {0}) × Db
add_user e u t db =
    if is_listed u.role
    then (if is_some (find? (email_taken e u) db.users)
        then (err (fault unique_violation), db)
        else (ok tt, record db { users = db.users ++ u ∷ [] }))
    else (err (fault driver), db)

abbrev pub email_err : Err → Err
email_err (fault unique_violation) = conflict (lit "Email already registered")
email_err x = x

-- Repository.Create
unfoldable pub insert_user : User → M (Unit {0})
insert_user u = map_err email_err (λ e. statement (add_user e u) e)

abbrev pub new_user : Env → UserCreate → ℕ → User
new_user e req id = record {
  id = id;
  name = req.name;
  email = norm_email e req.email;
  password_hash = e.hash_password req.password;
  role = req.role;
  is_active = true;
  created_at = e.now;
  updated_at = e.now;
}

-- Create; bcrypt may refuse the password.
unfoldable pub create_user : UserCreate → M AdminUserResponse
create_user req = do
  map_err internal_err (call tt)
  id ← new_uuid
  u ← ask (λ e. new_user e req id)
  insert_user u
  ask (λ e. user_response e u)

abbrev pub or_old : {A : Type 0} → Option A → A → A
or_old none old = old
or_old (some new) old = new

-- The fields that the request gives.
abbrev pub patch_user : UserUpdate → User → User
patch_user req u = record u {
  name = or_old req.name u.name;
  role = or_old req.role u.role;
  is_active = or_old req.is_active u.is_active;
}

abbrev pub write_user : User → ℕ → User → User
write_user u now old =
    if old.id == u.id
    then record old { name = u.name; role = u.role; is_active = u.is_active; updated_at = now }
    else old

-- Repository.Update; the cast to user_role refuses another text.
abbrev pub set_user : Env → User → ℕ → Db → Result (Unit {0}) × Db
set_user e u t db =
    if is_listed u.role
    then (ok tt, record db { users = map (write_user u e.now) db.users })
    else (err (fault driver), db)

-- Repository.GetByID
unfoldable pub read_user : ℕ → M User
read_user id = map_err (not_found_as (lit "User not found")) (first (λ db. find_user id db.users))

-- Update
unfoldable pub update_user : ℕ → UserUpdate → M AdminUserResponse
update_user id req = do
  old ← read_user id
  let u = patch_user req old
  (λ e. statement (set_user e u) e)
  ask (λ e. user_response e u)

abbrev pub write_password : ℕ → Text → ℕ → User → User
write_password id hash now old =
    if old.id == id then record old { password_hash = hash; updated_at = now } else old

-- Repository.UpdatePassword answers whether a row was there.
abbrev pub set_password : Env → ℕ → Text → ℕ → Db → Result Bool × Db
set_password e id hash t db = (
  ok (is_some (find_user id db.users)),
  record db { users = map (write_password id hash e.now) db.users },
)

-- ResetPassword
unfoldable pub reset_password : ℕ → Text → M (Unit {0})
reset_password id new_password = do
  map_err internal_err (call tt)
  hash ← ask (λ e. e.hash_password new_password)
  there ← λ e. statement (set_password e id hash) e
  throw_if (not there) (not_found (lit "User not found"))

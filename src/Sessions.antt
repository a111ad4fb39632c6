-- ===== src/Sessions.antt =====
-- backend/internal/modules/auth/repository.go and service.go: the sessions in Redis, with rotating
-- refresh tokens, and the logins that make them.
pub mod Families
pub mod Reuse
use reimbursement_system.Base.{
  ℕ, ◌+◌, ◌≡◌, Bool, true, false, ◌&&◌, ◌||◌, not, Option, none, some, List, [], ◌∷◌, ◌++◌,
  if◌then◌else◌, filter, find?, is_empty, Text, text_eq, trim_space, lit,
}
use reimbursement_system.Approval.{Role}
use reimbursement_system.AppErr.{
  Err, fault, record_not_found, unauthorized, forbidden, not_found, internal_err,
}
use reimbursement_system.Store.{
  User, SessionEntry, Redis, Db, Env, World, M, pure, throw, done, ◌>>=◌, ◌>>◌, throw_if, map_err,
  ignore_err, ask, first, command, random, call,
}
use reimbursement_system.Reimbursements.Scope.{find_user}
use reimbursement_system.Requests.Csrf.{split}

abbrev pub set {ℓ} : {A : Type ℓ} → Text → A → (Text → A) → Text → A
set k v f x = if text_eq x k then v else f x

abbrev pub set_jti : Text → Option SessionEntry → Redis → Redis
set_jti j v r = record r { jtis = set j v r.jtis }

-- SADD and SREM on the set of a family; the order of its members is not observed.
abbrev pub add_member : Text → Text → Redis → Redis
add_member fam j r = record r { fams = set fam (j ∷ r.fams fam) r.fams }

abbrev pub remove_member : Text → Text → Redis → Redis
remove_member fam j r = record r {
  fams = set fam (filter (λ x. not (text_eq x j)) (r.fams fam)) r.fams;
}

abbrev pub token : Text → Text → Text → Text
token fam jti secret = fam ++ b'.' ∷ jti ++ b'.' ∷ secret

-- SessionStore.Issue
unfoldable pub issue_session : ℕ → M Text
issue_session user_id = do
  fam ← random
  jti ← random
  secret ← random
  hash ← ask (λ e. e.hash_secret secret)
  command (λ r.
      (tt, add_member fam jti (set_jti jti (some (record { user_id = user_id; hash = hash })) r)))
  pure (token fam jti secret)

abbrev pub delete_all : List Text → Redis → Redis
delete_all [] r = r
delete_all (j ∷ js) r = delete_all js (set_jti j none r)

-- SessionStore.RevokeFamily; an error of SMEMBERS is dropped.
unfoldable pub revoke_family : Text → M (Unit {0})
revoke_family fam = do
  jtis ← ignore_err [] (command (λ r. (r.fams fam, r)))
  command (λ r. (tt, (let r' = delete_all jtis r in record r' { fams = set fam [] r'.fams })))

-- The sibling that a consumed entry is replaced with.
unfoldable pub issue_sibling : Text → Text → ℕ → M (Option (Text × ℕ))
issue_sibling fam jti user_id = do
  new_jti ← random
  new_secret ← random
  hash ← ask (λ e. e.hash_secret new_secret)
  command (λ r. (
    tt,
    add_member fam new_jti (
        remove_member fam jti
          (set_jti new_jti (some (record { user_id = user_id; hash = hash })) r)),
  ))
  pure (some (token fam new_jti new_secret, user_id))

abbrev pub consume : Text → Text → Text → Option SessionEntry → M (Option (Text × ℕ))
consume fam jti secret none = pure none
consume fam jti secret (some entry) = do
  hash ← ask (λ e. e.hash_secret secret)
  if text_eq entry.hash hash
      then issue_sibling fam jti entry.user_id
      else ignore_err tt (revoke_family fam) >> pure none

-- SessionStore.Rotate, with `none` for ErrUnknownToken; GETDEL takes the entry in any case, and
-- its error counts as a missing entry.
unfoldable pub rotate : Text → Text → Text → M (Option (Text × ℕ))
rotate fam jti secret = do
  entry ← ignore_err none (command (λ r. (r.jtis jti, set_jti jti none r)))
  consume fam jti secret entry

-- parseRefreshToken
abbrev pub three_parts : List Text → Option (Text × Text × Text)
three_parts (fam ∷ jti ∷ secret ∷ []) =
    if is_empty fam || (is_empty jti || is_empty secret) then none else some (fam, jti, secret)
three_parts _ = none

unfoldable pub parse_refresh_token : Text → Option (Text × Text × Text)
parse_refresh_token tok = three_parts (split tok)

pub record UserResponse : Type 0 where
  pub id : Text
  pub name : Text
  pub email : Text
  pub role : Role
  pub created_at : ℕ

-- toUserResponse
abbrev pub to_user_response : Env → User → UserResponse
to_user_response e u = record {
  id = e.id_text u.id;
  name = u.name;
  email = u.email;
  role = u.role;
  created_at = u.created_at;
}

-- Repository.GetByID and Repository.FindByEmail; the column has type citext, which compares in
-- lower case.
unfoldable pub get_by_id : ℕ → M User
get_by_id id = first (λ db. find_user id db.users)

unfoldable pub find_by_email : Text → M User
find_by_email email e =
    first (λ db. find? (λ (u : User). text_eq (e.to_lower u.email) (e.to_lower email)) db.users) e

abbrev pub login_err : Err → Err
login_err (fault record_not_found) = unauthorized (lit "Invalid email or password")
login_err x = internal_err x

-- The access token of a user: the signing may fail.
abbrev pub sign_access : User → M Text
sign_access u = do access ← ask (λ e. e.sign u e.now); map_err internal_err (call access)

-- Login, behind the validation of the request.
unfoldable pub login : Text → Text → M (UserResponse × Text × Text)
login email password = do
  email' ← ask (λ e. e.to_lower (trim_space email))
  u ← map_err login_err (find_by_email email')
  throw_if (not u.is_active) (forbidden (lit "Account is disabled"))
  matches ← ask (λ e. e.compare_password u.password_hash password)
  throw_if (not matches) (unauthorized (lit "Invalid email or password"))
  access ← sign_access u
  refresh ← map_err internal_err (issue_session u.id)
  ask (λ e. (to_user_response e u, access, refresh))

abbrev pub expired : Err
expired = unauthorized (lit "Session expired")

-- `err != nil || !u.IsActive` of the user that the session names.
abbrev pub active_user : Option User → Option User
active_user none = none
active_user (some u) = if u.is_active then some u else none

abbrev pub look_up_user : ℕ → M (Option User)
look_up_user id = ignore_err none (get_by_id id >>= λ u. pure (some u))

abbrev pub answer_refresh : Text → Text → Option User → M (UserResponse × Text × Text)
answer_refresh fam refresh none =
    ignore_err tt (revoke_family fam) >> throw (unauthorized (lit "Account unavailable"))
answer_refresh fam refresh (some u) = do
  access ← sign_access u
  ask (λ e. (to_user_response e u, access, refresh))

abbrev pub renew : Text → Option (Text × ℕ) → M (UserResponse × Text × Text)
renew fam none = ignore_err tt (revoke_family fam) >> throw expired
renew fam (some (refresh, user_id)) = do
  u ← look_up_user user_id
  answer_refresh fam refresh (active_user u)

abbrev pub refresh_parsed : Option (Text × Text × Text) → M (UserResponse × Text × Text)
refresh_parsed none = throw expired
refresh_parsed (some (fam, jti, secret)) = do
  rotated ← map_err internal_err (rotate fam jti secret)
  renew fam rotated

-- Refresh
unfoldable pub refresh : Text → M (UserResponse × Text × Text)
refresh tok = refresh_parsed (parse_refresh_token tok)

abbrev pub logout_parts : List Text → M (Unit {0})
logout_parts (fam ∷ jti ∷ secret ∷ []) = revoke_family fam
logout_parts _ = done

-- Logout
unfoldable pub logout : Text → M (Unit {0})
logout tok = logout_parts (split tok)

-- Me; any failure to read the user is a 404.
unfoldable pub me : ℕ → M UserResponse
me id = do
  u ← map_err (λ x. not_found (lit "User not found")) (get_by_id id)
  ask (λ e. to_user_response e u)

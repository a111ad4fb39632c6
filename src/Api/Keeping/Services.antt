-- ===== src/Api/Keeping/Services.antt =====
-- The services of auth, users and categories, beside the tables of claims and approval steps.
use reimbursement_system.Base.{
  ℕ, ◌+◌, refl, arith, Text, List, [], ◌∷◌, Option, none, some, not, Bool, true, false,
  if◌then◌else◌, text_eq, lit,
}
use reimbursement_system.AppErr.{Err, internal_err, not_found, unauthorized}
use reimbursement_system.Store.{
  User, Category, SessionEntry, Db, Env, pure, throw, ◌>>=◌, ◌>>◌, ask, map_err, ignore_err,
  throw_if, statement, command, call, new_uuid,
}
use reimbursement_system.Sessions.{
  UserResponse, to_user_response, expired, login, refresh, logout, logout_parts, me, get_by_id,
  find_by_email, issue_session, revoke_family, rotate, consume, issue_sibling, delete_all, set,
  set_jti, refresh_parsed, renew, answer_refresh, look_up_user, active_user, sign_access,
  parse_refresh_token,
}
use reimbursement_system.Requests.Paging.{Params}
use reimbursement_system.Listings.Staff.{
  Arrange, list_users, list_categories, service_list_users, service_list_categories,
}
use reimbursement_system.Directory.Users.{
  UserCreate, UserUpdate, create_user, insert_user, add_user, email_err, new_user, user_response,
  update_user, reset_password, read_user, set_password,
}
use reimbursement_system.Directory.Categories.{
  CategoryCreate, CategoryUpdate, create_category, update_category, get_category, read_category,
  delete_category,
}
use reimbursement_system.Api.Keeping.{
  SameRows, Spares, >>=-Spares, map_err-Spares, ignore_err-Spares, throw_if-Spares, call-Spares,
  command-Spares, statement-Spares,
}

pub me-Spares : (id : ℕ) → Spares (me id)
unfolding me get_by_id statement
me-Spares id e w = (ground arith, ground arith)

pub login-Spares : (email password : Text) → Spares (login email password)
unfolding login find_by_email statement issue_session command call
login-Spares email password e w = (ground arith, ground arith)

revoke_family-Spares : (fam : Text) → Spares (revoke_family fam)
unfolding revoke_family
revoke_family-Spares fam =
    >>=-Spares (ignore_err [] (command (λ r. (r.fams fam, r))))
      (λ jtis.
        command
          (λ r. (tt, (let r' = delete_all jtis r in record r' { fams = set fam [] r'.fams }))))
      (ignore_err-Spares [] _ (command-Spares _)) (λ jtis. command-Spares _)

logout_parts-Spares : (parts : List Text) → Spares (logout_parts parts)
logout_parts-Spares (fam ∷ jti ∷ secret ∷ []) = revoke_family-Spares fam
logout_parts-Spares [] = λ e w. (refl, refl)
logout_parts-Spares (a ∷ []) = λ e w. (refl, refl)
logout_parts-Spares (a ∷ b ∷ []) = λ e w. (refl, refl)
logout_parts-Spares (a ∷ b ∷ c ∷ d ∷ rest) = λ e w. (refl, refl)

pub logout-Spares : (tok : Text) → Spares (logout tok)
unfolding logout
logout-Spares tok = logout_parts-Spares _

issue_sibling-Spares : (fam jti : Text) (user_id : ℕ) → Spares (issue_sibling fam jti user_id)
unfolding issue_sibling command
issue_sibling-Spares fam jti user_id e w = (ground arith, ground arith)

consume-Spares :
    (fam jti secret : Text) (entry : Option SessionEntry) → Spares (consume fam jti secret entry)
consume-Spares fam jti secret none = λ e w. (refl, refl)
consume-Spares fam jti secret (some entry) =
    >>=-Spares (ask (λ e. e.hash_secret secret))
      (λ hash.
        if text_eq entry.hash hash
        then issue_sibling fam jti entry.user_id
        else ignore_err tt (revoke_family fam) >> pure none)
      (λ e w. (refl, refl)) (λ hash. either (text_eq entry.hash hash))
  where
    either :
        (b : Bool)
        → Spares (
            if b
            then issue_sibling fam jti entry.user_id
            else ignore_err tt (revoke_family fam) >> pure none)
    either true = issue_sibling-Spares fam jti entry.user_id
    either false =
        >>=-Spares (ignore_err tt (revoke_family fam)) (λ u. pure none)
          (ignore_err-Spares tt (revoke_family fam) (revoke_family-Spares fam))
          (λ u e w. (refl, refl))

rotate-Spares : (fam jti secret : Text) → Spares (rotate fam jti secret)
unfolding rotate
rotate-Spares fam jti secret =
    >>=-Spares (ignore_err none (command (λ r. (r.jtis jti, set_jti jti none r))))
      (consume fam jti secret) (ignore_err-Spares none _ (command-Spares _))
      (consume-Spares fam jti secret)

sign_access-Spares : (u : User) → Spares (sign_access u)
sign_access-Spares u =
    >>=-Spares (ask (λ e. e.sign u e.now)) (λ access. map_err internal_err (call access))
      (λ e w. (refl, refl))
      (λ access. map_err-Spares internal_err (call access) (call-Spares access))

look_up_user-Spares : (id : ℕ) → Spares (look_up_user id)
unfolding get_by_id statement
look_up_user-Spares id e w = (ground arith, ground arith)

revoked-Spares :
    (fam : Text) (x : Err)
    → Spares {A = UserResponse × Text × Text} (ignore_err tt (revoke_family fam) >> throw x)
revoked-Spares fam x =
    >>=-Spares {B = UserResponse × Text × Text} (ignore_err tt (revoke_family fam)) (λ u. throw x)
      (ignore_err-Spares tt (revoke_family fam) (revoke_family-Spares fam)) (λ u e w. (refl, refl))

answer_refresh-Spares : (fam token : Text) (u : Option User) → Spares (answer_refresh fam token u)
answer_refresh-Spares fam token none = revoked-Spares fam (unauthorized (lit "Account unavailable"))
answer_refresh-Spares fam token (some u) =
    >>=-Spares (sign_access u) (λ access. ask (λ e. (to_user_response e u, access, token)))
      (sign_access-Spares u) (λ access e w. (refl, refl))

renew-Spares : (fam : Text) (rotated : Option (Text × ℕ)) → Spares (renew fam rotated)
renew-Spares fam none = revoked-Spares fam expired
renew-Spares fam (some (token, user_id)) =
    >>=-Spares (look_up_user user_id) (λ u. answer_refresh fam token (active_user u))
      (look_up_user-Spares user_id) (λ u. answer_refresh-Spares fam token (active_user u))

refresh_parsed-Spares : (parts : Option (Text × Text × Text)) → Spares (refresh_parsed parts)
refresh_parsed-Spares none = λ e w. (refl, refl)
refresh_parsed-Spares (some (fam, jti, secret)) =
    >>=-Spares (map_err internal_err (rotate fam jti secret)) (renew fam)
      (map_err-Spares internal_err (rotate fam jti secret) (rotate-Spares fam jti secret))
      (renew-Spares fam)

pub refresh-Spares : (tok : Text) → Spares (refresh tok)
unfolding refresh
refresh-Spares tok = refresh_parsed-Spares (parse_refresh_token tok)

pub get_category-Spares : (id : ℕ) → Spares (get_category id)
unfolding get_category read_category statement
get_category-Spares id e w = (ground arith, ground arith)

pub create_category-Spares : (req : CategoryCreate) → Spares (create_category req)
unfolding create_category statement
create_category-Spares req e w = (ground arith, ground arith)

pub update_category-Spares : (id : ℕ) (req : CategoryUpdate) → Spares (update_category id req)
unfolding update_category read_category statement
update_category-Spares id req e w = (ground arith, ground arith)

pub delete_category-Spares : (id : ℕ) → Spares (delete_category id)
unfolding delete_category statement
delete_category-Spares id e w = (ground arith, ground arith)

pub update_user-Spares : (id : ℕ) (req : UserUpdate) → Spares (update_user id req)
unfolding update_user read_user statement
update_user-Spares id req e w = (ground arith, ground arith)

insert_user-Spares : (u : User) → Spares (insert_user u)
unfolding insert_user
insert_user-Spares u =
    map_err-Spares email_err (λ e. statement (add_user e u) e)
      (λ e. statement-Spares (add_user e u) (λ t db. added e t db) e)
  where
    added : (e : Env) (t : ℕ) (db : Db) → SameRows db (add_user e u t db).1
    added e t db = (ground arith, ground arith)

pub create_user-Spares : (req : UserCreate) → Spares (create_user req)
unfolding create_user
create_user-Spares req =
    >>=-Spares (map_err internal_err (call tt))
      (λ v. new_uuid >>= λ id.
        ask (λ e. new_user e req id) >>= λ u. insert_user u >> ask (λ e. user_response e u))
      (map_err-Spares internal_err (call tt) (call-Spares tt))
      (λ v e w.
        let u = new_user e req (e.fresh_id w.tick) in
        >>=-Spares (insert_user u) (λ v. ask (λ e. user_response e u)) (insert_user-Spares u)
          (λ v e w. (refl, refl)) e (record w { tick = w.tick + 1 }))

pub reset_password-Spares : (id : ℕ) (password : Text) → Spares (reset_password id password)
unfolding reset_password
reset_password-Spares id password =
    >>=-Spares (map_err internal_err (call tt))
      (λ v. ask (λ e. e.hash_password password) >>= λ hash.
        (λ e. statement (set_password e id hash) e) >>= λ there.
        throw_if (not there) (not_found (lit "User not found")))
      (map_err-Spares internal_err (call tt) (call-Spares tt))
      (λ v e w.
        >>=-Spares (λ e. statement (set_password e id (e.hash_password password)) e)
          (λ there. throw_if (not there) (not_found (lit "User not found")))
          (λ e.
            statement-Spares (set_password e id (e.hash_password password)) (λ t db. (refl, refl))
              e)
          (λ there. throw_if-Spares (not there) (not_found (lit "User not found"))) e w)

pub service_list_users-Spares :
    (ilike : Text → Text → Bool) (arrange : Arrange User) (p : Params) (role : Text)
    → Spares (service_list_users ilike arrange p role)
unfolding service_list_users list_users statement
service_list_users-Spares ilike arrange p role e w = (ground arith, ground arith)

pub service_list_categories-Spares :
    (ilike : Text → Text → Bool) (arrange : Arrange Category) (p : Params) (is_admin : Bool)
    → Spares (service_list_categories ilike arrange p is_admin)
unfolding service_list_categories list_categories statement
service_list_categories-Spares ilike arrange p is_admin e w = (ground arith, ground arith)

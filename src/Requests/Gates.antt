-- ===== src/Requests/Gates.antt =====
-- The gates of backend/internal/middleware (auth.go, csrf.go) and the error envelope of
-- backend/internal/pkg/response/response.go. The verification of the access token is a parameter.
use reimbursement_system.Base.{
  ℕ, ◌≡◌, ◌↔◌, Bool, true, false, ◌||◌, not, Option, none, some, List, [], ◌∷◌, ◌++◌, arith,
  if◌then◌else◌, is_empty, Text, text_eq, trim_space, lit,
}
use reimbursement_system.Approval.{Role, role_eq}
use reimbursement_system.Approval.Chain.{elem, role_eq_sound, role_eq_refl}
use reimbursement_system.AppErr.{Detail, Err, app, fault, unauthorized, forbidden}
use reimbursement_system.Requests.Csrf.{verify, IsSigned, split, verify_sound}

-- What the access token says of its bearer.
pub record Claims : Type 0 where
  pub user_id : ℕ
  pub role : Role
  pub name : Text

pub data Gate (A : Type 0) : Type 0 where
  passes : A → Gate A
  stops : Err → Gate A

abbrev bearer : Option Claims → Gate Claims
bearer none = stops (unauthorized (lit "Session expired"))
bearer (some claims) = passes claims

-- AuthN: the cookie access_token, if there is one.
unfoldable pub auth_n : (Text → Option Claims) → Option Text → Gate Claims
auth_n verify_token none = stops (unauthorized (lit "Authentication required"))
auth_n verify_token (some token) =
    if is_empty (trim_space token)
    then stops (unauthorized (lit "Authentication required"))
    else bearer (verify_token token)

-- RequireRole
unfoldable pub require_role : List Role → Role → Gate (Unit {0})
require_role [] role = stops (forbidden (lit "You do not have permission to perform this action"))
require_role (r ∷ roles) role =
    let rest = require_role roles role in if role_eq role r then passes tt else rest

abbrev pub is_mutating : Text → Bool
is_mutating method =
    text_eq method (lit "POST")
    || (text_eq method (lit "PUT")
        || (text_eq method (lit "PATCH") || text_eq method (lit "DELETE")))

abbrev pub is_exempt : Text → Bool
is_exempt route =
    text_eq route (lit "POST /api/v1/auth/login") || text_eq route (lit "POST /api/v1/auth/refresh")

-- CSRF; a missing cookie or header is empty.
unfoldable pub csrf_gate : (Text → Text → Text) → Text → Text → Text → Text → Text → Gate (Unit {0})
csrf_gate mac secret method path cookie header =
    if not (is_mutating method) || is_exempt (method ++ (lit " " ++ path))
    then passes tt
    else if verify mac secret cookie header
    then passes tt
    else stops (forbidden (lit "CSRF token missing or invalid"))

-- The error envelope: the status, the code, the message and the details.
pub record Envelope : Type 0 where
  pub status : ℕ
  pub code : Text
  pub message : Text
  pub details : List Detail

abbrev envelope_of : Err → Envelope
envelope_of (app e) = record {
  status = e.status;
  code = e.code;
  message = e.message;
  details = e.details;
}
envelope_of (fault f) = record {
  status = 500;
  code = lit "INTERNAL_ERROR";
  message = lit "Something went wrong";
  details = [];
}

-- response.Err
unfoldable pub error_envelope : Err → Envelope
error_envelope x = envelope_of x

-- A mutating request to a route that is not exempt passes only with a header that repeats a
-- signed cookie.
pub csrf_gate_sound :
    (mac : Text → Text → Text) (secret method path cookie header : Text)
    → is_mutating method ≡ true
    → is_exempt (method ++ (lit " " ++ path)) ≡ false
    → csrf_gate mac secret method path cookie header ≡ passes tt
    → (header ≡ cookie) × IsSigned mac secret (split cookie)
unfolding csrf_gate
csrf_gate_sound mac secret method path cookie header mutating exempt h =
    verify_sound mac secret cookie header (
      go (is_mutating method) (is_exempt (method ++ (lit " " ++ path)))
        (verify mac secret cookie header) mutating exempt h)
  where
    go :
        (m x v : Bool)
        → m ≡ true
        → x ≡ false
        → (if not m || x
            then passes tt
            else if v
            then passes tt
            else stops (forbidden (lit "CSRF token missing or invalid")))
          ≡ passes tt
        → v ≡ true
    go m x v a b c = ground arith

-- A role passes the route's gate exactly if the route lists it.
pub require_role_iff :
    (roles : List Role) (role : Role)
    → (require_role roles role ≡ passes tt) ↔ (elem role roles ≡ true)
unfolding require_role
require_role_iff [] role = (λ h. cc, λ h. cc)
require_role_iff (r ∷ roles) role =
    let ih = require_role_iff roles role in
    (
      λ h. ground (arith, ih.0, role_eq_sound role r, role_eq_refl r),
      λ h. ground (arith, ih.1, role_eq_sound r role, role_eq_refl r),
    )

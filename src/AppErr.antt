-- ===== src/AppErr.antt =====
-- The errors of backend/internal/pkg/apperr, and the error values that the database drivers give.
use reimbursement_system.Base.{ℕ, Bool, true, false, Option, none, some, List, [], ◌++◌, Text, lit}

-- What a database call may return beside an application error: gorm's ErrRecordNotFound, a
-- violated unique constraint (23505), an undefined table (42P01), any other error of the driver.
pub data Fault : Type 0 where
  record_not_found unique_violation undefined_table driver : Fault

pub record Detail : Type 0 where
  pub field : Text
  pub message : Text

pub record AppError : Type 0 where
  pub status : ℕ
  pub code : Text
  pub message : Text
  pub details : List Detail
  pub cause : Option Fault

-- A Go error value: an application error, or one of the drivers.
pub data Err : Type 0 where
  app : AppError → Err
  fault : Fault → Err

abbrev pub new : ℕ → Text → Text → AppError
new status code message = record {
  status = status;
  code = code;
  message = message;
  details = [];
  cause = none;
}

abbrev pub wrap : Fault → ℕ → Text → Text → AppError
wrap e status code message = record (new status code message) { cause = some e }

abbrev pub with_details : AppError → List Detail → AppError
with_details e details = record e { details = e.details ++ details }

abbrev pub unauthorized : Text → Err
unauthorized msg = app (new 401 (lit "UNAUTHORIZED") msg)

abbrev pub forbidden : Text → Err
forbidden msg = app (new 403 (lit "FORBIDDEN") msg)

abbrev pub not_found : Text → Err
not_found msg = app (new 404 (lit "NOT_FOUND") msg)

abbrev pub conflict : Text → Err
conflict msg = app (new 409 (lit "CONFLICT") msg)

abbrev pub validation : Text → Err
validation msg = app (new 422 (lit "VALIDATION_ERROR") msg)

abbrev pub business_rule : Text → AppError
business_rule msg = new 422 (lit "BUSINESS_RULE_VIOLATED") msg

abbrev pub internal : Fault → Err
internal e = app (wrap e 500 (lit "INTERNAL_ERROR") (lit "Something went wrong"))

-- IsUniqueViolation
abbrev pub is_unique_violation : Err → Bool
is_unique_violation (fault unique_violation) = true
is_unique_violation _ = false

-- `apperr.Internal(err)` of any error: the cause is kept for the log, and a client sees only the
-- generic text. An application error never is the cause in this program.
abbrev pub internal_err : Err → Err
internal_err (fault f) = internal f
internal_err (app e) =
    app (record (wrap driver 500 (lit "INTERNAL_ERROR") (lit "Something went wrong")) {
      cause = e.cause;
    })

-- The status of the answer: an application error keeps its own, all else becomes a 500.
abbrev pub status_of : Err → ℕ
status_of (app e) = e.status
status_of (fault f) = 500

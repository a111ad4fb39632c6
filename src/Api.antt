-- ===== src/Api.antt =====
-- The HTTP side of the program: requests, answers, the error handler of
-- backend/internal/middleware/errorhandler.go and the steps that the handlers share. Binding a
-- body, which the validator does, is a parameter.
pub mod ClaimHandlers
pub mod AccountHandlers
pub mod StaffHandlers
pub mod ViewHandlers
pub mod Router
pub mod Keeping
use reimbursement_system.Base.{
  ℕ, Bool, true, false, Option, none, some, List, [], ◌∷◌, ◌++◌, map, if◌then◌else◌, Text, text_eq,
  lit, ℤ,
}
use reimbursement_system.Approval.{Role}
use reimbursement_system.AppErr.{Err, app, fault, driver, Detail, new, with_details, unauthorized}
use reimbursement_system.Store.{User, Category, Env, World, M, Result, ok, err}
use reimbursement_system.Requests.Gates.{Claims, Envelope, error_envelope}
use reimbursement_system.Reimbursements.Repository.Detail.{DetailResponse, AttachmentResponse}
use reimbursement_system.Reimbursements.Service.{CreateRequest}
use reimbursement_system.Reimbursements.Workflow.Policy.{Config}
use reimbursement_system.Sessions.{UserResponse}
use reimbursement_system.Directory.Users.{UserCreate, UserUpdate, AdminUserResponse}
use reimbursement_system.Directory.Categories.{CategoryCreate, CategoryUpdate, CategoryResponse}
use reimbursement_system.Listings.Claims.{Sql, ListResult}
use reimbursement_system.Listings.Staff.{Arrange, Listed}
use reimbursement_system.Dashboard.{Library, SummaryResponse, TrendResponse, BreakdownResponse}
use reimbursement_system.Exports.{ExportStatus}

-- A request: the file is its name with what Open and the reader give; `within_budget` is what the
-- rate limiter of its route answers.
pub record Request : Type 0 where
  pub method : Text
  pub path : List Text
  pub query : Text → Text
  pub cookie : Text → Option Text
  pub header : Text → Text
  pub body : Text
  pub file : Option (Text × Option (Option Text))
  pub within_budget : Bool

-- validator.FieldError
pub record FieldError : Type 0 where
  pub field : Text
  pub tag : Text

-- ShouldBindJSON: the value, the fields that the validator refuses, or a body that is no JSON.
pub data Bound (A : Type 0) : Type 0 where
  bound : A → Bound A
  invalid : List FieldError → Bound A
  malformed : Bound A

-- The configuration and the libraries that the handlers use.
pub record Server : Type 0 where
  pub cfg : Config
  pub sql : Sql
  pub arrange_users : Arrange User
  pub arrange_categories : Arrange Category
  pub library : Library
  pub decimal_text : ℕ → Text
  pub bucket_exists : Bool
  pub secret : Text
  pub mac : Text → Text → Text
  pub verify_token : Text → Option Claims
  pub access_age : ℕ
  pub refresh_age : ℕ
  pub cookie_secure : Bool
  pub bind_claim : Text → Bound CreateRequest
  pub bind_note : Text → Bound Text
  pub bind_login : Text → Bound (Text × Text)
  pub bind_user : Text → Bound UserCreate
  pub bind_user_update : Text → Bound UserUpdate
  pub bind_password : Text → Bound Text
  pub bind_category : Text → Bound CategoryCreate
  pub bind_category_update : Text → Bound CategoryUpdate

-- The data of a successful answer.
pub data Payload : Type 0 where
  of_detail : DetailResponse → Payload
  of_claims : ListResult → Payload
  of_attachment : AttachmentResponse → Payload
  of_user : UserResponse → Payload
  of_admin_user : AdminUserResponse → Payload
  of_users : Listed AdminUserResponse → Payload
  of_category : CategoryResponse → Payload
  of_categories : Listed CategoryResponse → Payload
  of_summary : SummaryResponse → Payload
  of_trend : TrendResponse → Payload
  of_breakdown : BreakdownResponse → Payload
  of_export : ExportStatus → Payload
  of_token : Text → Payload
  of_health : Bool → Bool → Bool → Payload
  no_data : Payload

pub data Response : Type 0 where
  success : ℕ → Payload → Text → Response
  failure : Envelope → Response
  no_content : Response
  redirect : Text → Response
  located : Text → Response → Response
  panicked : Response
  degraded : Payload → Response
  rate_limited : Response
  no_route : Response

-- Set-Cookie
pub record Cookie : Type 0 where
  pub name : Text
  pub value : Text
  pub path : Text
  pub max_age : ℤ
  pub http_only : Bool
  pub secure : Bool
  pub same_site_strict : Bool

pub record Reply : Type 0 where
  pub response : Response
  pub cookies : List Cookie

abbrev pub Handler : Type 0
Handler = Env → World → Reply × World

-- What the middleware leaves in the context: the identity, and the parameter of the route.
pub record Ctx : Type 0 where
  pub req : Request
  pub claims : Option Claims
  pub param : Text

abbrev pub plain : Response → Reply
plain r = record { response = r; cookies = [] }

abbrev pub respond : Response → Handler
respond r e w = (plain r, w)

-- response.OK and response.Created
abbrev pub ok_with : Text → Payload → Response
ok_with message payload = success 200 payload message

abbrev pub created_with : Text → Payload → Response
created_with message payload = success 201 payload message

-- c.Error, whose last error ErrorHandler answers with, and response.Err.
unfoldable pub refuse : Err → Handler
refuse x = respond (failure (error_envelope x))

-- `res, err := svc(...); if err != nil { response.Err(c, err); return }`
unfoldable pub serving : {A : Type 0} → M A → (A → Handler) → Handler
serving m next e w = let (r, w') = m e w in elim r [ ok a ↦ next a e w' | err x ↦ refuse x e w' ]

abbrev pub answer : {A : Type 0} → M A → (A → Response) → Handler
answer m show = serving m (λ a. respond (show a))

-- validationMessage
unfoldable pub validation_message : Text → Text
validation_message tag =
    if text_eq tag (lit "required")
    then lit "is required"
    else if text_eq tag (lit "email")
    then lit "must be a valid email address"
    else if text_eq tag (lit "min")
    then lit "is too short"
    else if text_eq tag (lit "max")
    then lit "is too long"
    else lit "failed " ++ (tag ++ lit " validation")

abbrev pub detail_of : FieldError → Detail
detail_of f = record { field = f.field; message = validation_message f.tag }

-- ErrorHandler of the errors of the validator.
abbrev pub invalid_body : List FieldError → Err
invalid_body fields = app (
    with_details (new 422 (lit "VALIDATION_ERROR") (lit "Validation failed"))
      (map detail_of fields))

-- `if err := c.ShouldBindJSON(&req); err != nil { c.Error(err); return }`
unfoldable pub with_body : {A : Type 0} → Bound A → (A → Handler) → Handler
with_body (bound a) next = next a
with_body (invalid fields) next = refuse (invalid_body fields)
with_body malformed next = refuse (fault driver)

-- identity
unfoldable pub with_identity : Ctx → (Role → ℕ → Handler) → Handler
with_identity ctx next = elim ctx.claims [
  | none ↦ refuse (unauthorized (lit "Authentication required"))
  | some c ↦ next c.role c.user_id
]

-- parseID and the answer to an id that is none.
unfoldable pub with_id : Ctx → Err → (ℕ → Handler) → Handler
with_id ctx missing next e = elim (e.parse_uuid ctx.param) [
  | none ↦ refuse missing e
  | some id ↦ next id e
]

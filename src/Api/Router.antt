-- ===== src/Api/Router.antt =====
-- RegisterRoutes of each module, and New of backend/internal/server/router.go: the route of a
-- request, and the middleware before its handler.
pub mod Admission
use reimbursement_system.Base.{
  ℕ, Bool, true, false, ◌&&◌, not, Option, none, some, List, [], ◌∷◌, ◌++◌, if◌then◌else◌, Text,
  text_eq, lit, ◌||◌, is_empty,
}
use reimbursement_system.Approval.{Role, finance, admin}
use reimbursement_system.Requests.Gates.{
  Claims, Gate, passes, stops, auth_n, require_role, csrf_gate,
}
use reimbursement_system.Reimbursements.Repository.Detail.{text_or_empty}
use reimbursement_system.Api.{
  Request, Server, Ctx, Handler, no_route, rate_limited, respond, refuse,
}
use reimbursement_system.Api.ClaimHandlers.{
  list_handler, create_handler, detail_handler, update_handler, delete_handler, upload_handler,
  submit_handler, approve_handler, reject_handler, cancel_handler, pay_handler, download_handler,
}
use reimbursement_system.Api.AccountHandlers.{
  access_cookie, csrf_cookie, login_handler, refresh_handler, logout_handler, me_handler,
  csrf_handler,
}
use reimbursement_system.Api.StaffHandlers.{
  list_users_handler, create_user_handler, update_user_handler, reset_password_handler,
  list_categories_handler, get_category_handler, create_category_handler, update_category_handler,
  delete_category_handler,
}
use reimbursement_system.Api.ViewHandlers.{
  summary_handler, trend_handler, breakdown_handler, export_handler, export_status_handler,
  health_handler,
}

pub data Segment : Type 0 where
  fixed : Text → Segment
  param : Segment

-- Who may use a route: the middleware AuthN and RequireRole before its handler.
pub data Access : Type 0 where
  anyone signed_in : Access
  only : List Role → Access

pub record Route : Type 0 where
  pub method : Text
  pub pattern : List Segment
  pub access : Access
  -- loginGuard or globalGuard stands before the handler.
  pub guarded : Bool
  pub handler : Server → Ctx → Handler

abbrev get : List Segment → Access → (Server → Ctx → Handler) → Route
get pattern access h = record {
  method = lit "GET";
  pattern = pattern;
  access = access;
  guarded = true;
  handler = h;
}

abbrev post : List Segment → Access → (Server → Ctx → Handler) → Route
post pattern access h = record {
  method = lit "POST";
  pattern = pattern;
  access = access;
  guarded = true;
  handler = h;
}

abbrev patch : List Segment → Access → (Server → Ctx → Handler) → Route
patch pattern access h = record {
  method = lit "PATCH";
  pattern = pattern;
  access = access;
  guarded = true;
  handler = h;
}

abbrev delete : List Segment → Access → (Server → Ctx → Handler) → Route
delete pattern access h = record {
  method = lit "DELETE";
  pattern = pattern;
  access = access;
  guarded = true;
  handler = h;
}

-- The group /api/v1 and a group of it.
abbrev v1 : Text → List Segment → List Segment
v1 group rest = fixed (lit "api") ∷ fixed (lit "v1") ∷ fixed group ∷ rest

abbrev item : Text → List Segment
item action = param ∷ fixed action ∷ []

abbrev pub auth_routes : List Route
auth_routes =
    post (v1 (lit "auth") (fixed (lit "login") ∷ [])) anyone login_handler
    ∷ post (v1 (lit "auth") (fixed (lit "refresh") ∷ [])) anyone refresh_handler
    ∷ get (v1 (lit "auth") (fixed (lit "csrf") ∷ [])) anyone csrf_handler
    ∷ post (v1 (lit "auth") (fixed (lit "logout") ∷ [])) signed_in logout_handler
    ∷ get (v1 (lit "auth") (fixed (lit "me") ∷ [])) signed_in me_handler
    ∷ []

abbrev pub admin_only : Access
admin_only = only (admin ∷ [])

abbrev pub category_routes : List Route
category_routes =
    get (v1 (lit "categories") []) signed_in list_categories_handler
    ∷ get (v1 (lit "categories") (param ∷ [])) signed_in get_category_handler
    ∷ post (v1 (lit "categories") []) admin_only create_category_handler
    ∷ patch (v1 (lit "categories") (param ∷ [])) admin_only update_category_handler
    ∷ delete (v1 (lit "categories") (param ∷ [])) admin_only delete_category_handler
    ∷ []

abbrev pub user_routes : List Route
user_routes =
    get (v1 (lit "users") []) admin_only list_users_handler
    ∷ post (v1 (lit "users") []) admin_only create_user_handler
    ∷ patch (v1 (lit "users") (param ∷ [])) admin_only update_user_handler
    ∷ post (v1 (lit "users") (item (lit "reset-password"))) admin_only reset_password_handler
    ∷ []

abbrev pub claim_routes : List Route
claim_routes =
    get (v1 (lit "reimbursements") []) signed_in list_handler
    ∷ post (v1 (lit "reimbursements") []) signed_in create_handler
    ∷ get (v1 (lit "reimbursements") (param ∷ [])) signed_in detail_handler
    ∷ patch (v1 (lit "reimbursements") (param ∷ [])) signed_in update_handler
    ∷ delete (v1 (lit "reimbursements") (param ∷ [])) signed_in delete_handler
    ∷ post (v1 (lit "reimbursements") (item (lit "attachments"))) signed_in upload_handler
    ∷ post (v1 (lit "reimbursements") (item (lit "submit"))) signed_in submit_handler
    ∷ post (v1 (lit "reimbursements") (item (lit "approve"))) signed_in approve_handler
    ∷ post (v1 (lit "reimbursements") (item (lit "reject"))) signed_in reject_handler
    ∷ post (v1 (lit "reimbursements") (item (lit "cancel"))) signed_in cancel_handler
    ∷ post (v1 (lit "reimbursements") (item (lit "pay"))) signed_in pay_handler
    ∷ get (v1 (lit "attachments") (item (lit "download"))) signed_in download_handler
    ∷ []

abbrev pub dashboard_routes : List Route
dashboard_routes =
    get (v1 (lit "dashboard") (fixed (lit "summary") ∷ [])) signed_in summary_handler
    ∷ get (v1 (lit "dashboard") (fixed (lit "monthly-trend") ∷ [])) signed_in trend_handler
    ∷ get (v1 (lit "dashboard") (fixed (lit "category-breakdown") ∷ [])) signed_in breakdown_handler
    ∷ []

abbrev pub finance_admin : Access
finance_admin = only (finance ∷ admin ∷ [])

abbrev pub report_routes : List Route
report_routes =
    get (v1 (lit "reports") (fixed (lit "export") ∷ [])) finance_admin export_handler
    ∷ get (v1 (lit "reports") (fixed (lit "export") ∷ param ∷ [])) finance_admin
        export_status_handler
    ∷ []

abbrev pub health_route : Route
health_route = record (get (fixed (lit "healthz") ∷ []) anyone health_handler) { guarded = false }

-- The routes that New registers, without the documentation under /swagger.
unfoldable pub routes : List Route
routes =
    auth_routes
    ++ (category_routes
        ++ (user_routes
            ++ (claim_routes ++ (dashboard_routes ++ (report_routes ++ health_route ∷ [])))))

abbrev pub param_of : Segment → Text → Text → Text
param_of (fixed s) text rest = rest
param_of param text rest = text

abbrev pub takes : Segment → Text → Bool
takes (fixed s) text = text_eq s text
takes param text = not (is_empty text)

-- The parameter of a path that fits a pattern, empty if the pattern has none.
unfoldable pub fits : List Segment → List Text → Option Text
fits [] [] = some []
fits [] (text ∷ path) = none
fits (seg ∷ pattern) [] = none
fits (seg ∷ pattern) (text ∷ path) =
    let rest = fits pattern path in
    elim rest [
      | none ↦ none
      | some value ↦ if takes seg text then some (param_of seg text value) else none
    ]

abbrev pub fits_route : Text → List Text → Route → Option Text
fits_route method path r = if text_eq r.method method then fits r.pattern path else none

unfoldable pub find_route : Text → List Text → List Route → Option (Route × Text)
find_route method path [] = none
find_route method path (r ∷ rs) =
    let rest = find_route method path rs in
    elim (fits_route method path r) [ some value ↦ some (r, value) | none ↦ rest ]

-- The name of a parameter plays no part in the exemptions from the CSRF check.
abbrev pub segment_text : Segment → Text
segment_text (fixed s) = s
segment_text param = lit ":id"

-- c.FullPath
abbrev pub full_path : List Segment → Text
full_path [] = []
full_path (seg ∷ pattern) = b'/' ∷ segment_text seg ++ full_path pattern

abbrev pub path_of : Option (Route × Text) → Text
path_of none = []
path_of (some (r, value)) = full_path r.pattern

unfoldable pub through : {A : Type 0} → Gate A → (A → Handler) → Handler
through (passes a) next = next a
through (stops x) next = refuse x

module _ (srv : Server) (req : Request) where
  abbrev pub signed : Gate Claims
  signed = auth_n srv.verify_token (req.cookie access_cookie)

  abbrev pub context : Option Claims → Text → Ctx
  context claims value = record { req = req; claims = claims; param = value }

  unfoldable pub admit : Access → (Option Claims → Handler) → Handler
  admit anyone next = next none
  admit signed_in next = through signed (λ c. next (some c))
  admit (only roles) next =
      through signed (λ c. through (require_role roles c.role) (λ u. next (some c)))

  unfoldable pub dispatch : Option (Route × Text) → Handler
  dispatch none = respond no_route
  dispatch (some (r, value)) =
      if not r.guarded || req.within_budget
      then admit r.access (λ claims. r.handler srv (context claims value))
      else respond rate_limited

  abbrev pub csrf_of : Option (Route × Text) → Gate (Unit {0})
  csrf_of found =
      csrf_gate srv.mac srv.secret req.method (path_of found)
        (text_or_empty (req.cookie csrf_cookie)) (req.header (lit "X-CSRF-Token"))

  abbrev pub serve_found : Option (Route × Text) → Handler
  serve_found found = through (csrf_of found) (λ u. dispatch found)

  -- The chain of New.
  unfoldable pub serve_http : Handler
  serve_http = serve_found (find_route req.method req.path routes)

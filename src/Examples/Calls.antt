-- ===== src/Examples/Calls.antt =====
-- One HTTP request: Finance pays the approved claim.
use reimbursement_system.Base.{
  ℕ, ◌<◌, ◌≡◌, ◌≢◌, refl, inr, true, trim_space, some, none, [], ◌∷◌, List, All, length, lit, Text,
}
use reimbursement_system.Approval.{finance, step_approved}
use reimbursement_system.Store.{ApprovalStep, Env}
use reimbursement_system.Requests.Gates.{auth_n, require_role, csrf_gate}
use reimbursement_system.Requests.Csrf.{verify, split, hex_decode}
use reimbursement_system.Reimbursements.Workflow.Actions.{approve_action}
use reimbursement_system.Reimbursements.Repository.{find_claim, steps_of}
use reimbursement_system.Reimbursements.Workflow.Runs.{PrintsDates}
use reimbursement_system.Reimbursements.Effects.Keeping.{Whole}
use reimbursement_system.Reimbursements.Effects.Phases.{Move, phase}
use reimbursement_system.Reimbursements.Concurrent.Safety.{reach-Sound}
use reimbursement_system.Api.{Request, Server, refuse, serving, with_id, with_identity}
use reimbursement_system.Api.ClaimHandlers.{pay_handler}
use reimbursement_system.Api.Router.{serve_http, routes, find_route, fits, through, admit, dispatch}
use reimbursement_system.Api.Keeping.Routes.{
  serve_http_refines, serve_requests, requests_fully_approved,
}
use reimbursement_system.Examples.Tables.{workflow_runs, cfg, calm, paid_claim}
use reimbursement_system.Examples.Races.{quiet, quiet-Sound, approved_by_all, whole_run}
use reimbursement_system.Examples.Views.{server}

abbrev of_finance : Server
of_finance = record server {
  verify_token = λ t. some (record { user_id = 30; role = finance; name = lit "Citra" });
}

-- A signed token; the bytes of the nonce and of its MAC are 1.
abbrev token : Text
token = lit "01.01"

abbrev pays : Request
pays = record {
  method = lit "POST";
  path = lit "api" ∷ lit "v1" ∷ lit "reimbursements" ∷ lit "1" ∷ lit "pay" ∷ [];
  query = λ k. [];
  cookie = λ k. some token;
  header = λ k. token;
  body = [];
  file = none;
  within_budget = true;
}

-- The path names the claim.
abbrev calm_first : Env
calm_first = record calm { parse_uuid = λ s. some 1 }

first-PrintsDates : PrintsDates calm_first
unfolding lit
first-PrintsDates d = refl

approved-Whole : Whole approved_by_all.world.db
approved-Whole = (reach-Sound cfg quiet approved_by_all whole_run quiet-Sound).whole

serve_http_refines_example :
    Whole (serve_http of_finance pays calm_first approved_by_all.world).1.db
    × ((j : ℕ)
        → Move
            (phase j approved_by_all.world.db)
            (phase j (serve_http of_finance pays calm_first approved_by_all.world).1.db))
serve_http_refines_example =
    serve_http_refines of_finance pays calm_first approved_by_all.world first-PrintsDates
      approved-Whole

abbrev calls : List (Request × Env)
calls = (pays, calm_first) ∷ []

becomes_paid :
    find_claim 1 (serve_requests of_finance calls approved_by_all.world).db ≡ some paid_claim
unfolding workflow_runs approve_action lit trim_space serve_requests serve_http routes find_route
    fits through admit dispatch csrf_gate verify split hex_decode auth_n require_role pay_handler
    serving refuse with_id with_identity
becomes_paid = refl

requests_fully_approved_example :
    (0 < length (steps_of 1 (serve_requests of_finance calls approved_by_all.world).db))
    × All
        (λ (st : ApprovalStep). (st.status ≡ step_approved) × (st.approver_id ≢ some 10))
        (steps_of 1 (serve_requests of_finance calls approved_by_all.world).db)
requests_fully_approved_example =
    requests_fully_approved of_finance calls approved_by_all.world 1 paid_claim
      (first-PrintsDates, tt) approved-Whole becomes_paid (inr refl)

-- ===== src/Api/Keeping/Routes.antt =====
-- What holds of every request to the program, whatever its route.
use reimbursement_system.Base.{
  ℕ, ◌<◌, ◌≡◌, ◌≢◌, sym, ap, subst, inl, inr, ◌⊎◌, none, some, List, [], ◌∷◌, arith, length, All,
  Text, Option-cases,
}
use reimbursement_system.Approval.{approved, paid, step_approved}
use reimbursement_system.Store.{Reimbursement, ApprovalStep, Env, World}
use reimbursement_system.Reimbursements.Repository.{find_claim, steps_of}
use reimbursement_system.Reimbursements.Workflow.Runs.{PrintsDates}
use reimbursement_system.Reimbursements.Workflow.Fits.{settled-Fits}
use reimbursement_system.Reimbursements.Effects.{nothing}
use reimbursement_system.Reimbursements.Effects.Keeping.{Whole}
use reimbursement_system.Reimbursements.Effects.Phases.{Move, phase}
use reimbursement_system.Api.{Request, Server, Ctx}
use reimbursement_system.Api.Router.{Route, find_route, fits_route, routes, serve_http, context}
use reimbursement_system.Api.Router.Admission.{serve_http_outcome}
use reimbursement_system.Api.Keeping.{Effect, keeps_and_moves}
use reimbursement_system.Api.Keeping.Steps.{Makes}
use reimbursement_system.Api.Keeping.Claims.{
  list_handler-Makes, create_handler-Makes, detail_handler-Makes, update_handler-Makes,
  delete_handler-Makes, upload_handler-Makes, submit_handler-Makes, approve_handler-Makes,
  reject_handler-Makes, cancel_handler-Makes, pay_handler-Makes, download_handler-Makes,
}
use reimbursement_system.Api.Keeping.Handlers.{
  login_handler-Makes, refresh_handler-Makes, logout_handler-Makes, me_handler-Makes,
  csrf_handler-Makes, list_users_handler-Makes, create_user_handler-Makes,
  update_user_handler-Makes, reset_password_handler-Makes, list_categories_handler-Makes,
  get_category_handler-Makes, create_category_handler-Makes, update_category_handler-Makes,
  delete_category_handler-Makes, summary_handler-Makes, trend_handler-Makes,
  breakdown_handler-Makes, export_handler-Makes, export_status_handler-Makes, health_handler-Makes,
}

abbrev RouteMakes : Route → Type 0
RouteMakes r = (srv : Server) (ctx : Ctx) → Makes (r.handler srv ctx)

routes-make : All RouteMakes routes
unfolding routes
routes-make = (
  login_handler-Makes,
  (
    refresh_handler-Makes,
    (
      csrf_handler-Makes,
      (
        logout_handler-Makes,
        (
          me_handler-Makes,
          (
            list_categories_handler-Makes,
            (
              get_category_handler-Makes,
              (
                create_category_handler-Makes,
                (
                  update_category_handler-Makes,
                  (
                    delete_category_handler-Makes,
                    (
                      list_users_handler-Makes,
                      (
                        create_user_handler-Makes,
                        (
                          update_user_handler-Makes,
                          (
                            reset_password_handler-Makes,
                            (
                              list_handler-Makes,
                              (
                                create_handler-Makes,
                                (
                                  detail_handler-Makes,
                                  (
                                    update_handler-Makes,
                                    (
                                      delete_handler-Makes,
                                      (
                                        upload_handler-Makes,
                                        (
                                          submit_handler-Makes,
                                          (
                                            approve_handler-Makes,
                                            (
                                              reject_handler-Makes,
                                              (
                                                cancel_handler-Makes,
                                                (
                                                  pay_handler-Makes,
                                                  (
                                                    download_handler-Makes,
                                                    (
                                                      summary_handler-Makes,
                                                      (
                                                        trend_handler-Makes,
                                                        (
                                                          breakdown_handler-Makes,
                                                          (
                                                            export_handler-Makes,
                                                            (
                                                            export_status_handler-Makes,
                                                            (health_handler-Makes, tt),
                                                            ),
                                                          ),
                                                        ),
                                                      ),
                                                    ),
                                                  ),
                                                ),
                                              ),
                                            ),
                                          ),
                                        ),
                                      ),
                                    ),
                                  ),
                                ),
                              ),
                            ),
                          ),
                        ),
                      ),
                    ),
                  ),
                ),
              ),
            ),
          ),
        ),
      ),
    ),
  ),
)

find_route-All :
    (P : Route → Type 0) (method : Text) (path : List Text) (rs : List Route) (r : Route)
    (value : Text)
    → All P rs
    → find_route method path rs ≡ some (r, value)
    → P r
unfolding find_route
find_route-All P method path [] r value all h = absurd (ground arith)
find_route-All P method path (x ∷ rs) r value (here, rest) h =
    elim (Option-cases (fits_route method path x)) [
      | inl misses ↦ find_route-All P method path rs r value rest (rw (find_route, misses) at h)
      | inr (v, fits) ↦
          let same : x ≡ r =
            ap (λ o. elim o [ none ↦ x | some p ↦ p.0 ]) (rw (find_route, fits) at h) in
          subst P same here
    ]

-- A request makes one change of the claims and approval steps, or none.
serve_http-Effect :
    (srv : Server) (req : Request) (e : Env) (w : World)
    → PrintsDates e
    → Effect w.db (serve_http srv req e w).1.db
serve_http-Effect srv req e w printed = elim (serve_http_outcome srv req e w) [
  | inl (stopped, same) ↦ inl (nothing (ap (λ (x : World). x.db) same))
  | inr (r, value, claims, found, passed, accepts, out) ↦
      let makes = find_route-All RouteMakes req.method req.path routes r value routes-make found in
      subst (λ o. Effect w.db o.1.db) (sym out)
        (makes srv (context srv req claims value) e w printed)
]

-- If no date prints as the empty text, every HTTP request on tables that satisfy the invariant,
-- whatever its route, its sender and the statements that fail, keeps the invariant (one row for
-- each step id, every claim fits its approval steps, every step has its claim), and is for every
-- claim one move of the abstract claim or none.
pub serve_http_refines :
    (srv : Server) (req : Request) (e : Env) (w : World)
    → PrintsDates e
    → Whole w.db
    → Whole (serve_http srv req e w).1.db
      × ((j : ℕ) → Move (phase j w.db) (phase j (serve_http srv req e w).1.db))
serve_http_refines srv req e w printed whole =
    keeps_and_moves w.db (serve_http srv req e w).1.db (serve_http-Effect srv req e w printed) whole

-- The program serving requests, each in an environment of its own.
unfoldable pub serve_requests : Server → List (Request × Env) → World → World
serve_requests srv [] w = w
serve_requests srv ((req, e) ∷ rest) w = serve_requests srv rest (serve_http srv req e w).1

abbrev pub AllPrintDates : List (Request × Env) → Type 0
AllPrintDates = All (λ (q : Request × Env). PrintsDates q.1)

serve_requests-Whole :
    (srv : Server) (qs : List (Request × Env)) (w : World)
    → AllPrintDates qs
    → Whole w.db
    → Whole (serve_requests srv qs w).db
unfolding serve_requests
serve_requests-Whole srv [] w printed whole = whole
serve_requests-Whole srv ((req, e) ∷ rest) w (here, printed) whole =
    serve_requests-Whole srv rest (serve_http srv req e w).1 printed
      (serve_http_refines srv req e w here whole).0

-- From tables that satisfy the invariant, after any HTTP requests whose environments print no
-- date as the empty text, an APPROVED or PAID claim has at least one approval step, every step
-- approved, none by the owner.
pub requests_fully_approved :
    (srv : Server) (qs : List (Request × Env)) (w : World) (j : ℕ) (r : Reimbursement)
    → AllPrintDates qs
    → Whole w.db
    → find_claim j (serve_requests srv qs w).db ≡ some r
    → (r.status ≡ approved) ⊎ (r.status ≡ paid)
    → let steps = steps_of j (serve_requests srv qs w).db in
      (0 < length steps)
      × All
          (λ (st : ApprovalStep).
            (st.status ≡ step_approved) × (st.approver_id ≢ some r.employee_id))
          steps
requests_fully_approved srv qs w j r printed whole here settled =
    settled-Fits (steps_of j (serve_requests srv qs w).db) r
      ((serve_requests-Whole srv qs w printed whole).inv.fits j r here) settled

-- ===== src/Api/Keeping/Handlers.antt =====
-- The effects of the handlers of users, categories, views, exports and sessions.
use reimbursement_system.Base.{
  ℕ, sym, subst, refl, inl, inr, none, some, Option, Bool-cases, Option-cases, Text, lit, is_empty,
  ℤ, ◌&&◌,
}
use reimbursement_system.Approval.{Role}
use reimbursement_system.AppErr.{validation}
use reimbursement_system.Store.{pure, ◌>>=◌, Result-cases}
use reimbursement_system.Requests.Paging.{parse}
use reimbursement_system.Reimbursements.Effects.{nothing}
use reimbursement_system.Sessions.{login, logout, refresh, me}
use reimbursement_system.Directory.Users.{create_user, update_user, reset_password}
use reimbursement_system.Directory.Categories.{
  create_category, get_category, update_category, delete_category,
}
use reimbursement_system.Listings.Staff.{
  service_list_users, service_list_categories, user_columns, category_columns,
}
use reimbursement_system.Dashboard.{summary, monthly_trend, category_breakdown, this_month}
use reimbursement_system.Exports.{queue_export, export_status}
use reimbursement_system.Api.{Server, Ctx, Response, of_user, ok_with, refuse}
use reimbursement_system.Api.ClaimHandlers.{query_of}
use reimbursement_system.Api.AccountHandlers.{
  with_session, csrf_token, refresh_token, login_handler, refresh_handler, logout_handler,
  me_handler, csrf_handler,
}
use reimbursement_system.Api.StaffHandlers.{
  user_missing, category_missing, is_admin, list_users_handler, create_user_handler,
  update_user_handler, reset_password_handler, list_categories_handler, get_category_handler,
  create_category_handler, update_category_handler, delete_category_handler,
}
use reimbursement_system.Api.ViewHandlers.{
  probe, trend_of, asked_months, asked_month, summary_handler, trend_handler, breakdown_handler,
  export_handler, export_status_handler, health_handler,
}
use reimbursement_system.Api.Keeping.{Effect}
use reimbursement_system.Api.Keeping.Services.{
  login-Spares, refresh-Spares, logout-Spares, me-Spares, create_user-Spares, update_user-Spares,
  reset_password-Spares, create_category-Spares, get_category-Spares, update_category-Spares,
  delete_category-Spares, service_list_users-Spares, service_list_categories-Spares,
}
use reimbursement_system.Api.Keeping.Views.{
  summary-Spares, monthly_trend-Spares, category_breakdown-Spares,
}
use reimbursement_system.Api.Keeping.Files.{queue_export-Spares, export_status-Spares}
use reimbursement_system.Api.Keeping.Steps.{
  Makes, Answers, spares, refuse-Makes, serving-Makes, answer-Makes, with_body-Makes,
  with_viewer-Makes, with_id-Makes,
}

module _ (srv : Server) (ctx : Ctx) where
  pub list_users_handler-Makes : Makes (list_users_handler srv ctx)
  unfolding list_users_handler
  list_users_handler-Makes =
      answer-Makes
        (service_list_users srv.sql.ilike srv.arrange_users
          (parse (query_of ctx.req) (lit "created_at") user_columns) (ctx.req.query (lit "role")))
        _
        (spares
          (service_list_users srv.sql.ilike srv.arrange_users
            (parse (query_of ctx.req) (lit "created_at") user_columns) (ctx.req.query (lit "role")))
          (service_list_users-Spares srv.sql.ilike srv.arrange_users
            (parse (query_of ctx.req) (lit "created_at") user_columns)
            (ctx.req.query (lit "role"))))

  pub list_categories_handler-Makes : Makes (list_categories_handler srv ctx)
  unfolding list_categories_handler
  list_categories_handler-Makes =
      answer-Makes
        (service_list_categories srv.sql.ilike srv.arrange_categories
          (parse (query_of ctx.req) (lit "created_at") category_columns) (is_admin srv ctx))
        _
        (spares
          (service_list_categories srv.sql.ilike srv.arrange_categories
            (parse (query_of ctx.req) (lit "created_at") category_columns) (is_admin srv ctx))
          (service_list_categories-Spares srv.sql.ilike srv.arrange_categories
            (parse (query_of ctx.req) (lit "created_at") category_columns) (is_admin srv ctx)))

  pub create_user_handler-Makes : Makes (create_user_handler srv ctx)
  unfolding create_user_handler
  create_user_handler-Makes =
      with_body-Makes (srv.bind_user ctx.req.body) _ (λ req.
        answer-Makes (create_user req) _ (spares (create_user req) (create_user-Spares req)))

  pub update_user_handler-Makes : Makes (update_user_handler srv ctx)
  unfolding update_user_handler
  update_user_handler-Makes = with_id-Makes ctx user_missing _ (λ id.
      with_body-Makes (srv.bind_user_update ctx.req.body) _ (λ req.
        answer-Makes (update_user id req) _
          (spares (update_user id req) (update_user-Spares id req))))

  pub reset_password_handler-Makes : Makes (reset_password_handler srv ctx)
  unfolding reset_password_handler
  reset_password_handler-Makes = with_id-Makes ctx user_missing _ (λ id.
      with_body-Makes (srv.bind_password ctx.req.body) _ (λ password.
        answer-Makes (reset_password id password) _
          (spares (reset_password id password) (reset_password-Spares id password))))

  pub get_category_handler-Makes : Makes (get_category_handler srv ctx)
  unfolding get_category_handler
  get_category_handler-Makes =
      with_id-Makes ctx category_missing _
        (λ id. answer-Makes (get_category id) _ (spares (get_category id) (get_category-Spares id)))

  pub create_category_handler-Makes : Makes (create_category_handler srv ctx)
  unfolding create_category_handler
  create_category_handler-Makes = with_body-Makes (srv.bind_category ctx.req.body) _ (λ req.
      answer-Makes (create_category req) _
        (spares (create_category req) (create_category-Spares req)))

  pub update_category_handler-Makes : Makes (update_category_handler srv ctx)
  unfolding update_category_handler
  update_category_handler-Makes = with_id-Makes ctx category_missing _ (λ id.
      with_body-Makes (srv.bind_category_update ctx.req.body) _ (λ req.
        answer-Makes (update_category id req) _
          (spares (update_category id req) (update_category-Spares id req))))

  pub delete_category_handler-Makes : Makes (delete_category_handler srv ctx)
  unfolding delete_category_handler
  delete_category_handler-Makes = with_id-Makes ctx category_missing _ (λ id.
      answer-Makes (delete_category id) _ (spares (delete_category id) (delete_category-Spares id)))

  pub summary_handler-Makes : Makes (summary_handler srv ctx)
  unfolding summary_handler
  summary_handler-Makes = with_viewer-Makes ctx _ (λ role user_id.
      answer-Makes (summary srv.library role user_id) _
        (spares (summary srv.library role user_id) (summary-Spares srv.library role user_id)))

  pub breakdown_handler-Makes : Makes (breakdown_handler srv ctx)
  unfolding breakdown_handler
  breakdown_handler-Makes = with_viewer-Makes ctx _ (λ role user_id.
      answer-Makes (category_breakdown srv.library role user_id (ctx.req.query (lit "month"))) _ (
        spares (category_breakdown srv.library role user_id (ctx.req.query (lit "month")))
          (category_breakdown-Spares srv.library role user_id (ctx.req.query (lit "month")))))

  trend_of-Makes :
      (role : Role) (user_id : ℕ) (months : Option ℤ) → Makes (trend_of srv ctx role user_id months)
  trend_of-Makes role user_id none = refuse-Makes _
  trend_of-Makes role user_id (some months) =
      answer-Makes (monthly_trend srv.library srv.decimal_text role user_id months) _ (
        spares (monthly_trend srv.library srv.decimal_text role user_id months)
          (monthly_trend-Spares srv.library srv.decimal_text role user_id months))

  pub trend_handler-Makes : Makes (trend_handler srv ctx)
  unfolding trend_handler
  trend_handler-Makes = with_viewer-Makes ctx _ (λ role user_id.
      trend_of-Makes role user_id (asked_months srv ctx (ctx.req.query (lit "months"))))

  pub export_status_handler-Makes : Makes (export_status_handler srv ctx)
  unfolding export_status_handler
  export_status_handler-Makes = with_id-Makes ctx (validation (lit "invalid job id")) _ (λ id.
      answer-Makes (export_status id) _ (spares (export_status id) (export_status-Spares id)))

  pub export_handler-Makes : Makes (export_handler srv ctx)
  unfolding export_handler
  export_handler-Makes e w printed = elim (Option-cases ctx.claims) [
    | inl absent ↦ rw absent (inl (nothing refl))
    | inr (c, there) ↦
        let month =
          asked_month srv ctx (srv.library.month_text (this_month e))
            (ctx.req.query (lit "month")) in
        let status = ctx.req.query (lit "status") in
        let queue = queue_export srv.library.read_month month status c.user_id in
        rw there (
          answer-Makes queue _
            (spares queue (queue_export-Spares srv.library.read_month month status c.user_id)) e w
            printed)
  ]

  pub health_handler-Makes : Makes (health_handler srv ctx)
  unfolding health_handler
  health_handler-Makes =
      serving-Makes
        (probe >>= λ pg. probe >>= λ rd. probe >>= λ mn. pure (pg, rd, mn && srv.bucket_exists)) _
        (λ e w printed. inl (nothing refl))
        (λ (pg, rd, mn) e w. elim (Bool-cases (pg && (rd && mn))) [
          | inl up ↦ rw up refl
          | inr down ↦ rw down refl
        ])

  with_session-Answers :
      (access token : Text) (r : Response) → Answers (with_session srv access token r)
  unfolding with_session
  with_session-Answers access token r e w = refl

  pub login_handler-Makes : Makes (login_handler srv ctx)
  unfolding login_handler
  login_handler-Makes = with_body-Makes (srv.bind_login ctx.req.body) _ (λ (email, password).
      serving-Makes (login email password) _
        (spares (login email password) (login-Spares email password))
        (λ (user, access, token).
          with_session-Answers access token (ok_with (lit "Logged in") (of_user user))))

  pub logout_handler-Makes : Makes (logout_handler srv ctx)
  unfolding logout_handler
  logout_handler-Makes =
      serving-Makes (logout (refresh_token srv ctx)) _
        (spares (logout (refresh_token srv ctx)) (logout-Spares (refresh_token srv ctx)))
        (λ u e w. refl)

  pub me_handler-Makes : Makes (me_handler srv ctx)
  unfolding me_handler
  me_handler-Makes = elim (Option-cases ctx.claims) [
    | inl absent ↦ rw absent (refuse-Makes _)
    | inr (c, there) ↦
        rw there (answer-Makes (me c.user_id) _ (spares (me c.user_id) (me-Spares c.user_id)))
  ]

  pub csrf_handler-Makes : Makes (csrf_handler srv ctx)
  unfolding csrf_handler
  csrf_handler-Makes =
      serving-Makes (csrf_token srv) _ (λ e w printed. inl (nothing refl)) (λ token e w. refl)

  pub refresh_handler-Makes : Makes (refresh_handler srv ctx)
  unfolding refresh_handler refuse
  refresh_handler-Makes e w printed =
      let token = refresh_token srv ctx in
      elim (Bool-cases (is_empty token)) [
        | inl missing ↦ rw missing (inl (nothing refl))
        | inr given ↦ elim (Result-cases (refresh token e w).0) [
          | inl ((user, access, next), returned) ↦
              let shown = ok_with (lit "Session refreshed") (of_user user) in
              rw (given, returned)
                (subst (Effect w.db)
                  (sym (with_session-Answers access next shown e (refresh token e w).1))
                  (inr (refresh-Spares token e w)))
          | inr (x, thrown) ↦ rw (given, thrown) (inr (refresh-Spares token e w))
        ]
      ]

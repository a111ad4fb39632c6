-- ===== src/Api/StaffHandlers.antt =====
-- backend/internal/modules/users/handler.go and backend/internal/modules/categories/handler.go
use reimbursement_system.Base.{Bool, false, none, some, lit}
use reimbursement_system.Approval.{admin, role_eq}
use reimbursement_system.AppErr.{Err, not_found}
use reimbursement_system.Requests.Paging.{parse}
use reimbursement_system.Directory.Users.{create_user, update_user, reset_password}
use reimbursement_system.Directory.Categories.{
  create_category, get_category, update_category, delete_category,
}
use reimbursement_system.Listings.Staff.{
  service_list_users, service_list_categories, user_columns, category_columns,
}
use reimbursement_system.Api.{
  Server, Ctx, Handler, of_admin_user, of_users, of_category, of_categories, no_data, no_content,
  ok_with, created_with, answer, with_body, with_id,
}
use reimbursement_system.Api.ClaimHandlers.{query_of}

abbrev pub user_missing : Err
user_missing = not_found (lit "User not found")

abbrev pub category_missing : Err
category_missing = not_found (lit "Category not found")

module _ (srv : Server) (ctx : Ctx) where
  -- Handler.List of users
  unfoldable pub list_users_handler : Handler
  list_users_handler =
      answer
        (service_list_users srv.sql.ilike srv.arrange_users
          (parse (query_of ctx.req) (lit "created_at") user_columns) (ctx.req.query (lit "role")))
        (λ res. ok_with (lit "OK") (of_users res))

  -- Handler.Create of users
  unfoldable pub create_user_handler : Handler
  create_user_handler = with_body (srv.bind_user ctx.req.body) (λ req.
      answer (create_user req) (λ res. created_with (lit "User created") (of_admin_user res)))

  -- Handler.Update of users
  unfoldable pub update_user_handler : Handler
  update_user_handler = with_id ctx user_missing (λ id.
      with_body (srv.bind_user_update ctx.req.body) (λ req.
        answer (update_user id req) (λ res. ok_with (lit "User updated") (of_admin_user res))))

  -- Handler.ResetPassword
  unfoldable pub reset_password_handler : Handler
  reset_password_handler = with_id ctx user_missing (λ id.
      with_body (srv.bind_password ctx.req.body) (λ password.
        answer (reset_password id password) (λ u. ok_with (lit "Password reset") no_data)))

  -- `c.GetString("auth_role") == "admin"`
  abbrev pub is_admin : Bool
  is_admin = elim ctx.claims [ none ↦ false | some c ↦ role_eq c.role admin ]

  -- Handler.List of categories
  unfoldable pub list_categories_handler : Handler
  list_categories_handler =
      answer
        (service_list_categories srv.sql.ilike srv.arrange_categories
          (parse (query_of ctx.req) (lit "created_at") category_columns) is_admin)
        (λ res. ok_with (lit "OK") (of_categories res))

  -- Handler.Get of categories
  unfoldable pub get_category_handler : Handler
  get_category_handler =
      with_id ctx category_missing
        (λ id. answer (get_category id) (λ res. ok_with (lit "OK") (of_category res)))

  -- Handler.Create of categories
  unfoldable pub create_category_handler : Handler
  create_category_handler = with_body (srv.bind_category ctx.req.body) (λ req.
      answer (create_category req) (λ res. created_with (lit "Category created") (of_category res)))

  -- Handler.Update of categories
  unfoldable pub update_category_handler : Handler
  update_category_handler = with_id ctx category_missing (λ id.
      with_body (srv.bind_category_update ctx.req.body) (λ req.
        answer (update_category id req)
          (λ res. ok_with (lit "Category updated") (of_category res))))

  -- Handler.Delete of categories
  unfoldable pub delete_category_handler : Handler
  delete_category_handler =
      with_id ctx category_missing (λ id. answer (delete_category id) (λ u. no_content))

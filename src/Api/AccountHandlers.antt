-- ===== src/Api/AccountHandlers.antt =====
-- backend/internal/modules/auth/handler.go
use reimbursement_system.Base.{
  Bool, true, false, none, some, List, [], ◌∷◌, if◌then◌else◌, is_empty, Text, text_eq, lit, ℤ, pos,
  negsuc,
}
use reimbursement_system.AppErr.{unauthorized}
use reimbursement_system.Store.{M, Result, ok, err, pure, ◌>>=◌, random}
use reimbursement_system.Requests.Csrf.{issue}
use reimbursement_system.Reimbursements.Repository.Detail.{text_or_empty}
use reimbursement_system.Sessions.{login, refresh, logout, me}
use reimbursement_system.Requests.Gates.{error_envelope}
use reimbursement_system.Api.{
  Server, Ctx, Handler, Response, Cookie, of_user, of_token, failure, no_content, ok_with, refuse,
  answer, serving, with_body,
}

abbrev pub access_cookie : Text
access_cookie = lit "access_token"

abbrev pub refresh_cookie : Text
refresh_cookie = lit "refresh_token"

abbrev pub csrf_cookie : Text
csrf_cookie = lit "csrf_token"

-- sameSiteFor, true for the strict mode
abbrev pub same_site_for : Text → Bool
same_site_for name = text_eq name refresh_cookie

module _ (srv : Server) where
  -- setCookieRaw
  abbrev pub cookie_raw : Text → Text → ℤ → Bool → Text → Cookie
  cookie_raw name value max_age http_only path = record {
    name = name;
    value = value;
    path = path;
    max_age = max_age;
    http_only = http_only;
    secure = srv.cookie_secure;
    same_site_strict = same_site_for name;
  }

  -- setCookie
  abbrev pub cookie_at_root : Text → Text → ℤ → Bool → Cookie
  cookie_at_root name value max_age http_only = cookie_raw name value max_age http_only (lit "/")

  abbrev pub csrf_token : M Text
  csrf_token = do nonce ← random; pure (issue srv.mac srv.secret nonce)

  abbrev pub csrf_cookies : Text → List Cookie
  csrf_cookies token = cookie_at_root csrf_cookie token (pos srv.refresh_age) false ∷ []

  abbrev pub cookies_if : Result Text → List Cookie
  cookies_if (ok token) = csrf_cookies token
  cookies_if (err x) = []

  -- setSessionCookies and the answer after it
  unfoldable pub with_session : Text → Text → Response → Handler
  with_session access refresh r e w =
      let (token, w') = csrf_token e w in
      (
        record {
          response = r;
          cookies =
              cookie_at_root access_cookie access (pos srv.access_age) true
              ∷ cookie_raw refresh_cookie refresh (pos srv.refresh_age) true (lit "/api/v1/auth")
              ∷ cookies_if token;
        },
        w',
      )

  -- clearSessionCookies
  unfoldable pub cleared_cookies : List Cookie
  cleared_cookies =
      cookie_at_root access_cookie [] (negsuc 0) true
      ∷ cookie_at_root csrf_cookie [] (negsuc 0) false
      ∷ cookie_raw refresh_cookie [] (negsuc 0) true (lit "/api/v1/auth")
      ∷ []

  abbrev pub with_cleared : Response → Handler
  with_cleared r e w = (record { response = r; cookies = cleared_cookies }, w)

  module _ (ctx : Ctx) where
    -- Handler.Login
    unfoldable pub login_handler : Handler
    login_handler = with_body (srv.bind_login ctx.req.body) (λ (email, password).
        serving (login email password) (λ (user, access, token).
          with_session access token (ok_with (lit "Logged in") (of_user user))))

    abbrev pub refresh_token : Text
    refresh_token = text_or_empty (ctx.req.cookie refresh_cookie)

    -- Handler.Refresh; a session that is refused loses its cookies.
    unfoldable pub refresh_handler : Handler
    refresh_handler e w =
        if is_empty refresh_token
        then refuse (unauthorized (lit "Missing refresh token")) e w
        else (let (r, w') = refresh refresh_token e w in
            elim r [
              | ok (user, access, token) ↦
                  with_session access token (ok_with (lit "Session refreshed") (of_user user)) e w'
              | err x ↦ with_cleared (failure (error_envelope x)) e w'
            ])

    -- Handler.Logout
    unfoldable pub logout_handler : Handler
    logout_handler = serving (logout refresh_token) (λ u. with_cleared no_content)

    -- Handler.Me; the identity is a uuid, so the second parse succeeds.
    unfoldable pub me_handler : Handler
    me_handler = elim ctx.claims [
      | none ↦ refuse (unauthorized (lit "Authentication required"))
      | some c ↦ answer (me c.user_id) (λ user. ok_with (lit "OK") (of_user user))
    ]

    -- Handler.IssueCSRF
    unfoldable pub csrf_handler : Handler
    csrf_handler = serving csrf_token (λ token e w. (
      record { response = ok_with (lit "OK") (of_token token); cookies = csrf_cookies token },
      w,
    ))

-- ===== src/Api/ViewHandlers.antt =====
-- The handlers of backend/internal/modules/dashboard, reports and health: handler.go of each.
use reimbursement_system.Base.{
  ℕ, ◌+◌, Bool, ◌&&◌, ◌++◌, not, Option, none, some, Text, lit, is_empty, if◌then◌else◌, ℤ, pos,
}
use reimbursement_system.Approval.{Role}
use reimbursement_system.AppErr.{unauthorized, validation}
use reimbursement_system.Store.{M, ok, pure, ◌>>=◌}
use reimbursement_system.Requests.Paging.{atoi}
use reimbursement_system.Dashboard.{summary, monthly_trend, category_breakdown, this_month}
use reimbursement_system.Exports.{queue_export, export_status}
use reimbursement_system.Api.{
  Server, Ctx, Handler, of_summary, of_trend, of_breakdown, of_export, of_health, located, panicked,
  degraded, ok_with, created_with, respond, refuse, answer, serving, with_id,
}

-- identity of package dashboard
abbrev pub with_viewer : Ctx → (Role → ℕ → Handler) → Handler
with_viewer ctx next = elim ctx.claims [
  | none ↦ refuse (unauthorized (lit "Missing or invalid credentials"))
  | some c ↦ next c.role c.user_id
]

-- A probe of a service.
abbrev pub probe : M Bool
probe e w = (ok (not (e.fails w.tick)), record w { tick = w.tick + 1 })

module _ (srv : Server) (ctx : Ctx) where
  -- Handler.Summary
  unfoldable pub summary_handler : Handler
  summary_handler = with_viewer ctx (λ role user_id.
      answer (summary srv.library role user_id) (λ res. ok_with (lit "Summary") (of_summary res)))

  abbrev pub trend_of : Role → ℕ → Option ℤ → Handler
  trend_of role user_id none = refuse (validation (lit "months must be an integer"))
  trend_of role user_id (some months) =
      answer (monthly_trend srv.library srv.decimal_text role user_id months)
        (λ res. ok_with (lit "Monthly trend") (of_trend res))

  abbrev pub asked_months : Text → Option ℤ
  asked_months raw = if is_empty raw then some (pos 6) else atoi raw

  -- Handler.MonthlyTrend
  unfoldable pub trend_handler : Handler
  trend_handler =
      with_viewer ctx
        (λ role user_id. trend_of role user_id (asked_months (ctx.req.query (lit "months"))))

  -- Handler.CategoryBreakdown
  unfoldable pub breakdown_handler : Handler
  breakdown_handler = with_viewer ctx (λ role user_id.
      answer (category_breakdown srv.library role user_id (ctx.req.query (lit "month")))
        (λ res. ok_with (lit "Category breakdown") (of_breakdown res)))

  abbrev pub asked_month : Text → Text → Text
  asked_month now_month raw = if is_empty raw then now_month else raw

  -- Handler.Export; without an identity the assertion on it fails and Recover answers.
  unfoldable pub export_handler : Handler
  export_handler e = elim ctx.claims [
    | none ↦ respond panicked e
    | some c ↦
        answer
          (queue_export srv.library.read_month
            (asked_month (srv.library.month_text (this_month e)) (ctx.req.query (lit "month")))
            (ctx.req.query (lit "status")) c.user_id)
          (λ res.
            located (lit "/api/v1/reports/export/" ++ res.job_id)
              (created_with (lit "Export queued") (of_export res)))
          e
  ]

  -- Handler.ExportStatus
  unfoldable pub export_status_handler : Handler
  export_status_handler =
      with_id ctx (validation (lit "invalid job id"))
        (λ id. answer (export_status id) (λ res. ok_with (lit "Export status") (of_export res)))

  -- health.Handler
  unfoldable pub health_handler : Handler
  health_handler =
      serving (do pg ← probe; rd ← probe; mn ← probe; pure (pg, rd, mn && srv.bucket_exists))
        (λ (pg, rd, mn).
          if pg && (rd && mn)
          then respond (ok_with (lit "Healthy") (of_health pg rd mn))
          else respond (degraded (of_health pg rd mn)))

-- ===== src/Api/ClaimHandlers.antt =====
-- backend/internal/modules/reimbursements/handler.go
use reimbursement_system.Base.{
  ℕ, Bool, true, Option, none, some, if◌then◌else◌, is_empty, is_some, Text, lit,
}
use reimbursement_system.Approval.{Role}
use reimbursement_system.AppErr.{Err, not_found, validation}
use reimbursement_system.Store.{Env}
use reimbursement_system.Requests.Paging.{parse}
use reimbursement_system.Requests.Upload.{
  UploadError, too_large, empty_file, bad_mime, read_failed, Mime, png, jpeg, webp, pdf, Validated,
  accepted, refused, validate,
}
use reimbursement_system.Dashboard.{bad_request}
use reimbursement_system.Reimbursements.Service.{create, service_detail, update, delete}
use reimbursement_system.Reimbursements.Service.Files.{add_attachment, download_url}
use reimbursement_system.Reimbursements.Workflow.Actions.{
  submit_action, approve_action, reject_action, cancel_action, pay_action,
}
use reimbursement_system.Listings.Claims.{ListFilters, cast_status, claim_columns, service_list}
use reimbursement_system.Api.{
  Request, Server, Ctx, Handler, of_detail, of_claims, of_attachment, no_content, redirect, ok_with,
  created_with, refuse, answer, with_body, with_identity, with_id,
}

abbrev pub query_of : Request → reimbursement_system.Requests.Paging.Query
query_of req = record {
  page = req.query (lit "page");
  limit = req.query (lit "limit");
  search = req.query (lit "search");
  sort = req.query (lit "sort");
  order = req.query (lit "order");
}

abbrev pub claim_missing : Err
claim_missing = not_found (lit "Claim not found")

abbrev pub mime_text : Mime → Text
mime_text png = lit "image/png"
mime_text jpeg = lit "image/jpeg"
mime_text webp = lit "image/webp"
mime_text pdf = lit "application/pdf"

module _ (srv : Server) (ctx : Ctx) where
  abbrev pub filters_of : ListFilters
  filters_of = record {
    status = ctx.req.query (lit "status");
    category_id = ctx.req.query (lit "category_id");
    date_from = ctx.req.query (lit "date_from");
    date_to = ctx.req.query (lit "date_to");
  }

  abbrev pub good_status : Text → Bool
  good_status s = if is_empty s then true else is_some (cast_status s)

  abbrev pub good_category : Env → Text → Bool
  good_category e s = if is_empty s then true else is_some (e.parse_uuid s)

  -- Handler.List
  unfoldable pub list_handler : Handler
  list_handler = with_identity ctx (λ role user_id e.
      if good_status filters_of.status
      then (if good_category e filters_of.category_id
          then answer
              (service_list srv.sql (parse (query_of ctx.req) (lit "created_at") claim_columns)
                filters_of role user_id)
              (λ res. ok_with (lit "OK") (of_claims res)) e
          else refuse (validation (lit "category_id filter is invalid")) e)
      else refuse (validation (lit "status filter is invalid")) e)

  -- Handler.Create
  unfoldable pub create_handler : Handler
  create_handler = with_identity ctx (λ role user_id.
      with_body (srv.bind_claim ctx.req.body) (λ req.
        answer (create req user_id) (λ res. created_with (lit "Claim created") (of_detail res))))

  -- Handler.GetDetail
  unfoldable pub detail_handler : Handler
  detail_handler = with_identity ctx (λ role user_id.
      with_id ctx claim_missing
        (λ id. answer (service_detail id role user_id) (λ res. ok_with (lit "OK") (of_detail res))))

  -- Handler.Update
  unfoldable pub update_handler : Handler
  update_handler = with_identity ctx (λ role user_id. with_id ctx claim_missing (λ id.
      with_body (srv.bind_claim ctx.req.body) (λ req.
        answer (update id req role user_id)
          (λ res. ok_with (lit "Claim updated") (of_detail res)))))

  -- Handler.Delete
  unfoldable pub delete_handler : Handler
  delete_handler = with_identity ctx (λ role user_id.
      with_id ctx claim_missing (λ id. answer (delete id role user_id) (λ u. no_content)))

  -- The message of an error of package upload.
  abbrev pub upload_text : UploadError → Text
  upload_text too_large = lit "file exceeds 5 MB limit"
  upload_text empty_file = lit "file is empty"
  upload_text bad_mime = lit "unsupported file type (allowed: png, jpeg, webp, pdf)"
  upload_text read_failed = lit "could not read uploaded file"

  abbrev pub store_upload : ℕ → Role → ℕ → Text → Validated → Handler
  store_upload id role user_id filename (refused x) = refuse (validation (upload_text x))
  store_upload id role user_id filename (accepted content mime) =
      answer (add_attachment id role user_id filename content (mime_text mime))
        (λ res. created_with (lit "Receipt attached") (of_attachment res))

  abbrev pub read_upload : ℕ → Role → ℕ → Option (Text × Option (Option Text)) → Handler
  read_upload id role user_id none = refuse (validation (lit "file field is required"))
  read_upload id role user_id (some (filename, none)) =
      refuse (bad_request (lit "Could not read uploaded file"))
  read_upload id role user_id (some (filename, some src)) =
      store_upload id role user_id filename (validate src)

  -- Handler.UploadAttachment
  unfoldable pub upload_handler : Handler
  upload_handler =
      with_identity ctx
        (λ role user_id. with_id ctx claim_missing (λ id. read_upload id role user_id ctx.req.file))

  -- Handler.Submit
  unfoldable pub submit_handler : Handler
  submit_handler = with_identity ctx (λ role user_id. with_id ctx claim_missing (λ id.
      answer (submit_action srv.cfg id role user_id)
        (λ res. ok_with (lit "Claim submitted") (of_detail res))))

  -- Handler.Approve
  unfoldable pub approve_handler : Handler
  approve_handler = with_identity ctx (λ role user_id. with_id ctx claim_missing (λ id.
      answer (approve_action id role user_id)
        (λ res. ok_with (lit "Claim approved") (of_detail res))))

  -- Handler.Reject
  unfoldable pub reject_handler : Handler
  reject_handler = with_identity ctx (λ role user_id. with_id ctx claim_missing (λ id.
      with_body (srv.bind_note ctx.req.body) (λ note.
        answer (reject_action id role user_id note)
          (λ res. ok_with (lit "Claim rejected") (of_detail res)))))

  -- Handler.Cancel
  unfoldable pub cancel_handler : Handler
  cancel_handler = with_identity ctx (λ role user_id. with_id ctx claim_missing (λ id.
      answer (cancel_action id user_id) (λ res. ok_with (lit "Claim cancelled") (of_detail res))))

  -- Handler.Pay
  unfoldable pub pay_handler : Handler
  pay_handler = with_identity ctx (λ role user_id. with_id ctx claim_missing (λ id.
      answer (pay_action id role user_id) (λ res. ok_with (lit "Claim paid") (of_detail res))))

  -- Handler.DownloadAttachment
  unfoldable pub download_handler : Handler
  download_handler = with_identity ctx (λ role user_id.
      with_id ctx (not_found (lit "Attachment not found"))
        (λ id. answer (download_url id role user_id) (λ url. redirect url)))

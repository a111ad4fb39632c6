-- ===== src/Api/Keeping/Claims.antt =====
-- The effects of the handlers of claims.
use reimbursement_system.Base.{ℕ, inl, inr, none, some, Option, Bool-cases, Text, lit}
use reimbursement_system.Approval.{Role}
use reimbursement_system.AppErr.{not_found, validation}
use reimbursement_system.Requests.Paging.{parse}
use reimbursement_system.Requests.Upload.{Validated, refused, accepted, validate}
use reimbursement_system.Reimbursements.Service.{create, update, delete, service_detail}
use reimbursement_system.Reimbursements.Service.Files.{add_attachment, download_url}
use reimbursement_system.Reimbursements.Workflow.Actions.{
  submit_action, approve_action, reject_action, cancel_action, pay_action,
}
use reimbursement_system.Reimbursements.Concurrent.Safety.{
  reject_action-Change, cancel_action-Change, pay_action-Change,
}
use reimbursement_system.Listings.Claims.{service_list, claim_columns}
use reimbursement_system.Api.{Server, Ctx}
use reimbursement_system.Api.ClaimHandlers.{
  claim_missing, query_of, mime_text, filters_of, good_status, good_category, store_upload,
  read_upload, upload_text, list_handler, create_handler, detail_handler, update_handler,
  delete_handler, upload_handler, submit_handler, approve_handler, reject_handler, cancel_handler,
  pay_handler, download_handler,
}
use reimbursement_system.Api.Keeping.Views.{
  service_detail-Spares, service_list-Spares, download_url-Spares,
}
use reimbursement_system.Api.Keeping.Files.{add_attachment-Spares}
use reimbursement_system.Api.Keeping.Writes.{
  create-Change, update-Change, delete-Change, submit_action-Change, approve_action-Change,
}
use reimbursement_system.Api.Keeping.Steps.{
  Makes, spares, refuse-Makes, answer-Makes, with_body-Makes, with_identity-Makes, with_id-Makes,
}

module _ (srv : Server) (ctx : Ctx) where
  pub create_handler-Makes : Makes (create_handler srv ctx)
  unfolding create_handler
  create_handler-Makes = with_identity-Makes ctx _ (λ role user_id.
      with_body-Makes (srv.bind_claim ctx.req.body) _ (λ req.
        answer-Makes (create req user_id) _ (λ e w printed. inl (create-Change req user_id e w))))

  pub detail_handler-Makes : Makes (detail_handler srv ctx)
  unfolding detail_handler
  detail_handler-Makes = with_identity-Makes ctx _ (λ role user_id.
      with_id-Makes ctx claim_missing _ (λ id.
        answer-Makes (service_detail id role user_id) _
          (spares (service_detail id role user_id) (service_detail-Spares id role user_id))))

  pub update_handler-Makes : Makes (update_handler srv ctx)
  unfolding update_handler
  update_handler-Makes = with_identity-Makes ctx _ (λ role user_id.
      with_id-Makes ctx claim_missing _ (λ id.
        with_body-Makes (srv.bind_claim ctx.req.body) _ (λ req.
          answer-Makes (update id req role user_id) _
            (λ e w printed. inl (update-Change id req role user_id e w)))))

  pub delete_handler-Makes : Makes (delete_handler srv ctx)
  unfolding delete_handler
  delete_handler-Makes = with_identity-Makes ctx _ (λ role user_id.
      with_id-Makes ctx claim_missing _ (λ id.
        answer-Makes (delete id role user_id) _
          (λ e w printed. inl (delete-Change id role user_id e w))))

  pub submit_handler-Makes : Makes (submit_handler srv ctx)
  unfolding submit_handler
  submit_handler-Makes = with_identity-Makes ctx _ (λ role user_id.
      with_id-Makes ctx claim_missing _ (λ id.
        answer-Makes (submit_action srv.cfg id role user_id) _
          (λ e w printed. inl (submit_action-Change srv.cfg id role user_id e w printed))))

  pub approve_handler-Makes : Makes (approve_handler srv ctx)
  unfolding approve_handler
  approve_handler-Makes = with_identity-Makes ctx _ (λ role user_id.
      with_id-Makes ctx claim_missing _ (λ id.
        answer-Makes (approve_action id role user_id) _
          (λ e w printed. inl (approve_action-Change id role user_id e w))))

  pub reject_handler-Makes : Makes (reject_handler srv ctx)
  unfolding reject_handler
  reject_handler-Makes = with_identity-Makes ctx _ (λ role user_id.
      with_id-Makes ctx claim_missing _ (λ id.
        with_body-Makes (srv.bind_note ctx.req.body) _ (λ note.
          answer-Makes (reject_action id role user_id note) _
            (λ e w printed. inl (reject_action-Change id role user_id note e w)))))

  pub cancel_handler-Makes : Makes (cancel_handler srv ctx)
  unfolding cancel_handler
  cancel_handler-Makes = with_identity-Makes ctx _ (λ role user_id.
      with_id-Makes ctx claim_missing _ (λ id.
        answer-Makes (cancel_action id user_id) _
          (λ e w printed. inl (cancel_action-Change id user_id e w))))

  pub pay_handler-Makes : Makes (pay_handler srv ctx)
  unfolding pay_handler
  pay_handler-Makes = with_identity-Makes ctx _ (λ role user_id.
      with_id-Makes ctx claim_missing _ (λ id.
        answer-Makes (pay_action id role user_id) _
          (λ e w printed. inl (pay_action-Change id role user_id e w))))

  pub download_handler-Makes : Makes (download_handler srv ctx)
  unfolding download_handler
  download_handler-Makes = with_identity-Makes ctx _ (λ role user_id.
      with_id-Makes ctx (not_found (lit "Attachment not found")) _ (λ id.
        answer-Makes (download_url id role user_id) _
          (spares (download_url id role user_id) (download_url-Spares id role user_id))))

  store_upload-Makes :
      (id : ℕ) (role : Role) (user_id : ℕ) (filename : Text) (v : Validated)
      → Makes (store_upload srv ctx id role user_id filename v)
  store_upload-Makes id role user_id filename (refused x) =
      refuse-Makes (validation (upload_text srv ctx x))
  store_upload-Makes id role user_id filename (accepted content mime) =
      answer-Makes (add_attachment id role user_id filename content (mime_text mime)) _ (
        spares (add_attachment id role user_id filename content (mime_text mime))
          (add_attachment-Spares id role user_id filename content (mime_text mime)))

  read_upload-Makes :
      (id : ℕ) (role : Role) (user_id : ℕ) (file : Option (Text × Option (Option Text)))
      → Makes (read_upload srv ctx id role user_id file)
  read_upload-Makes id role user_id none = refuse-Makes _
  read_upload-Makes id role user_id (some (filename, none)) = refuse-Makes _
  read_upload-Makes id role user_id (some (filename, some src)) =
      store_upload-Makes id role user_id filename (validate src)

  pub upload_handler-Makes : Makes (upload_handler srv ctx)
  unfolding upload_handler
  upload_handler-Makes = with_identity-Makes ctx _ (λ role user_id.
      with_id-Makes ctx claim_missing _ (λ id. read_upload-Makes id role user_id ctx.req.file))

  pub list_handler-Makes : Makes (list_handler srv ctx)
  unfolding list_handler
  list_handler-Makes = with_identity-Makes ctx _ (λ role user_id e w printed.
      let p = parse (query_of ctx.req) (lit "created_at") claim_columns in
      let f = filters_of srv ctx in
      elim (Bool-cases (good_status srv ctx f.status)) [
        | inr bad ↦ rw bad (refuse-Makes _ e w printed)
        | inl known ↦ elim (Bool-cases (good_category srv ctx e f.category_id)) [
          | inr bad ↦ rw (known, bad) (refuse-Makes _ e w printed)
          | inl parsed ↦
              rw (known, parsed)
                (answer-Makes (service_list srv.sql p f role user_id) _
                  (spares (service_list srv.sql p f role user_id)
                    (service_list-Spares srv.sql p f role user_id))
                  e w printed)
        ]
      ])

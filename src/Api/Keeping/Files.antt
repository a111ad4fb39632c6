-- ===== src/Api/Keeping/Files.antt =====
-- The receipts of attachments.go and the exports of reports/service.go, beside the tables of claims
-- and approval steps.
use reimbursement_system.Base.{
  ℕ, ◌&&◌, text_eq, Option-cases, refl, arith, inl, inr, [], ◌++◌, not, Text, Option, none, some,
  lit, is_empty, Bool-cases, ◌+◌,
}
use reimbursement_system.Approval.{Role}
use reimbursement_system.AppErr.{internal_err, validation}
use reimbursement_system.Store.{
  AttachmentRow, Env, ReportTask, pure, ◌>>=◌, ◌>>◌, ask, map_err, throw_if, statement, command,
  call, new_uuid,
}
use reimbursement_system.Reimbursements.Service.Files.{add_attachment, read_open, attachment_row}
use reimbursement_system.Exports.{
  ExportStatus, queue_export, check_month, is_status_filter, hset, expire, job_key, enqueue_report,
  export_status, link_of, job_exists, no_job,
}
use reimbursement_system.Reimbursements.Repository.{get_detail}
use reimbursement_system.Reimbursements.Repository.Writes.{create_attachment}
use reimbursement_system.Reimbursements.Repository.Detail.{text_or_empty, attachment_response}
use reimbursement_system.Api.Keeping.{
  Spares, >>=-Spares, map_err-Spares, ignore_err-Spares, throw_if-Spares, call-Spares,
  command-Spares,
}

read_open-Spares : (id : ℕ) (role : Role) (user_id : ℕ) → Spares (read_open id role user_id)
unfolding read_open get_detail statement
read_open-Spares id role user_id e w = (ground arith, ground arith)

create_attachment-Spares : (a : AttachmentRow) → Spares (create_attachment a)
unfolding create_attachment statement
create_attachment-Spares a e w = (ground arith, ground arith)

pub add_attachment-Spares :
    (id : ℕ) (role : Role) (user_id : ℕ) (filename content mime : Text)
    → Spares (add_attachment id role user_id filename content mime)
unfolding add_attachment
add_attachment-Spares id role user_id filename content mime =
    let row = λ (e : Env) (object : ℕ) (key : Text).
      attachment_row e object id user_id key filename content mime in
    let key_of = λ (e : Env) (object : ℕ).
      lit "receipts/" ++ (e.id_text id ++ (lit "/" ++ e.id_text object)) in
    let stored = λ (key : Text). new_uuid >>= λ new. ask (λ e. row e new key) >>= λ r.
    map_err internal_err (create_attachment r) >> ask (λ e. attachment_response e r) in
    >>=-Spares (read_open id role user_id)
      (λ current. new_uuid >>= λ object.
        ask (λ e. key_of e object) >>= λ key. map_err internal_err (call tt) >> stored key)
      (read_open-Spares id role user_id)
      (λ current e w.
        >>=-Spares (map_err internal_err (call tt)) (λ u. stored (key_of e (e.fresh_id w.tick)))
          (map_err-Spares internal_err (call tt) (call-Spares tt))
          (λ u e' w'.
            let r = row e' (e'.fresh_id w'.tick) (key_of e (e.fresh_id w.tick)) in
            >>=-Spares (map_err internal_err (create_attachment r))
              (λ u. ask (λ e. attachment_response e r))
              (map_err-Spares internal_err (create_attachment r) (create_attachment-Spares r))
              (λ u e w. (refl, refl)) e' (record w' { tick = w'.tick + 1 }))
          e (record w { tick = w.tick + 1 }))

enqueue_report-Spares : (task : ReportTask) → Spares (enqueue_report task)
unfolding enqueue_report
enqueue_report-Spares task e w = elim (Bool-cases (e.fails w.tick)) [
  | inl failed ↦ rw failed (refl, refl)
  | inr ran ↦ rw ran (refl, refl)
]

check_month-Spares :
    (read_month : Text → Option ℕ) (month : Text) → Spares (check_month read_month month)
check_month-Spares read_month month = elim (Option-cases (read_month month)) [
  | inl bad ↦ rw (check_month, bad) (λ e w. (refl, refl))
  | inr (m, good) ↦ rw (check_month, good) (λ e w. (refl, refl))
]

queued-Spares :
    (task : ReportTask) (job : Text) (out : ExportStatus)
    → Spares (
        map_err internal_err (enqueue_report task)
        >> (hset (job_key job) (lit "status") (lit "queued") >> (expire (job_key job) >> pure out)))
queued-Spares task job out =
    >>=-Spares (map_err internal_err (enqueue_report task))
      (λ u. hset (job_key job) (lit "status") (lit "queued") >> (expire (job_key job) >> pure out))
      (map_err-Spares internal_err (enqueue_report task) (enqueue_report-Spares task))
      (λ u.
        >>=-Spares (hset (job_key job) (lit "status") (lit "queued"))
          (λ u. expire (job_key job) >> pure out) (ignore_err-Spares tt _ (command-Spares _))
          (λ u.
            >>=-Spares (expire (job_key job)) (λ u. pure out)
              (ignore_err-Spares tt _ (command-Spares _)) (λ u e w. (refl, refl))))

pub queue_export-Spares :
    (read_month : Text → Option ℕ) (month status : Text) (user_id : ℕ)
    → Spares (queue_export read_month month status user_id)
unfolding queue_export
queue_export-Spares read_month month status user_id =
    let unknown = validation (lit "unknown status filter") in
    let task : Text → Text → ReportTask =
      λ job by. record { job_id = job; month = month; status = status; requested_by = by } in
    let queued = λ (job by : Text).
      map_err internal_err (enqueue_report (task job by))
      >> (hset (job_key job) (lit "status") (lit "queued")
          >> (expire (job_key job)
              >> pure {A = ExportStatus}
                  (record { job_id = job; status = lit "queued"; error = []; file_url = none }))) in
    let body = new_uuid >>= λ id.
    ask (λ e. e.id_text id) >>= λ job. ask (λ e. e.id_text user_id) >>= λ by. queued job by in
    >>=-Spares (check_month read_month month)
      (λ u. throw_if (not (is_status_filter status)) unknown >> body)
      (check_month-Spares read_month month)
      (λ u.
        >>=-Spares (throw_if (not (is_status_filter status)) unknown) (λ u. body)
          (throw_if-Spares (not (is_status_filter status)) unknown)
          (λ u e w.
            queued-Spares (task (e.id_text (e.fresh_id w.tick)) (e.id_text user_id))
              (e.id_text (e.fresh_id w.tick))
              (record {
                job_id = e.id_text (e.fresh_id w.tick);
                status = lit "queued";
                error = [];
                file_url = none;
              })
              e (record w { tick = w.tick + 1 })))

link_of-Spares : (status key : Text) → Spares (link_of status key)
link_of-Spares status key = elim (Bool-cases (text_eq status (lit "done") && not (is_empty key))) [
  | inr unfinished ↦ rw unfinished (λ e w. (refl, refl))
  | inl finished ↦ rw finished (λ e w.
      >>=-Spares (map_err internal_err (call (e.presign key))) (λ url. pure (some url))
        (map_err-Spares internal_err (call (e.presign key)) (call-Spares (e.presign key)))
        (λ url e w. (refl, refl)) e w)
]

pub export_status-Spares : (id : ℕ) → Spares (export_status id)
unfolding export_status
export_status-Spares id =
    let answer = λ (job : Text) (fields : Text → Option Text) (url : Option Text).
      pure {A = ExportStatus} (record {
        job_id = job;
        status = text_or_empty (fields (lit "status"));
        error = text_or_empty (fields (lit "error"));
        file_url = url;
      }) in
    let linked = λ (job : Text) (fields : Text → Option Text).
      link_of (text_or_empty (fields (lit "status"))) (text_or_empty (fields (lit "file_key")))
      >>= answer job fields in
    let known = λ (job : Text) (fields : Text → Option Text).
      throw_if (not (job_exists fields)) no_job >> linked job fields in
    λ e.
      let job = e.id_text id in
      >>=-Spares (map_err (λ x. no_job) (command (λ r. (r.hashes (job_key job), r)))) (known job)
        (map_err-Spares (λ x. no_job) _ (command-Spares _))
        (λ fields.
          >>=-Spares (throw_if (not (job_exists fields)) no_job) (λ u. linked job fields)
            (throw_if-Spares (not (job_exists fields)) no_job)
            (λ u.
              >>=-Spares
                (link_of (text_or_empty (fields (lit "status")))
                  (text_or_empty (fields (lit "file_key"))))
                (answer job fields) (link_of-Spares _ _) (λ url e w. (refl, refl))))
        e

-- ===== src/Exports.antt =====
-- The CSV exports: backend/internal/modules/reports/service.go queues them, and
-- backend/cmd/worker/main.go makes them and sends the mails. Redis, the task queue and the bucket
-- are parts of a World; SMTP is a call that may fail.
pub mod Csv
pub mod Outcomes
pub mod File
use reimbursement_system.Base.{
  ℕ, ◌+◌, Bool, true, false, ◌&&◌, not, Option, none, some, List, [], ◌∷◌, ◌++◌, map, ◌==◌,
  if◌then◌else◌, filter, sort_by, is_empty, Text, text_eq, lit,
}
use reimbursement_system.Decimal.{numeric_text}
use reimbursement_system.Approval.{status_eq}
use reimbursement_system.AppErr.{Err, fault, driver, not_found, validation, internal_err}
use reimbursement_system.Store.{
  Db, Env, Redis, Email, ReportTask, World, M, Result, ok, err, pure, throw, done, ◌>>=◌, ◌>>◌,
  throw_if, map_err, ignore_err, ask, statement, command, call, new_uuid,
}
use reimbursement_system.Reimbursements.Scope.{DetailRow, base_query}
use reimbursement_system.Reimbursements.Repository.Detail.{text_or_empty}
use reimbursement_system.Reimbursements.Workflow.Notify.{status_text}
use reimbursement_system.Sessions.{set}
use reimbursement_system.Listings.Claims.{cast_status}
use reimbursement_system.Exports.Csv.{write_all}

pub record ExportStatus : Type 0 where
  pub job_id : Text
  pub status : Text
  pub error : Text
  pub file_url : Option Text

-- jobKey
abbrev pub job_key : Text → Text
job_key id = lit "exportjob:" ++ id

abbrev pub set_field : Text → Text → Text → Redis → Redis
set_field key field value r = record r {
  hashes = set key (set field (some value) (r.hashes key)) r.hashes;
}

-- `s.rdb.HSet(...)` and `s.rdb.Expire(...)` with their errors dropped; an expired key is absent.
abbrev pub hset : Text → Text → Text → M (Unit {0})
hset key field value = ignore_err tt (command (λ r. (tt, set_field key field value r)))

abbrev pub expire : Text → M (Unit {0})
expire key = ignore_err tt (command (λ r. (tt, r)))

-- EnqueueContext
unfoldable pub enqueue_report : ReportTask → M (Unit {0})
enqueue_report task e w =
    if e.fails w.tick
    then (err (fault driver), record w { tick = w.tick + 1 })
    else (ok tt, record w { reports = w.reports ++ task ∷ []; tick = w.tick + 1 })

abbrev pub is_status_filter : Text → Bool
is_status_filter s = elim (cast_status s) [
  | some st ↦ true
  | none ↦ if is_empty s then true else text_eq s (lit "all")
]

abbrev pub check_month : (Text → Option ℕ) → Text → M (Unit {0})
check_month read_month month = elim (read_month month) [
  | none ↦ throw (validation (lit "month must be YYYY-MM"))
  | some m ↦ done
]

-- QueueExport; `read_month` is time.Parse of YYYY-MM.
unfoldable pub queue_export : (Text → Option ℕ) → Text → Text → ℕ → M ExportStatus
queue_export read_month month status requested_by = do
  check_month read_month month
  throw_if (not (is_status_filter status)) (validation (lit "unknown status filter"))
  id ← new_uuid
  job ← ask (λ e. e.id_text id)
  by ← ask (λ e. e.id_text requested_by)
  map_err internal_err
      (enqueue_report (record { job_id = job; month = month; status = status; requested_by = by }))
  hset (job_key job) (lit "status") (lit "queued")
  expire (job_key job)
  pure (record { job_id = job; status = lit "queued"; error = []; file_url = none })

-- The three fields that the program ever sets.
abbrev pub job_exists : (Text → Option Text) → Bool
job_exists job = elim (job (lit "status")) [
  | some s ↦ true
  | none ↦ elim (job (lit "error")) [
    | some s ↦ true
    | none ↦ elim (job (lit "file_key")) [ some s ↦ true | none ↦ false ]
  ]
]

abbrev pub no_job : Err
no_job = not_found (lit "Export job not found")

-- The link of a job that is done and has a file; signing it may fail.
abbrev pub link_of : Text → Text → M (Option Text)
link_of status key =
    if text_eq status (lit "done") && not (is_empty key)
    then (ask (λ e. e.presign key) >>= λ url.
        map_err internal_err (call url) >>= λ url'. pure (some url'))
    else pure none

-- Status
unfoldable pub export_status : ℕ → M ExportStatus
export_status job_id = do
  job ← ask (λ e. e.id_text job_id)
  fields ← map_err (λ x. no_job) (command (λ r. (r.hashes (job_key job), r)))
  throw_if (not (job_exists fields)) no_job
  let status = text_or_empty (fields (lit "status"))
  url ← link_of status (text_or_empty (fields (lit "file_key")))
  pure (record {
    job_id = job;
    status = status;
    error = text_or_empty (fields (lit "error"));
    file_url = url;
  })

-- The fields that setJob writes.
abbrev pub job_written : Text → Text → Text → Redis → Redis
job_written job status err_msg r =
    let r' = set_field (job_key job) (lit "status") status r in
    if is_empty err_msg then r' else set_field (job_key job) (lit "error") err_msg r'

-- setJob
unfoldable pub set_job : Text → Text → Text → M (Unit {0})
set_job job status err_msg =
    ignore_err tt (command (λ r. (tt, job_written job status err_msg r))) >> expire (job_key job)

-- The row of a claim in the file.
abbrev pub csv_row : Env → DetailRow → Text × List Text
csv_row e row = (
  e.id_text row.claim.id,
  row.employee_name
      ∷ row.category_name
      ∷ row.claim.title
      ∷ e.date_text row.claim.expense_date
      ∷ numeric_text row.claim.amount
      ∷ status_text row.claim.status
      ∷ [],
)

abbrev pub header : Text × List Text
header = (
  lit "id",
  lit "employee"
      ∷ lit "category"
      ∷ lit "title"
      ∷ lit "expense_date"
      ∷ lit "amount"
      ∷ lit "status"
      ∷ [],
)

-- The status filter of the query: every status, or the one that the text casts to.
abbrev pub status_test : Text → Option (DetailRow → Bool)
status_test s =
    if is_empty s
    then some (λ row. true)
    else if text_eq s (lit "all")
    then some (λ row. true)
    else elim (cast_status s) [
      | none ↦ none
      | some st ↦ some (λ row. status_eq row.claim.status st)
    ]

-- The claims of the export, in the order of their creation, or none if a cast fails.
unfoldable pub export_rows : (Text → Option ℕ) → Env → Text → Text → Db → Option (List DetailRow)
export_rows read_month e month status db = elim (read_month month) [
  | none ↦ none
  | some m ↦ elim (status_test status) [
    | none ↦ none
    | some test ↦ some (
        sort_by (λ (row : DetailRow). row.claim.created_at)
          (filter (λ (row : DetailRow). e.month_of row.claim.expense_date == m && test row)
            (base_query db)))
  ]
]

abbrev pub csv_rows : Env → Option (List DetailRow) → Result (List (Text × List Text))
csv_rows e none = err (fault driver)
csv_rows e (some rows) = ok (map (csv_row e) rows)

-- queryClaims
unfoldable pub query_claims : (Text → Option ℕ) → Text → Text → M (List (Text × List Text))
query_claims read_month month status e =
    statement (λ t db. (csv_rows e (export_rows read_month e month status db), db)) e

-- PutObject into the bucket of the exports.
unfoldable pub put_object : Text → Text → M (Unit {0})
put_object key content e w =
    if e.fails w.tick
    then (err (fault driver), record w { tick = w.tick + 1 })
    else (ok tt, record w { objects = set key (some content) w.objects; tick = w.tick + 1 })

-- `if err != nil { setJob(..., "failed", err.Error()); return ... }`
unfoldable pub or_failed : {A : Type 0} → Text → (Err → Text) → M A → M A
or_failed job show m e w =
    let (r, w') = m e w in
    elim r [ ok a ↦ (ok a, w') | err x ↦ (err x, (set_job job (lit "failed") (show x) e w').1) ]

-- The key of the file.
abbrev pub report_key : Text → Text → Text
report_key month_path job = month_path ++ (b'/' ∷ job ++ lit ".csv")

-- handleReport: `month_path` is the time of the run as 2006/01, `show` is Error().
unfoldable pub handle_report : (Text → Option ℕ) → Text → (Err → Text) → ReportTask → M (Unit {0})
handle_report read_month month_path show task = do
  set_job task.job_id (lit "processing") []
  rows ← or_failed task.job_id show (query_claims read_month task.month task.status)
  let key = report_key month_path task.job_id
  or_failed task.job_id show (put_object key (write_all (header ∷ rows)))
  hset (job_key task.job_id) (lit "file_key") key
  set_job task.job_id (lit "done") []

abbrev pub crlf : Text
crlf = 13 ∷ 10 ∷ []

-- The message of handleEmail, as strings.Join makes it.
unfoldable pub email_message : Email → Text
email_message p =
    lit "From: reimbursement@mumtaz.test"
    ++ (crlf
        ++ (lit "To: "
            ++ (p.to
                ++ (crlf
                    ++ (lit "Subject: "
                        ++ (p.subject
                            ++ (crlf
                                ++ (lit "MIME-Version: 1.0"
                                    ++ (crlf
                                        ++ (lit "Content-Type: text/plain; charset=utf-8"
                                            ++ (crlf ++ (crlf ++ p.body))))))))))))

-- handleEmail, behind the decoding of its payload: the message that is handed to SMTP.
unfoldable pub handle_email : Email → M Text
handle_email p = call (email_message p)

-- ===== src/Exports/File.antt =====
-- The file that a report task of backend/cmd/worker/main.go leaves in the bucket, as a reader of
-- comma-separated records takes it apart.
use reimbursement_system.Base.{
  ℕ, ◌≡◌, refl, ap, ◌∙◌, inl, inr, true, Option, some, List, [], ◌∷◌, map, arith, Text,
  text_eq_refl, lit,
}
use reimbursement_system.Decimal.{numeric_text}
use reimbursement_system.AppErr.{Err}
use reimbursement_system.Store.{Env, ReportTask, World, is_ok}
use reimbursement_system.Reimbursements.Scope.{DetailRow}
use reimbursement_system.Reimbursements.Workflow.Notify.{status_text}
use reimbursement_system.Sessions.{set}
use reimbursement_system.Exports.{header, csv_row, export_rows, report_key, handle_report}
use reimbursement_system.Exports.Csv.{start, read_csv, write_all}
use reimbursement_system.Exports.Csv.Reading.{read_csv-write_all}
use reimbursement_system.Exports.Outcomes.{handle_report_outcome}

set_own : {A : Type 0} (k : Text) (v : A) (f : Text → A) → set k v f k ≡ v
set_own k v f = rw (text_eq_refl k) refl

read_header :
    (e : Env) (rows : List DetailRow)
    → read_csv start [] [] (write_all (header ∷ map (csv_row e) rows))
      ≡ (lit "id"
          ∷ lit "employee"
          ∷ lit "category"
          ∷ lit "title"
          ∷ lit "expense_date"
          ∷ lit "amount"
          ∷ lit "status"
          ∷ [])
        ∷ map
            (λ (row : DetailRow).
              e.id_text row.claim.id
              ∷ row.employee_name
              ∷ row.category_name
              ∷ row.claim.title
              ∷ e.date_text row.claim.expense_date
              ∷ numeric_text row.claim.amount
              ∷ status_text row.claim.status
              ∷ [])
            rows
read_header e rows =
    read_csv-write_all (header ∷ map (csv_row e) rows)
    ∙ ap (λ rs. (header.0 ∷ header.1) ∷ rs) (go rows)
  where
    go :
        (rows : List DetailRow)
        → map (λ r. r.0 ∷ r.1) (map (csv_row e) rows)
          ≡ map
              (λ (row : DetailRow).
                e.id_text row.claim.id
                ∷ row.employee_name
                ∷ row.category_name
                ∷ row.claim.title
                ∷ e.date_text row.claim.expense_date
                ∷ numeric_text row.claim.amount
                ∷ status_text row.claim.status
                ∷ [])
              rows
    go [] = refl
    go (row ∷ rows) = ap (λ rs. ((csv_row e row).0 ∷ (csv_row e row).1) ∷ rs) (go rows)

-- After a report task that succeeds, the key of its job names a file in which a reader of
-- comma-separated records that end with a line feed finds the seven names of the header and
-- then, for each claim that the task asks for, its id, the names of the employee and of the
-- category, the title, the date, the amount and the status, whatever bytes are in them.
pub report_file_lem :
    (read_month : Text → Option ℕ) (month_path : Text) (show : Err → Text) (task : ReportTask)
    (e : Env) (w : World)
    → is_ok (handle_report read_month month_path show task e w).0 ≡ true
    → (rows : List DetailRow) × (file : Text) × (export_rows read_month e task.month task.status
          w.db
        ≡ some rows)
      × ((handle_report read_month month_path show task e w).1.objects
            (report_key month_path task.job_id)
          ≡ some file)
      × (read_csv start [] [] file
          ≡ (lit "id"
              ∷ lit "employee"
              ∷ lit "category"
              ∷ lit "title"
              ∷ lit "expense_date"
              ∷ lit "amount"
              ∷ lit "status"
              ∷ [])
            ∷ map
                (λ (row : DetailRow).
                  e.id_text row.claim.id
                  ∷ row.employee_name
                  ∷ row.category_name
                  ∷ row.claim.title
                  ∷ e.date_text row.claim.expense_date
                  ∷ numeric_text row.claim.amount
                  ∷ status_text row.claim.status
                  ∷ [])
                rows)
report_file_lem read_month month_path show task e w done =
    elim (handle_report_outcome read_month month_path show task e w).1 [
      | inl (failed, kept) ↦ absurd (ground (arith, failed, done))
      | inr (ran, (rows, chosen, stored)) ↦
          let file = write_all (header ∷ map (csv_row e) rows) in
          let key = report_key month_path task.job_id in
          (
            rows,
            file,
            chosen,
            ap (λ objects. objects key) stored ∙ set_own key (some file) w.objects,
            read_header e rows,
          )
    ]

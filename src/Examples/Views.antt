-- ===== src/Examples/Views.antt =====
-- The listings, views, exports and routes, on small values.
use reimbursement_system.Base.{
  ℕ, ◌+◌, if◌then◌else◌, ◌==◌, ◌≡◌, refl, ◌≤◌, ◌<◌, ◌-◌, ◌*◌, zero, ◌⊎◌, true, false, Option, none,
  some, List, [], ◌∷◌, arith, length, map, get_elem?, All, Text, lit, suc, pos,
}
use reimbursement_system.Approval.{employee}
use reimbursement_system.Store.{Category, Db, Env, World, ReportTask, Result, ok, is_ok, command}
use reimbursement_system.Reimbursements.Scope.{DetailRow, base_query}
use reimbursement_system.Requests.Paging.{Params, Query, parse, atoi, asc, total_pages}
use reimbursement_system.Sessions.{set}
use reimbursement_system.Reimbursements.Service.{day}
use reimbursement_system.Listings.Pages.{page_rows, turned, pages_partition}
use reimbursement_system.Listings.Claims.{
  Sql, ListFilters, selected, apply_list_filters, list_claims,
}
use reimbursement_system.Listings.Claims.Sound.{Shown, list_claims_sound}
use reimbursement_system.Dashboard.{
  Library, SummaryResponse, summary, monthly_total, trend_points, this_month,
}
use reimbursement_system.Dashboard.Trend.{trend_points-months}
use reimbursement_system.Decimal.{numeric_text}
use reimbursement_system.Reimbursements.Workflow.Notify.{status_text}
use reimbursement_system.Exports.File.{report_file_lem}
use reimbursement_system.Exports.{
  handle_report, export_rows, report_key, header, csv_row, set_job, query_claims, put_object,
  or_failed,
}
use reimbursement_system.Exports.Csv.{start, read_csv, write_all}
use reimbursement_system.Exports.Outcomes.{handle_report_outcome}
use reimbursement_system.Api.{Request, Server, malformed}
use reimbursement_system.Api.Router.{serve_http}
use reimbursement_system.Api.Router.Admission.{Answered, serve_http_outcome}
use reimbursement_system.Examples.Tables
use reimbursement_system.Examples.Tables.{workflow_runs, cfg, calm, draft_claim, travel}

abbrev second_page : Params
second_page = record {
  page = 2;
  limit = 2;
  search = [];
  sort = lit "created_at";
  order = asc;
  offset = pos 2;
}

abbrev three : List ℕ
three = 7 ∷ 8 ∷ 9 ∷ []

-- Pages of two rows, in the order that a client turns them.
abbrev turns : ℕ → Query
turns k = record {
  page = if k == 0 then lit "1" else lit "2";
  limit = lit "2";
  search = [];
  sort = [];
  order = [];
}

turned_page :
    (k : ℕ) → k < 2 → ((parse (turns k) [] []).page ≡ k + 1) × ((parse (turns k) [] []).limit ≡ 2)
unfolding parse atoi lit
turned_page zero h = (refl, refl)
turned_page (suc zero) h = (refl, refl)
turned_page (suc (suc k)) h = absurd (omega arith)

reported : total_pages (parse (turns 0) [] []) 3 ≡ 2
unfolding parse atoi lit total_pages
reported = refl

pages_partition_example : turned (λ k. parse (turns k) [] []) 2 three ≡ three
pages_partition_example = pages_partition turns [] [] 2 2 three reported turned_page (omega arith)

-- A database whose ILIKE holds of every text.
abbrev loose : Sql
loose = record { ilike = λ s p. true; read_date = λ s. none; arrange = λ c o rows. rows }

abbrev unfiltered : ListFilters
unfiltered = record { status = []; category_id = []; date_from = []; date_to = [] }

abbrev first_page : Params
first_page = record second_page { page = 1; offset = pos 0 }

abbrev food : Category
food = record travel { id = 6 }

abbrev task : ReportTask
task = record { job_id = lit "j"; month = lit "m"; status = lit "all"; requested_by = lit "u" }

handle_report_outcome_example :
    let out = handle_report (λ m. some 1) (lit "2026/08") (λ x. []) task calm Tables.start in
    (out.1.db ≡ Tables.start.db)
    × (((is_ok out.0 ≡ false) × (out.1.objects ≡ Tables.start.objects))
        ⊎ ((out.0 ≡ ok tt)
            × ((rows : List DetailRow) × (export_rows
                    (λ m. some 1)
                    calm
                    (lit "m")
                    (lit "all")
                    Tables.start.db
                  ≡ some rows)
                × (out.1.objects
                    ≡ set
                        (report_key (lit "2026/08") (lit "j"))
                        (some (write_all (header ∷ map (csv_row calm) rows)))
                        Tables.start.objects))))
handle_report_outcome_example =
    handle_report_outcome (λ m. some 1) (lit "2026/08") (λ x. []) task calm Tables.start

-- The month of the draft's expense.
abbrev draft_month : Text → Option ℕ
draft_month m = some (calm.month_of draft_claim.expense_date)

report_runs :
    is_ok (handle_report draft_month (lit "2026/08") (λ x. []) task calm Tables.start).0 ≡ true
unfolding handle_report set_job query_claims export_rows put_object or_failed command workflow_runs
report_runs = refl

report_file_lem_example :
    (rows : List DetailRow) × (file : Text) × (export_rows draft_month calm
        (lit "m")
        (lit "all")
        Tables.start.db
      ≡ some rows)
    × ((handle_report draft_month (lit "2026/08") (λ x. []) task calm Tables.start).1.objects
          (report_key (lit "2026/08") (lit "j"))
        ≡ some file)
    × (read_csv start [] [] file
        ≡ (lit "id"
            ∷ lit "employee"
            ∷ lit "category"
            ∷ lit "title"
            ∷ lit "expense_date"
            ∷ lit "amount"
            ∷ lit "status"
            ∷ [])
          ∷ map
              (λ (row : DetailRow).
                calm.id_text row.claim.id
                ∷ row.employee_name
                ∷ row.category_name
                ∷ row.claim.title
                ∷ calm.date_text row.claim.expense_date
                ∷ numeric_text row.claim.amount
                ∷ status_text row.claim.status
                ∷ [])
              rows)
report_file_lem_example =
    report_file_lem draft_month (lit "2026/08") (λ x. []) task calm Tables.start report_runs

one_draft :
    list_claims loose first_page unfiltered employee 10 calm Tables.start
    ≡ (ok (base_query Tables.start.db, 1), record Tables.start { tick = 2 })
unfolding workflow_runs list_claims selected apply_list_filters page_rows
one_draft = refl

list_claims_sound_example :
    (Tables.start.db ≡ Tables.start.db)
    × (length (base_query Tables.start.db) ≤ 2)
    × All (Shown loose calm first_page unfiltered employee 10) (base_query Tables.start.db)
    × ((all : List DetailRow) × (selected loose calm first_page unfiltered employee 10
            Tables.start.db
          ≡ some all)
        × (1 ≡ length all))
list_claims_sound_example =
    list_claims_sound loose first_page unfiltered employee 10 calm Tables.start
      (record Tables.start { tick = 2 }) (base_query Tables.start.db) 1 (λ c o rows row m. m)
      one_draft

-- A text in which every byte follows a 1, and which ends with a 0.
abbrev put : Text → Text → Text
put [] rest = 0 ∷ rest
put (c ∷ s) rest = 1 ∷ c ∷ put s rest

abbrev longer : ℕ → Option (Text × Text) → Option (Text × Text)
longer c none = none
longer c (some (s, rest)) = some (c ∷ s, rest)

abbrev take_text : Text → Option (Text × Text)
take_text [] = none
take_text (zero ∷ rest) = some ([], rest)
take_text (suc n ∷ []) = none
take_text (suc n ∷ c ∷ rest) = longer c (take_text rest)

abbrev rate_read : Text → Option Text
rate_read [] = none
rate_read (c ∷ s) = some s

abbrev summary_read : ℕ → Option (Text × Text) → Option SummaryResponse
summary_read n none = none
summary_read n (some (total, rest)) =
    some (record { pending_count = n; monthly_total = total; approval_rate = rate_read rest })

abbrev summary_unmarshal : Text → Option SummaryResponse
summary_unmarshal [] = none
summary_unmarshal (n ∷ s) = summary_read n (take_text s)

abbrev rate_text : Option Text → Text
rate_text none = []
rate_text (some r) = 1 ∷ r

abbrev library : Library
library = record {
  month_text = λ m. m ∷ [];
  read_month = λ s. some 1;
  rate = λ a b. a ∷ b ∷ [];
  arrange = λ items. items;
  summary = record {
    marshal = λ s. s.pending_count ∷ put s.monthly_total (rate_text s.approval_rate);
    unmarshal = summary_unmarshal;
  };
  trend = record { marshal = λ r. []; unmarshal = λ s. none };
  breakdown = record { marshal = λ r. []; unmarshal = λ s. none };
}

-- Ids print as one byte each.
abbrev numbered : Env
numbered = record calm { id_text = λ i. i ∷ [] }

abbrev own_summary : Result SummaryResponse × World
own_summary = summary library employee 10 numbered Tables.start

-- The one state that the summaries of the example are made in.
abbrev Seen : Env → Db → Type 0
Seen e db = (e ≡ numbered) × (db ≡ Tables.start.db)

abbrev in_may : Env
in_may = record calm { now = 900 * day }

trend_points-months_example :
    (length (trend_points library in_may employee 10 3 Tables.start.db) ≡ 3)
    × ((k : ℕ)
        → suc k ≤ 3
        → get_elem? (trend_points library in_may employee 10 3 Tables.start.db) k
          ≡ some (record {
            month = library.month_text (this_month in_may - (2 - k));
            total =
                monthly_total in_may.month_of employee 10
                  (this_month in_may - (2 - k))
                  Tables.start.db;
          }))
trend_points-months_example =
    trend_points-months library in_may employee 10 3 Tables.start.db (omega arith) (omega arith)

abbrev pub server : Server
server = record {
  cfg = cfg;
  sql = loose;
  arrange_users = λ c o us. us;
  arrange_categories = λ c o cs. cs;
  library = library;
  decimal_text = λ n. n ∷ [];
  bucket_exists = true;
  secret = lit "s";
  mac = λ k m. m;
  verify_token = λ t. some (record { user_id = 10; role = employee; name = lit "Ani" });
  access_age = 900;
  refresh_age = 604800;
  cookie_secure = true;
  bind_claim = λ b. malformed;
  bind_note = λ b. malformed;
  bind_login = λ b. malformed;
  bind_user = λ b. malformed;
  bind_user_update = λ b. malformed;
  bind_password = λ b. malformed;
  bind_category = λ b. malformed;
  bind_category_update = λ b. malformed;
}

-- The employee asks for the claim.
abbrev asks_detail : Request
asks_detail = record {
  method = lit "GET";
  path = lit "api" ∷ lit "v1" ∷ lit "reimbursements" ∷ lit "1" ∷ [];
  query = λ k. [];
  cookie = λ k. some (lit "token");
  header = λ k. [];
  body = [];
  file = none;
  within_budget = true;
}

serve_http_outcome_example :
    Answered server asks_detail calm Tables.start (serve_http server asks_detail calm Tables.start)
serve_http_outcome_example = serve_http_outcome server asks_detail calm Tables.start

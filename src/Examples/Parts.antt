-- ===== src/Examples/Parts.antt =====
-- The theorems on the service's own operations and on requests, applied to a few values.
use reimbursement_system.Base.{
  ◌*◌, ℕ, ◌≤◌, ◌≡◌, ◌≢◌, ◌⊎◌, refl, true, false, some, List, [], ◌∷◌, ◌++◌, arith, length, All,
  Text, lit, pos, take,
}
use reimbursement_system.Base.{find?}
use reimbursement_system.Approval.{employee, draft}
use reimbursement_system.Store.{is_ok, Env, Reimbursement, World}
use reimbursement_system.Reimbursements.Scope.{DetailRow, base_query, scope_filter}
use reimbursement_system.Reimbursements.Repository.{has_id, update_claim}
use reimbursement_system.Reimbursements.Workflow.Outcomes.{Refused}
use reimbursement_system.Reimbursements.Workflow.Runs.{PrintsDates}
use reimbursement_system.Reimbursements.Service.{CreateRequest, day, create, update, delete}
use reimbursement_system.Reimbursements.Service.Writing.{Created}
use reimbursement_system.Reimbursements.Service.Outcomes.{Updated, create_outcome, update_outcome}
use reimbursement_system.Reimbursements.Service.Removal.{mark_deleted, delete_outcome}
use reimbursement_system.Reimbursements.Service.Amounts.{Totals}
use reimbursement_system.Reimbursements.Service.Files.{sanitize_filename}
use reimbursement_system.Reimbursements.Service.Names.{IsPlain, sanitize_filename_lem}
use reimbursement_system.Requests.Paging.{Query, parse, In, Params, asc, parse-bounds}
use reimbursement_system.Requests.Csrf.{issue, verify, split, hex_decode, IsSigned, verify_sound}
use reimbursement_system.Requests.Upload.{
  pdf, accepted, sniff, validate, max_size, validate-accepted,
}
use reimbursement_system.Requests.Gates.{passes, is_mutating, is_exempt, csrf_gate, csrf_gate_sound}
use reimbursement_system.Examples.Tables.{service_runs, calm, start, draft_claim}

abbrev empty_draft : Reimbursement
empty_draft = record draft_claim { amount = 0 }

-- The draft without items.
abbrev pub bare : World
bare = record start { db = record start.db { reimbursements = empty_draft ∷ [] } }

abbrev pub wanted : CreateRequest
wanted = record {
  category_id = lit "5";
  title = lit "Train";
  description = [];
  expense_date = lit "2026-08-01";
  items = record { description = lit "Ticket"; quantity = 2; unit_price = 5000 } ∷ [];
}

-- The first day of August 2026, on which the request's date is allowed.
abbrev pub summer : Env
summer = record calm { now = 740194 * day }

creates : is_ok (create wanted 10 summer start).0 ≡ true
unfolding service_runs
creates = refl

updates : is_ok (update 1 wanted employee 10 summer start).0 ≡ true
unfolding service_runs
updates = refl

pub bare-Totals : Totals bare.db
bare-Totals j r here = ground arith

calm_dates : PrintsDates calm
unfolding lit
calm_dates d = refl

create_outcome_example :
    Refused start.db (create wanted 10 summer start)
    ⊎ ((t id date cat : ℕ) × Created summer t id 10 wanted date cat start.db
          (create wanted 10 summer start).1.db)
create_outcome_example = create_outcome wanted 10 summer start

update_outcome_example :
    Refused start.db (update 1 wanted employee 10 summer start)
    ⊎ ((t date cat : ℕ) × (row : DetailRow) × Updated summer t 1 employee 10 wanted date cat row
          start.db
          (update 1 wanted employee 10 summer start).1.db)
update_outcome_example = update_outcome 1 wanted employee 10 summer start

delete_outcome_example :
    Refused start.db (delete 1 employee 10 calm start)
    ⊎ ((row : DetailRow) × (find? (has_id 1) (scope_filter employee 10 (base_query start.db))
          ≡ some row)
        × (row.claim.employee_id ≡ 10)
        × (row.claim.status ≡ draft)
        × ((delete 1 employee 10 calm start).1.db ≡ update_claim 1 (mark_deleted 1000) start.db))
delete_outcome_example = delete_outcome 1 employee 10 calm start

abbrev bad_name : Text
bad_name = b'.' ∷ b'.' ∷ b'/' ∷ 10 ∷ 0xFF ∷ []

sanitize_filename_lem_example :
    All IsPlain (sanitize_filename bad_name)
    × (length (sanitize_filename bad_name) ≤ 255)
    × (sanitize_filename bad_name ≢ [])
sanitize_filename_lem_example = sanitize_filename_lem bad_name

abbrev query : Query
query = record {
  page = lit "3";
  limit = lit "1000";
  search = [];
  sort = lit "amount";
  order = lit "asc";
}

abbrev columns : List (Text × Text)
columns = (lit "amount", lit "reimbursements.amount") ∷ []

parse-bounds_example :
    (1 ≤ (parse query (lit "created_at") columns).page)
    × (1 ≤ (parse query (lit "created_at") columns).limit)
    × ((parse query (lit "created_at") columns).limit ≤ 100)
    × (((parse query (lit "created_at") columns).sort ≡ lit "created_at")
        ⊎ In (parse query (lit "created_at") columns).sort columns)
parse-bounds_example = parse-bounds query (lit "created_at") columns

abbrev third_page : Params
third_page = record {
  page = 3;
  limit = 10;
  search = [];
  sort = lit "created_at";
  order = asc;
  offset = pos 20;
}

abbrev toy_mac : Text → Text → Text
toy_mac secret nonce = 7 ∷ []

abbrev nonce : Text
nonce = 1 ∷ 200 ∷ []

token_passes : verify toy_mac [] (issue toy_mac [] nonce) (issue toy_mac [] nonce) ≡ true
unfolding verify issue split hex_decode
token_passes = refl

verify_sound_example :
    (issue toy_mac [] nonce ≡ issue toy_mac [] nonce)
    × IsSigned toy_mac [] (split (issue toy_mac [] nonce))
verify_sound_example =
    verify_sound toy_mac [] (issue toy_mac [] nonce) (issue toy_mac [] nonce) token_passes

gate_passes :
    csrf_gate toy_mac [] (lit "PUT") (lit "/x") (issue toy_mac [] nonce) (issue toy_mac [] nonce)
    ≡ passes tt
unfolding csrf_gate verify issue split hex_decode lit
gate_passes = refl

mutates : is_mutating (lit "PUT") ≡ true
unfolding lit
mutates = refl

not_exempt : is_exempt (lit "PUT" ++ (lit " " ++ lit "/x")) ≡ false
unfolding lit
not_exempt = refl

csrf_gate_sound_example :
    (issue toy_mac [] nonce ≡ issue toy_mac [] nonce)
    × IsSigned toy_mac [] (split (issue toy_mac [] nonce))
csrf_gate_sound_example =
    csrf_gate_sound toy_mac [] (lit "PUT") (lit "/x") (issue toy_mac [] nonce)
      (issue toy_mac [] nonce) mutates not_exempt gate_passes

abbrev document : Text
document = lit "%PDF-1.7"

document_passes : validate (some document) ≡ accepted document pdf
unfolding validate sniff lit
document_passes = refl

validate-accepted_example :
    (document ≡ document)
    × (1 ≤ length document)
    × (length document ≤ max_size)
    × (take 5 document ≡ lit "%PDF-")
validate-accepted_example = validate-accepted document document pdf document_passes

-- ===== src/Examples/Tables.antt =====
-- A small company: an employee with one draft claim, a manager, one of Finance and an admin.
use reimbursement_system.Base.{ℕ, ◌+◌, ◌/◌, ◌++◌, true, false, none, some, [], ◌∷◌, lit, Text}
use reimbursement_system.Approval.{
  can_transition, approval_chain, exclude_submitter, next_pending_from, next_pending_index, Role,
  employee, manager, finance, admin, draft, submitted, approved, paid,
}
use reimbursement_system.Base.{trim_while, trim_space}
use reimbursement_system.Reimbursements.Repository.{ensure_active_category}
use reimbursement_system.Reimbursements.Repository.Writes.{
  insert_items, recalc_amount, create_claim, update_claim_items,
}
use reimbursement_system.Reimbursements.Service.Dates.{parse_date, day_number, days_before}
use reimbursement_system.Reimbursements.Service.{
  validate_expense_date, service_detail, check_request, create, read_editable, update,
}
use reimbursement_system.Decimal.{decimal_runs}
use reimbursement_system.Reimbursements.Repository.{
  get_detail, items, attachments, approvals_for, lock_claim,
}
use reimbursement_system.Reimbursements.Repository.Detail.{
  to_response, build_detail, read_detail, get_detail_fresh,
}
use reimbursement_system.Reimbursements.Repository.Policy.{
  count_attachments, category_monthly_limit, monthly_category_spend, find_duplicate,
}
use reimbursement_system.Reimbursements.Scope.{join_row, join_rows, base_query, scope_filter}
use reimbursement_system.Reimbursements.Workflow.Actions.{
  read_submittable, policy_violations, choose_chain, check_submit, commit_submit, submit_action,
  decide, approve_action, reject_action, cancel_action, pay_action,
}
use reimbursement_system.Reimbursements.Workflow.Notify.{notify_employee, audit_write}
use reimbursement_system.Reimbursements.Workflow.Policy.{
  receipt_rule, remaining, limit_violation, limit_rule, duplicate_rule, Config,
}
use reimbursement_system.Reimbursements.Workflow.Runs.{serve, serve_all}
use reimbursement_system.Reimbursements.Workflow.Steps.{
  insert_steps, close_submit, submit_body, record_decision, decide_body, cancel_body, pay_body,
}
use reimbursement_system.Store.{
  statement, transaction, User, Category, Reimbursement, AttachmentRow, Env, World, idle,
}

abbrev pub cfg : Config
cfg = record {
  approval_t1 = lit "500000";
  approval_t2 = lit "5000000";
  receipt_threshold = lit "100000.00";
}

-- No statement fails.
abbrev pub calm : Env
calm = record {
  fails = λ t. false;
  fresh_id = λ t. t + 100;
  now = 1000;
  month_of = λ d. d / 31;
  date_text = λ d. lit "2026-08-01";
  time_text = λ t. lit "2026-08-01T00:00:00Z";
  id_text = λ i. lit "id";
  parse_uuid = λ s. some 5;
  presign = λ key. lit "https://files.example.com/" ++ key;
  random_hex = λ t. (b'a' + t) ∷ [];
  hash_secret = λ s. b'h' ∷ s;
  hash_password = λ s. s;
  compare_password = λ hash s. true;
  sign = λ u now. lit "access";
  to_lower = λ s. s;
}

abbrev person : ℕ → Text → Role → User
person id name role = record {
  id = id;
  name = name;
  email = lit "user@example.com";
  password_hash = [];
  role = role;
  is_active = true;
  created_at = 0;
  updated_at = 0;
}

abbrev pub travel : Category
travel = record {
  id = 5;
  code = lit "TRAVEL";
  name = lit "Travel";
  monthly_limit_per_employee = some 200000000;
  is_active = true;
  created_at = 0;
  updated_at = 0;
}

-- 600000.00, which needs a manager and Finance.
abbrev pub draft_claim : Reimbursement
draft_claim = record {
  id = 1;
  employee_id = 10;
  category_id = 5;
  title = lit "Train";
  description = none;
  expense_date = 40;
  amount = 60000000;
  status = draft;
  current_step = 0;
  submitted_at = none;
  decided_at = none;
  paid_at = none;
  cancelled_at = none;
  created_at = 0;
  updated_at = 0;
  deleted_at = none;
}

abbrev receipt : AttachmentRow
receipt = record {
  id = 1;
  reimbursement_id = 1;
  uploaded_by = 10;
  storage_key = lit "claims/1/1";
  original_filename = lit "ticket.pdf";
  mime_type = lit "application/pdf";
  size_bytes = 2048;
  created_at = 0;
}

abbrev pub start : World
start = record {
  db = record {
    users =
        person 10 (lit "Ani") employee
        ∷ person 20 (lit "Budi") manager
        ∷ person 30 (lit "Citra") finance
        ∷ person 40 (lit "Dewi") admin
        ∷ [];
    categories = travel ∷ [];
    reimbursements = draft_claim ∷ [];
    items = [];
    attachments = receipt ∷ [];
    approvals = [];
    audit_logs = [];
  };
  queue = [];
  reports = [];
  objects = λ key. none;
  redis = record { jtis = λ j. none; fams = λ f. []; values = λ k. none; hashes = λ k f. none };
  tick = 0;
  tx = idle;
}

abbrev pub submitted_claim : Reimbursement
submitted_claim = record draft_claim {
  status = submitted;
  current_step = 1;
  submitted_at = some 1000;
  updated_at = 1000;
}

abbrev pub approved_claim : Reimbursement
approved_claim = record submitted_claim {
  status = approved;
  current_step = 2;
  decided_at = some 1000;
}

abbrev pub paid_claim : Reimbursement
paid_claim = record approved_claim { status = paid; paid_at = some 1000 }

-- The line that a run of a workflow action needs.
unfoldable pub workflow_runs : Unit {0}
unfolding decimal_runs get_detail items attachments approvals_for lock_claim count_attachments
    category_monthly_limit monthly_category_spend find_duplicate to_response build_detail
    read_detail get_detail_fresh serve serve_all read_submittable policy_violations choose_chain
    check_submit commit_submit submit_action decide approve_action reject_action cancel_action
    pay_action receipt_rule remaining limit_violation limit_rule duplicate_rule insert_steps
    close_submit submit_body record_decision decide_body cancel_body pay_body notify_employee
    audit_write join_row join_rows base_query scope_filter can_transition approval_chain
    exclude_submitter next_pending_from next_pending_index statement transaction
workflow_runs = tt

-- The line that a run of Create and Update needs.
unfoldable pub service_runs : Unit {0}
unfolding workflow_runs parse_date day_number days_before trim_while trim_space
    ensure_active_category insert_items recalc_amount create_claim update_claim_items
    validate_expense_date service_detail check_request create read_editable update
service_runs = tt

-- ===== src/Reimbursements/Repository/Detail.antt =====
-- The answers of dto.go, toResponse and buildDetail of service.go, and the fresh read that ends
-- every workflow action.
use reimbursement_system.Base.{ℕ, Option, none, some, List, [], map, find?, Text, lit}
use reimbursement_system.Decimal.{numeric_text}
use reimbursement_system.Approval.{Status, Role, StepStatus}
use reimbursement_system.AppErr.{Err, fault, record_not_found, not_found, internal_err}
use reimbursement_system.Store.{
  Reimbursement, ItemRow, line_total, AttachmentRow, ApprovalStep, Env, M, ◌>>=◌, map_err, ask,
  first,
}
use reimbursement_system.Reimbursements.Scope.{DetailRow, base_query}
use reimbursement_system.Reimbursements.Repository.{items, attachments, approvals_for, has_id}

pub record ReimbursementResponse : Type 0 where
  pub id : Text
  pub employee_id : Text
  pub employee_name : Text
  pub category_id : Text
  pub category_name : Text
  pub category_code : Text
  pub title : Text
  pub description : Text
  pub expense_date : Text
  pub amount : Text
  pub status : Status
  pub created_at : Text
  pub updated_at : Text

pub record ItemResponse : Type 0 where
  pub id : Text
  pub description : Text
  pub quantity : ℕ
  pub unit_price : Text
  pub line_total : Text

pub record AttachmentResponse : Type 0 where
  pub id : Text
  pub original_filename : Text
  pub mime_type : Text
  pub size_bytes : ℕ
  pub created_at : Text

pub record ApprovalStepResponse : Type 0 where
  pub step_number : ℕ
  pub approver_role : Role
  pub status : StepStatus
  pub note : Option Text

pub record DetailResponse : Type 0 where
  pub claim : ReimbursementResponse
  pub items : List ItemResponse
  pub attachments : List AttachmentResponse
  pub approvals : List ApprovalStepResponse

abbrev pub text_or_empty : Option Text → Text
text_or_empty none = []
text_or_empty (some t) = t

-- toResponse
unfoldable pub to_response : Env → Reimbursement → Text → Text → Text → ReimbursementResponse
to_response e r employee_name category_name category_code = record {
  id = e.id_text r.id;
  employee_id = e.id_text r.employee_id;
  employee_name = employee_name;
  category_id = e.id_text r.category_id;
  category_name = category_name;
  category_code = category_code;
  title = r.title;
  description = text_or_empty r.description;
  expense_date = e.date_text r.expense_date;
  amount = numeric_text r.amount;
  status = r.status;
  created_at = e.time_text r.created_at;
  updated_at = e.time_text r.updated_at;
}

abbrev pub item_response : Env → ItemRow → ItemResponse
item_response e it = record {
  id = e.id_text it.id;
  description = it.description;
  quantity = it.quantity;
  unit_price = numeric_text it.unit_price;
  line_total = numeric_text (line_total it);
}

abbrev pub attachment_response : Env → AttachmentRow → AttachmentResponse
attachment_response e a = record {
  id = e.id_text a.id;
  original_filename = a.original_filename;
  mime_type = a.mime_type;
  size_bytes = a.size_bytes;
  created_at = e.time_text a.created_at;
}

abbrev pub step_response : ApprovalStep → ApprovalStepResponse
step_response st = record {
  step_number = st.step_number;
  approver_role = st.approver_role;
  status = st.status;
  note = st.note;
}

-- buildDetail
unfoldable pub build_detail :
    Env → DetailRow → List ItemRow → List AttachmentRow → List ApprovalStep → DetailResponse
build_detail e row its atts steps = record {
  claim = to_response e row.claim row.employee_name row.category_name row.category_code;
  items = map (item_response e) its;
  attachments = map (attachment_response e) atts;
  approvals = map step_response steps;
}

abbrev pub fresh_err : Err → Err
fresh_err (fault record_not_found) = not_found (lit "Claim not found")
fresh_err x = internal_err x

-- The three reads and the assembly that GetDetail and GetDetailFresh share.
unfoldable pub read_detail : ℕ → DetailRow → M DetailResponse
read_detail id row = do
  its ← map_err internal_err (items id)
  atts ← map_err internal_err (attachments id)
  steps ← map_err internal_err (approvals_for id)
  ask (λ e. build_detail e row its atts steps)

-- Repository.GetDetailFresh
unfoldable pub get_detail_fresh : ℕ → M DetailResponse
get_detail_fresh id = do
  row ← map_err fresh_err (first (λ db. find? (has_id id) (base_query db)))
  read_detail id row

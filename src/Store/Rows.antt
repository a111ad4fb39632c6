-- ===== src/Store/Rows.antt =====
-- Rows of the tables. A uuid is a number, since uuids are only compared; a time is a number, and
-- a date the number of its day. An amount is stored in cents, as numeric(14,2) has two places.
use reimbursement_system.Base.{ℕ, ◌*◌, Bool, Option, List, Text}
use reimbursement_system.Approval.{Status, Role, StepStatus}

pub record User : Type 0 where
  pub id : ℕ
  pub name : Text
  pub email : Text
  pub password_hash : Text
  pub role : Role
  pub is_active : Bool
  pub created_at : ℕ
  pub updated_at : ℕ

pub record Category : Type 0 where
  pub id : ℕ
  pub code : Text
  pub name : Text
  pub monthly_limit_per_employee : Option ℕ
  pub is_active : Bool
  pub created_at : ℕ
  pub updated_at : ℕ

pub record Reimbursement : Type 0 where
  pub id : ℕ
  pub employee_id : ℕ
  pub category_id : ℕ
  pub title : Text
  pub description : Option Text
  pub expense_date : ℕ
  pub amount : ℕ
  pub status : Status
  pub current_step : ℕ
  pub submitted_at : Option ℕ
  pub decided_at : Option ℕ
  pub paid_at : Option ℕ
  pub cancelled_at : Option ℕ
  pub created_at : ℕ
  pub updated_at : ℕ
  pub deleted_at : Option ℕ

pub record ItemRow : Type 0 where
  pub id : ℕ
  pub reimbursement_id : ℕ
  pub description : Text
  pub quantity : ℕ
  pub unit_price : ℕ
  pub created_at : ℕ

-- The generated column: quantity times unit price.
abbrev pub line_total : ItemRow → ℕ
line_total it = it.quantity * it.unit_price

pub record AttachmentRow : Type 0 where
  pub id : ℕ
  pub reimbursement_id : ℕ
  pub uploaded_by : ℕ
  pub storage_key : Text
  pub original_filename : Text
  pub mime_type : Text
  pub size_bytes : ℕ
  pub created_at : ℕ

pub record ApprovalStep : Type 0 where
  pub id : ℕ
  pub reimbursement_id : ℕ
  pub step_number : ℕ
  pub approver_role : Role
  pub approver_id : Option ℕ
  pub status : StepStatus
  pub note : Option Text
  pub acted_at : Option ℕ
  pub created_at : ℕ

-- The Action constants of package audit.
pub data AuditAction : Type 0 where
  submit_claim approve_claim reject_claim cancel_claim pay_claim : AuditAction

-- The metadata maps that the workflow writes.
pub data Metadata : Type 0 where
  of_amount : Text → Metadata
  of_step : ℕ → Role → Option Text → Metadata

pub record Log : Type 0 where
  pub actor_id : ℕ
  pub action : AuditAction
  pub entity_id : ℕ
  pub metadata : Metadata

pub record Db : Type 0 where
  pub users : List User
  pub categories : List Category
  pub reimbursements : List Reimbursement
  pub items : List ItemRow
  pub attachments : List AttachmentRow
  pub approvals : List ApprovalStep
  pub audit_logs : List Log

-- The value under refresh:jti:<jti> in Redis.
pub record SessionEntry : Type 0 where
  pub user_id : ℕ
  pub hash : Text

-- The keys of the session store, refresh:jti:<jti> and the set refresh:fam:<family>; the other
-- string keys, with which the dashboard caches; the fields of the hashes exportjob:<job>.
pub record Redis : Type 0 where
  pub jtis : Text → Option SessionEntry
  pub fams : Text → List Text
  pub values : Text → Option Text
  pub hashes : Text → Text → Option Text

-- ===== src/Approval.antt =====
-- The state machine and the approval matrix of
-- backend/internal/modules/reimbursements/statemachine.go.
pub mod Chain
pub mod Sequence
use Prim.Native.String.{String}
use text.Mathlib.Text.{◌==◌ as str_eq}
use reimbursement_system.Base.{
  ℕ, zero, suc, ◌≡◌, Bool, true, false, ◌||◌, not, Option, none, some, List, [], ◌∷◌, if◌then◌else◌,
  Text, pos, ltb_ℤ,
}
use reimbursement_system.Decimal.{compare_numeric}

-- The enum reimb_status, under the names of the Status constants.
pub data Status : Type 0 where
  draft submitted approved rejected paid cancelled : Status

-- The actions that canTransition knows; `other` is any other text.
pub data Action : Type 0 where
  submit approve reject cancel pay : Action
  other : String → Action

-- A role as a text: the enum user_role, or any other text that a request may carry.
pub data Role : Type 0 where
  employee manager finance admin : Role
  unlisted : String → Role

-- The enum approval_status.
pub data StepStatus : Type 0 where
  pending step_approved step_rejected : StepStatus

-- Comparison of statuses, of roles and of step statuses by `==`.
abbrev pub status_eq : Status → Status → Bool
status_eq draft draft = true
status_eq submitted submitted = true
status_eq approved approved = true
status_eq rejected rejected = true
status_eq paid paid = true
status_eq cancelled cancelled = true
status_eq _ _ = false

abbrev pub role_eq : Role → Role → Bool
role_eq employee employee = true
role_eq manager manager = true
role_eq finance finance = true
role_eq admin admin = true
role_eq (unlisted s) (unlisted t) = str_eq s t
role_eq _ _ = false

abbrev pub is_pending : StepStatus → Bool
is_pending pending = true
is_pending step_approved = false
is_pending step_rejected = false

-- canTransition: whether the action may be taken in the status.
unfoldable pub can_transition : Status → Action → Bool
can_transition from submit = status_eq from draft || status_eq from rejected
can_transition from approve = status_eq from submitted
can_transition from reject = status_eq from submitted
can_transition from cancel = status_eq from submitted
can_transition from pay = status_eq from approved
can_transition from (other s) = false

-- `compareNumeric(a, b) <= 0`.
abbrev pub at_most : Text → Text → Bool
at_most a b = not (ltb_ℤ (pos 0) (compare_numeric a b))

-- ApprovalChain: the roles that must approve an amount, in order.
unfoldable pub approval_chain : Text → Text → Text → List Role
approval_chain amount t1 t2 =
    if at_most amount t1
    then manager ∷ []
    else if at_most amount t2
    then manager ∷ finance ∷ []
    else manager ∷ finance ∷ admin ∷ []

-- ExcludeSubmitter
unfoldable pub exclude_submitter : List Role → Role → List Role
exclude_submitter [] submitter_role = []
exclude_submitter (r ∷ chain) submitter_role =
    let out = exclude_submitter chain submitter_role in
    if role_eq r submitter_role then out else r ∷ out

-- nextPendingIndex, with `none` for -1.
unfoldable pub next_pending_from : ℕ → List StepStatus → Option ℕ
next_pending_from i [] = none
next_pending_from i (s ∷ statuses) =
    let rest = next_pending_from (suc i) statuses in if is_pending s then some i else rest

unfoldable pub next_pending_index : List StepStatus → Option ℕ
next_pending_index statuses = next_pending_from 0 statuses

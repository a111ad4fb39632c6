-- ===== src/Reimbursements/Workflow.antt =====
-- The workflow engine, backend/internal/modules/reimbursements/workflow.go: the policy engine of
-- Submit, the bodies of the four transactions, the actions, and their theorems.
pub mod Notify
pub mod Policy
pub mod Steps
pub mod Actions
pub mod Cancel
pub mod Decide
pub mod Submit
pub mod Outcomes
pub mod Checks
pub mod Reads
pub mod Lifecycle
pub mod Runs
pub mod StepRows
pub mod Snapshot
pub mod Fits
pub mod Invariant
pub mod Safety
pub mod Remaining
pub mod Liveness
pub mod Approving

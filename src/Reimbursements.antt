-- ===== src/Reimbursements.antt =====
-- The claims module, backend/internal/modules/reimbursements: repository.go, service.go,
-- workflow.go and attachments.go, file by file.
pub mod Scope
pub mod Repository
pub mod Workflow
pub mod Service
pub mod Effects
pub mod Concurrent

-- ===== src/Listings.antt =====
-- The paged listings: Repository.List and Service.List of backend/internal/modules/reimbursements,
-- users and categories. How PostgreSQL compares with ILIKE, orders rows and reads a date are
-- parameters.
pub mod Pages
pub mod Claims
pub mod Staff

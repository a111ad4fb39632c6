-- ===== src/Directory.antt =====
-- The administration of users and categories: backend/internal/modules/users and
-- backend/internal/modules/categories. The lengths of texts are checked by the bindings of the
-- handlers, so the limits of the columns are left out.
pub mod Users
pub mod Categories
pub mod Registration
pub mod Deletion

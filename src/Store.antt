-- ===== src/Store.antt =====
-- The tables of backend/internal/database/migrations with the row types of the modules, and the
-- monad of database calls in which the services run.
mod Rows
mod Monad
mod Rules
pub use Rows.*
unfoldable pub use Monad.*
pub use Rules.*

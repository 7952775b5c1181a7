-- ===== src/Model.antt =====
-- The data model of app/models/ and app/enums/: rows, their unique constraints, and the state of
-- the whole service.
mod Enums
mod Rows
mod State
unfoldable pub use Enums.*
pub use Rows.*
pub use State.*

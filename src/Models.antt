-- ===== src/Models.antt =====
-- The data model (app/models/__init__.py): the enums, the tables' rows and the database.
mod Enums
mod Tables
mod Database
mod Lookup
pub use Enums.*
pub use Tables.*
pub use Database.*
pub use Lookup.*

-- ===== src/Store.antt =====
-- The tables of app/db/models.py as lists of rows, the columns that hold an enumeration as data
-- types, and a call of a repository or a service as an action on the session.
mod Enums
mod Real
mod Rows
mod Monad
pub mod Yields
pub mod Inversion
pub mod Steps
pub mod Triple
unfoldable pub use Enums.*
pub use Real.*
pub use Rows.*
unfoldable pub use Monad.*

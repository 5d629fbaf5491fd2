-- ===== src/Db.antt =====
-- The database as the services use it (backend/app/core/database.py): tables keyed by their primary
-- key, and a request as a transaction that either commits the state it has reached or rolls it back.
-- PostgreSQL and SQLAlchemy are not in the repository. A table is its rows, and a `select` is the
-- filter that its `where` clause in the source describes.
mod Transactions
mod Tables
mod Keys
unfoldable pub use Transactions.*
unfoldable pub use Tables.*
unfoldable pub use Keys.*

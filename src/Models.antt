-- ===== src/Models.antt =====
-- The tables of backend/app/models and the session that the services work on.
--
-- A service call reads and writes one database session. SessionLocal does not autoflush and
-- `get_db` closes the session when the request ends, so what was not committed is gone: a call that
-- raises has no new state, and `Result (A × Db)` says just that. Primary keys come from one
-- counter, `next_id`: the services rely on keys being new and growing, and on nothing else.
mod Documents
mod Accounting
mod Logistics
mod Parties
mod Session
pub use Documents.*
pub use Accounting.*
pub use Logistics.*
pub use Parties.*
unfoldable pub use Session.*

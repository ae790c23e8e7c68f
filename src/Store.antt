-- ===== src/Store.antt =====
-- src/store.rs: the SQLite store. The state is the three tables of migrations/; an operation is an
-- `Exec` over it. Each operation holds `write_lock`, or is one statement, so it is one step here;
-- Locking has the statements of the writing operations, and the lock.
mod Rows
mod Sql
pub mod Lamport
pub mod KeyPackages
pub mod Accounts
pub mod AccountLogs
pub mod Cases
pub mod Weighing
pub mod Locking
pub mod Isolation
pub use Rows.{
  KeyPackageRow, AccountBundleRow, AccountLogRow, Store, empty, StoredKeyPackageBundle,
  StoredAccountBundle, StoreError, sqlx, unique_violation, log_error, no_longer_verifies,
  unexpected_outcome,
}
unfoldable pub use Rows.{show}
pub use Sql.{Statement, begin, fetch, write, write_excess, commit, Env, Db, answer, modify}
unfoldable pub use Sql.{now_ms, retention_cutoff}

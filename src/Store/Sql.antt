-- ===== src/Store/Sql.antt =====
-- How a statement of store.rs meets the database: it may fail for a reason of the database's own,
-- and then does nothing. A transaction's writes are published by its commit.
use chat_store.Common.{ℕ, String, Option, none, some}
use chat_store.Common.Int.{ℤ}
use chat_store.Common.Exec.{Result, ok, err, Exec}
use chat_store.Rust.{Duration, as_millis, as_u64, as_i64, saturating_sub}
use chat_store.Store.Rows.{Store, StoreError, sqlx}

-- The points of one operation at which the database is called.
pub data Statement : Type 0 where
  begin fetch write write_excess commit : Statement

-- What the surroundings of one operation answer: the system clock as a duration since the Unix
-- epoch (`none` before it), the error of each statement, if it has one, and the database's text
-- for a primary key that is taken.
pub record Env : Type 0 where
  pub since_epoch : Option Duration
  pub fault : Statement → Option String
  pub duplicate : String

abbrev pub Db : Type 0 → Type 0
Db A = Exec Store StoreError A

-- `duration_since(UNIX_EPOCH).unwrap_or_default().as_millis() as u64`
unfoldable pub now_ms : Option Duration → ℕ
now_ms none = 0
now_ms (some d) = as_u64 (as_millis d)

abbrev pub reply : Option String → Result StoreError (Unit {0})
reply none = ok tt
reply (some e) = err (sqlx e)

abbrev pub answer : Env → Statement → Db (Unit {0})
answer env c s = (reply (env.fault c), s)

abbrev pub modify : (Store → Store) → Db (Unit {0})
modify f s = (ok tt, f s)

-- `now_ms().saturating_sub(retention.as_millis() as u64) as i64`
unfoldable pub retention_cutoff : Env → Duration → ℤ
retention_cutoff env retention =
    as_i64 (saturating_sub (now_ms env.since_epoch) (as_u64 (as_millis retention)))

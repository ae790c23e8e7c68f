-- ===== src/Store/Rows.antt =====
-- The rows of migrations/0001_init.sql and 0002_account_logs.sql, the structs of store.rs, and the
-- errors that a store operation can end with.
use Prim.Native.String.{◌++◌}
use chat_store.Common.{String, List, []}
use chat_store.Common.Int.{ℤ}
use chat_store.Rust.Bytes.{Bytes}

pub record KeyPackageRow : Type 0 where
  pub device_id : String
  pub received_at : ℤ
  pub payload : Bytes
  pub signature : Bytes

pub record AccountBundleRow : Type 0 where
  pub account_pub : String
  pub updated_at : ℤ
  pub payload : Bytes
  pub signature : Bytes

pub record AccountLogRow : Type 0 where
  pub account_pub : String
  pub updated_at : ℤ
  pub signed_log : Bytes

pub record Store : Type 0 where
  pub keypackages : List KeyPackageRow
  pub account_bundles : List AccountBundleRow
  pub account_logs : List AccountLogRow

abbrev pub empty : Store
empty = record { keypackages = []; account_bundles = []; account_logs = [] }

pub record StoredKeyPackageBundle : Type 0 where
  pub payload : Bytes
  pub signature : Bytes

pub record StoredAccountBundle : Type 0 where
  pub payload : Bytes
  pub signature : Bytes
  pub updated_at : ℤ

-- What an `anyhow::Error` of the store can be: an error of the database, a primary key that is
-- taken, an error of the account_log crate, alone or under the context that the source adds, and
-- an outcome that the source does not expect. Each carries the text of its cause.
pub data StoreError : Type 0 where
  sqlx : String → StoreError
  unique_violation : String → StoreError
  log_error : String → StoreError
  no_longer_verifies : String → StoreError
  unexpected_outcome : String → StoreError

-- `Display` of the error: a context hides its cause.
unfoldable pub show : StoreError → String
show (sqlx text) = text
show (unique_violation text) = text
show (log_error text) = text
show (no_longer_verifies cause) = "stored account log no longer verifies"
show (unexpected_outcome outcome) = "unexpected account log outcome: " ++ outcome

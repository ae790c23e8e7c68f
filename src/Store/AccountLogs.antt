-- ===== src/Store/AccountLogs.antt =====
-- The account log operations of src/store.rs: `put_account_log` and `get_account_log`.
pub mod Reading
pub mod Retries
use mathlib.Core.Option
use chat_store.Common.{
  String, Bool, true, false, not, Option, none, some, List, ◌==◌, if◌then◌else◌, find, upsert,
}
use chat_store.Common.Exec.{Result, ok, map_err, and_then, pure, lift, gets, ◌>>=◌, ◌>>◌}
use chat_store.Rust.{as_i64}
use chat_store.Rust.Bytes.{Bytes}
use chat_store.Crates.{Crates, Outcome, updated}
use chat_store.Store.Rows.{AccountLogRow, Store, StoreError, log_error, no_longer_verifies}
use chat_store.Store.Sql.{Env, Db, begin, fetch, write, commit, now_ms, answer, modify}

abbrev pub of_account : String → AccountLogRow → Bool
of_account account_pub r = r.account_pub == account_pub

-- INSERT … ON CONFLICT(account_pub) DO UPDATE
abbrev pub upsert_row : AccountLogRow → List AccountLogRow → List AccountLogRow
upsert_row row = upsert (of_account row.account_pub) row

unfoldable pub stored_log : String → Store → Option Bytes
unfolding Option.map
stored_log account_pub s =
    Option.map (λ r. r.signed_log) (find (of_account account_pub) s.account_logs)

abbrev pub is_updated : Outcome → Bool
is_updated updated = true
is_updated _ = false

module _ (crates : Crates) where
  open crates use {
    AccountAddr, SignedAccountLog, AccountRecord, addr_to_string, log_from_bytes, log_to_bytes,
    record_new, record_addr, record_signed_log, record_update, log_error_to_string,
  }

  -- The `match stored` of `put_account_log`: the outcome, and the record to store.
  unfoldable pub weigh : AccountRecord → Option Bytes → Result StoreError (Outcome × AccountRecord)
  weigh candidate none = ok (updated, candidate)
  weigh candidate (some stored) =
      and_then (map_err (λ e. log_error (log_error_to_string e)) (log_from_bytes stored)) λ log.
        and_then
          (map_err (λ e. no_longer_verifies (log_error_to_string e))
            (record_new (record_addr candidate) log))
          λ current. ok (record_update current (record_signed_log candidate))

  unfoldable pub put_account_log : Env → AccountRecord → Db Outcome
  put_account_log env candidate = do
    let account_pub = addr_to_string (record_addr candidate)
    answer env begin
    answer env fetch
    stored ← gets (stored_log account_pub)
    update ← lift (weigh candidate stored)
    if not (is_updated update.0) then pure update.0 else do
      answer env write
      answer env commit
      modify (λ s. record s {
        account_logs =
            upsert_row
              (record {
                account_pub = account_pub;
                updated_at = as_i64 (now_ms env.since_epoch);
                signed_log = log_to_bytes (record_signed_log update.1);
              })
              s.account_logs;
      })
      pure updated

  unfoldable pub get_account_log : Env → AccountAddr → Db (Option Bytes)
  get_account_log env addr = do answer env fetch; gets (stored_log (addr_to_string addr))

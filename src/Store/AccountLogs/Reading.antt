-- ===== src/Store/AccountLogs/Reading.antt =====
-- What is on file for an account after `put_account_log` has written.
use chat_store.Common.{String, ◌≡◌, ◌==◌, some, arith, if◌then◌else◌, find-upsert_text}
use chat_store.Crates.{Crates}
use chat_store.Store.Rows.{Store}
use chat_store.Store.Sql.{Env}
use chat_store.Store.AccountLogs.{stored_log}
use chat_store.Store.Cases.{log_row, put_log}

pub stored_log-put_log :
    (crates : Crates) (env : Env) (candidate rec : crates.AccountRecord) (id : String) (s : Store)
    → stored_log id (put_log crates env candidate rec s) ≡ (
        if crates.addr_to_string (crates.record_addr candidate) == id
        then some (crates.log_to_bytes (crates.record_signed_log rec))
        else stored_log id s)
unfolding stored_log
stored_log-put_log crates env candidate rec id s =
    rw (find-upsert_text (λ r. r.account_pub) (log_row crates env candidate rec) id s.account_logs)
      (ground arith)

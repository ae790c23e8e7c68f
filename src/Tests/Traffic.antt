-- ===== src/Tests/Traffic.antt =====
-- A run of the service over the stand-in crates.
use chat_store.Common.{List, [], ◌∷◌, ◌++◌, replicate, take, drop, select, count, find, upsert}
use chat_store.Rust.{as_u64, as_i64, as_millis}
use chat_store.Rust.Bytes.{Bytes, strip_prefix, get_range, from_le_bytes, to_le_bytes}
use chat_store.Common.Int.{lt_ℤ, eq_ℤ}
use chat_store.Store.{Store, Env, empty}
use chat_store.Store.{now_ms, retention_cutoff}
use chat_store.Store.Lamport.{payload_lamport}
use chat_store.Store.KeyPackages.{
  insert, latest, newest, prune_key_packages, drop_expired, drop_excess, row_number,
}
use chat_store.Store.Accounts.{stored_lamport, upsert_account, get_account, prune_accounts}
use chat_store.Store.AccountLogs.{stored_log, weigh, put_account_log, get_account_log}
use chat_store.Bundle.{
  from_bytes, key_hex, verify, apply_keypackage, apply_account, apply_account_log,
}
use chat_store.Handlers.Errors.{decode_bundle, to_api_error}
use chat_store.Handlers.Endpoints.{
  post_account, post_account_log, serve, handle, submit_key_package, fetch_key_package,
  submit_account, fetch_account, submit_account_log, fetch_account_log,
}
use chat_store.Delivery.{key_package, account, ingest_received}
use chat_store.Service.{
  default_cli, Input, request, delivery, prunes_key_packages, step, run, retention,
}
use chat_store.Tests.Fixtures.{demo, at, payload_at, signed_by, text_of, wire_of}

abbrev pub log_text : Bytes → Input
log_text payload = request (post_account_log "alice" (replicate 64 9 ++ payload))

abbrev pub traffic : List (Env × Input)
traffic =
    (at 10, delivery (key_package (wire_of (signed_by 7 (1 ∷ 2 ∷ [])))))
    ∷ (at 11, delivery (account (wire_of (signed_by 7 (payload_at 5)))))
    ∷ (at 12, delivery (account (wire_of (signed_by 7 (payload_at 4)))))
    ∷ (
      at 13,
      request (
          post_account record {
            account_pub = text_of (replicate 32 7);
            payload = text_of (payload_at 6);
            signature = text_of (replicate 64 7);
          }),
    )
    ∷ (at 14, log_text (1 ∷ []))
    ∷ (at 15, log_text (1 ∷ 2 ∷ []))
    ∷ (at 16, log_text (3 ∷ []))
    ∷ (at 17, prunes_key_packages)
    ∷ []

abbrev pub after : Store
after = run demo default_cli traffic empty

-- The store after the first two of these: version 5 is on file.
abbrev pub early : Store
early = run demo default_cli (take 2 traffic) empty

-- After the next three: version 6 and a log.
abbrev pub midway : Store
midway = run demo default_cli (take 3 (drop 2 traffic)) early

-- After the rest.
abbrev pub late : Store
late = run demo default_cli (drop 5 traffic) midway

-- Opening this opens all that a run calls.
unfoldable pub executable : Unit {0}
unfolding run step serve handle submit_key_package fetch_key_package submit_account fetch_account
    submit_account_log fetch_account_log decode_bundle to_api_error ingest_received from_bytes
    key_hex verify apply_keypackage apply_account apply_account_log insert latest newest
    prune_key_packages drop_expired drop_excess row_number upsert_account get_account prune_accounts
    put_account_log get_account_log weigh stored_lamport stored_log payload_lamport now_ms as_u64
    as_i64 as_millis lt_ℤ eq_ℤ strip_prefix get_range from_le_bytes to_le_bytes select count find
    upsert retention retention_cutoff
executable = tt

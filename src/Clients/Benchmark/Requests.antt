-- ===== src/Clients/Benchmark/Requests.antt =====
-- The business flow of examples/benchmark.rs and a worker's loop, as the requests between which the
-- other workers' threads run.
use chat_store.Common.{ℕ, zero, suc, ◌+◌, String, if◌then◌else◌}
use chat_store.Common.Int.{pos, lt_ℤ}
use chat_store.Common.Exec.{ok, err}
use chat_store.Rust.Bytes.{Bytes}
use chat_store.Crates.{Crates}
use chat_store.Crates.Signing.{Signing}
use chat_store.Handlers.Errors.{StatusCode, okay, no_content, conflict}
use chat_store.Handlers.Endpoints.{
  post_keypackage, get_keypackage, post_account, get_account_bundle,
}
use chat_store.Clients.Requests.{Exchange, failed, pub_hex, signature_text}
use chat_store.Clients.Threads.{Thread, finished, ◌>>=◌, ◌>>◌}
use chat_store.Clients.Threads.Solo.{ask}
use chat_store.Clients.Benchmark.Payloads.{
  as_device, as_account, key_number, sequence_of, account_payload, keypackage_payload, signing_key,
}
use chat_store.Clients.Benchmark.Flow.{
  FlowExchanges, expect_status, bundle_json, account_json, verify_response,
}

module _ (crates : Crates) (signing : Signing crates) where
  open crates use {base64_encode}

  unfoldable pub publish_account_thread :
      Exchange → signing.SigningKey → String → Bytes → StatusCode → Thread (Unit {0})
  publish_account_thread exchange account_key account_pub payload expected = do
    r ← ask exchange (
        post_account (record {
          account_pub = account_pub;
          payload = base64_encode payload;
          signature = signature_text crates signing account_key payload;
        }))
    finished (expect_status r expected "publish account")
    finished (ok tt)

  unfoldable pub flow_thread : FlowExchanges → ℕ → ℕ → Thread (Unit {0})
  flow_thread on sequence payload_bytes = do
    let device_key = signing_key crates signing (key_number as_device sequence)
    let device_id = pub_hex crates signing device_key
    let payload = keypackage_payload sequence payload_bytes
    published ← ask on.publish_keypackage (
        post_keypackage (record {
          device_id = device_id;
          payload = base64_encode payload;
          signature = signature_text crates signing device_key payload;
        }))
    finished (expect_status published no_content "publish keypackage")
    fetched ← ask on.fetch_keypackage (get_keypackage device_id)
    fetched' ← finished (expect_status fetched okay "fetch keypackage")
    keypackage ← finished (bundle_json fetched'.body)
    finished (verify_response crates signing device_key keypackage payload)
    let account_key = signing_key crates signing (key_number as_account sequence)
    let account_pub = pub_hex crates signing account_key
    let first_payload = account_payload 1 payload_bytes
    publish_account_thread on.publish_first account_key account_pub first_payload no_content
    found ← ask on.fetch_first (get_account_bundle account_pub)
    found' ← finished (expect_status found okay "fetch account")
    account ← finished (account_json found'.body)
    finished (
        if lt_ℤ (pos 0) account.updated_at
        then ok tt
        else err (failed "fetch account: server returned a non-positive updated_at"))
    finished (
        verify_response crates signing account_key
          (record { payload = account.payload; signature = account.signature }) first_payload)
    publish_account_thread on.publish_again account_key account_pub first_payload conflict
    let second_payload = account_payload 2 payload_bytes
    publish_account_thread on.publish_second account_key account_pub second_payload no_content
    updated ← ask on.fetch_second (get_account_bundle account_pub)
    updated' ← finished (expect_status updated okay "fetch updated account")
    updated_account ← finished (account_json updated'.body)
    finished (
        verify_response crates signing account_key
          (record { payload = updated_account.payload; signature = updated_account.signature })
          second_payload)

  unfoldable pub flows_thread : (ℕ → FlowExchanges) → ℕ → ℕ → ℕ → ℕ → Thread (Unit {0})
  flows_thread on worker operation zero payload_bytes = finished (ok tt)
  flows_thread on worker operation (suc left) payload_bytes = do
    flow_thread (on operation) (sequence_of worker operation) payload_bytes
    flows_thread on worker (operation + 1) left payload_bytes

  -- The closure that the thread of a worker runs.
  unfoldable pub worker_thread : (ℕ → FlowExchanges) → ℕ → ℕ → ℕ → Thread ℕ
  worker_thread on worker operations payload_bytes = do
    flows_thread on worker 0 operations payload_bytes
    finished (ok operations)

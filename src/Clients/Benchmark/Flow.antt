-- ===== src/Clients/Benchmark/Flow.antt =====
-- The business flow of examples/benchmark.rs, its checks of the answers, and its check of the
-- error paths.
use chat_store.Common.{◌+◌, ℕ, zero, suc, String, not, beq, if◌then◌else◌, length}
use Prim.Native.String
use chat_store.Common.Int.{pos, lt_ℤ}
use chat_store.Common.Exec.{Result, ok, err, ok_or, and_then, pure, lift, ◌>>=◌, ◌>>◌}
use chat_store.Rust.Bytes.{Bytes, eq_bytes}
use chat_store.Crates.{Crates}
use chat_store.Crates.Signing.{Signing}
use chat_store.Handlers.Errors.{StatusCode, okay, no_content, bad_request, not_found, conflict}
use chat_store.Handlers.Endpoints.{
  Response, Body, keypackage_body, account_body, FetchAccountResponse, post_keypackage,
  get_keypackage, post_account, get_account_bundle,
}
use chat_store.Clients.Requests.{
  Exchange, ClientError, unexpected_status, not_json, failed, Client, status_number, send, pub_hex,
  signature_text,
}
use chat_store.Clients.Benchmark.Payloads.{
  as_device, as_account, key_number, sequence_of, account_payload, keypackage_payload, signing_key,
}

pub record BundleResponse : Type 0 where
  pub payload : String
  pub signature : String

abbrev pub expect_status : Response → StatusCode → String → Result ClientError Response
expect_status response expected operation =
    if beq (status_number response.status) (status_number expected)
    then ok response
    else err (unexpected_status operation expected response.status response.body)

-- `.json()?`: unknown fields are ignored, so that an account's answer reads as a bundle too.
abbrev pub bundle_json : Body → Result ClientError BundleResponse
bundle_json (keypackage_body b) = ok (record { payload = b.payload; signature = b.signature })
bundle_json (account_body b) = ok (record { payload = b.payload; signature = b.signature })
bundle_json other = err not_json

abbrev pub account_json : Body → Result ClientError FetchAccountResponse
account_json (account_body b) = ok b
account_json other = err not_json

-- The exchanges of one flow.
pub record FlowExchanges : Type 0 where
  pub publish_keypackage : Exchange
  pub fetch_keypackage : Exchange
  pub publish_first : Exchange
  pub fetch_first : Exchange
  pub publish_again : Exchange
  pub publish_second : Exchange
  pub fetch_second : Exchange

-- `"0".repeat(n)`
abbrev pub zeros : ℕ → String
zeros zero = ""
zeros (suc n) = String.◌++◌ "0" (zeros n)

module _ (crates : Crates) where
  open crates use {base64_encode, base64_decode, verify_strict, signature_from_bytes}

  unfoldable pub check_error_paths : Exchange → Exchange → Exchange → Client (Unit {0})
  check_error_paths unknown_keypackage unknown_account malformed = do
    r ← send crates unknown_keypackage (get_keypackage (zeros 64))
    lift (expect_status r not_found "fetch unknown keypackage")
    r' ← send crates unknown_account (get_account_bundle (zeros 64))
    lift (expect_status r' not_found "fetch unknown account")
    r'' ←
        send crates malformed
          (post_keypackage (record { device_id = "not-a-key"; payload = "bad"; signature = "bad" }))
    lift (expect_status r'' bad_request "reject malformed keypackage")
    pure tt

  module _ (signing : Signing crates) where
    open signing use {SigningKey, verifying_key}

    unfoldable pub verify_response :
        SigningKey → BundleResponse → Bytes → Result ClientError (Unit {0})
    verify_response key response expected_payload =
        and_then (ok_or (failed "response payload was not base64") (base64_decode response.payload))
          λ payload.
            and_then
              (ok_or (failed "response signature was not base64")
                (base64_decode response.signature))
              λ signature.
                if not (beq (length signature) 64)
                then err (failed "response signature did not contain 64 bytes")
                else if not (eq_bytes payload expected_payload)
                then err (failed "response payload did not match the published payload")
                else if verify_strict (verifying_key key) payload (signature_from_bytes signature)
                then ok tt
                else err (failed "response signature verification failed")

    unfoldable pub publish_account :
        Exchange → SigningKey → String → Bytes → StatusCode → Client (Unit {0})
    publish_account exchange account_key account_pub payload expected = do
      r ← send crates exchange (
          post_account (record {
            account_pub = account_pub;
            payload = base64_encode payload;
            signature = signature_text crates signing account_key payload;
          }))
      lift (expect_status r expected "publish account")
      pure tt

    unfoldable pub exercise_business_flow : FlowExchanges → ℕ → ℕ → Client (Unit {0})
    exercise_business_flow on sequence payload_bytes = do
      let device_key = signing_key crates signing (key_number as_device sequence)
      let device_id = pub_hex crates signing device_key
      let payload = keypackage_payload sequence payload_bytes
      published ← send crates on.publish_keypackage (
          post_keypackage (record {
            device_id = device_id;
            payload = base64_encode payload;
            signature = signature_text crates signing device_key payload;
          }))
      lift (expect_status published no_content "publish keypackage")
      fetched ← send crates on.fetch_keypackage (get_keypackage device_id)
      fetched' ← lift (expect_status fetched okay "fetch keypackage")
      keypackage ← lift (bundle_json fetched'.body)
      lift (verify_response device_key keypackage payload)
      let account_key = signing_key crates signing (key_number as_account sequence)
      let account_pub = pub_hex crates signing account_key
      let first_payload = account_payload 1 payload_bytes
      publish_account on.publish_first account_key account_pub first_payload no_content
      found ← send crates on.fetch_first (get_account_bundle account_pub)
      found' ← lift (expect_status found okay "fetch account")
      account ← lift (account_json found'.body)
      lift (
          if lt_ℤ (pos 0) account.updated_at
          then ok tt
          else err (failed "fetch account: server returned a non-positive updated_at"))
      lift (
          verify_response account_key
            (record { payload = account.payload; signature = account.signature }) first_payload)
      publish_account on.publish_again account_key account_pub first_payload conflict
      let second_payload = account_payload 2 payload_bytes
      publish_account on.publish_second account_key account_pub second_payload no_content
      updated ← send crates on.fetch_second (get_account_bundle account_pub)
      updated' ← lift (expect_status updated okay "fetch updated account")
      updated_account ← lift (account_json updated'.body)
      lift (
          verify_response account_key
            (record { payload = updated_account.payload; signature = updated_account.signature })
            second_payload)

    -- The loop of a worker's thread, from the given operation on, with so many left: the first error
    -- ends it.
    unfoldable pub run_flows : (ℕ → FlowExchanges) → ℕ → ℕ → ℕ → ℕ → Client (Unit {0})
    run_flows on worker operation zero payload_bytes = pure tt
    run_flows on worker operation (suc left) payload_bytes = do
      exercise_business_flow (on operation) (sequence_of worker operation) payload_bytes
      run_flows on worker (operation + 1) left payload_bytes

    unfoldable pub run_worker : (ℕ → FlowExchanges) → ℕ → ℕ → ℕ → Client ℕ
    run_worker on worker operations payload_bytes = do
      run_flows on worker 0 operations payload_bytes
      pure operations

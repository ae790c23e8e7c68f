-- ===== src/Clients/Benchmark/Success.antt =====
-- The business flow of examples/benchmark.rs against the modelled service: it passes.
use chat_store.Common.{ℕ, ◌≡◌, refl, true, false, none, some, arith, String}
use chat_store.Common.Int.{pos, lt_ℤ}
use chat_store.Common.Exec.{ok}
use chat_store.Rust.{as_i64}
use chat_store.Rust.Bytes.{Bytes, IsBytes}
use chat_store.Crates.{Crates}
use chat_store.Crates.Signing.{Signing, SigningLaws, EncodingLaws}
use chat_store.Store.{Store, Env, now_ms, StoredAccountBundle}
use chat_store.Store.Accounts.Reading.{stored_lamport-put}
use chat_store.Bundle.{Bundle}
use chat_store.Store.Lamport.{payload_lamport}
use chat_store.Store.Accounts.{stored_lamport, is_stale}
use chat_store.Store.Cases.{received, add_keypackage, put_account}
use chat_store.Bundle.Cases.{kept_keypackage, kept_account}
use chat_store.Handlers.Errors.{no_content}
use chat_store.Handlers.Conflicts.{Healthy}
use chat_store.Handlers.Endpoints.{
  nothing, post_keypackage, get_keypackage, get_account_bundle, keypackage_response,
  account_response,
}
use chat_store.Clients.Requests.{answered, send}
use chat_store.Clients.Publishing.{
  public_key, signed, keypackage_request, submit_key_package-signed,
}
use chat_store.Clients.Fetching.{
  Earlier, find-Earlier, fetch_key_package-inserted, fetch_account-put, send-answered,
  stored_lamport-add,
}
use chat_store.Clients.Benchmark.Payloads.{
  as_device, as_account, key_number, signing_key, keypackage_payload, account_payload,
  IsBytes-keypackage_payload, IsBytes-account_payload, payload_lamport-account_payload,
}
use chat_store.Clients.Benchmark.Flow.{exercise_business_flow}
use chat_store.Clients.Benchmark.Accepted.{
  FlowEnvs, all_answered, AreHealthy, verify_response-signed, publish_account-accepted,
  publish_account-refused,
}

module _ (crates : Crates) (signing : Signing crates) (laws : SigningLaws crates signing)
    (encoding : EncodingLaws crates) where
  open signing use {SigningKey, verifying_key, sign, signature_to_bytes}

  module _ (on : FlowEnvs) (sequence payload_bytes : ℕ) (s : Store) where
    abbrev pub device_key : SigningKey
    device_key = signing_key crates signing (key_number as_device sequence)

    abbrev pub account_key : SigningKey
    account_key = signing_key crates signing (key_number as_account sequence)

    abbrev pub device_id : String
    device_id = public_key crates signing device_key

    abbrev pub account_pub : String
    account_pub = public_key crates signing account_key

    abbrev pub device_bundle : Bundle
    device_bundle = signed crates signing device_key (keypackage_payload sequence payload_bytes)

    abbrev pub published : Store
    published =
        add_keypackage (received on.publish_keypackage device_id (kept_keypackage device_bundle)) s

    abbrev pub with_account : Env → ℕ → Store → Store
    with_account env lamport =
        put_account env account_pub
          (kept_account (signed crates signing account_key (account_payload lamport payload_bytes)))

    -- What a flow leaves: its keypackage, and the second version of its account bundle.
    abbrev pub flowed : Store
    flowed = with_account on.publish_second 2 (with_account on.publish_first 1 published)

    module _ (fine : AreHealthy on) (earlier : Earlier on.publish_keypackage device_id s)
        (unknown : stored_lamport account_pub s ≡ none) where
      abbrev payload : Bytes
      payload = keypackage_payload sequence payload_bytes

      abbrev version : ℕ → Bytes
      version lamport = account_payload lamport payload_bytes

      abbrev account_bundle : ℕ → StoredAccountBundle
      account_bundle lamport = kept_account (signed crates signing account_key (version lamport))

      abbrev stored : Store
      stored = with_account on.publish_first 1 published

      payload-IsBytes : IsBytes payload
      payload-IsBytes = IsBytes-keypackage_payload sequence payload_bytes

      version-IsBytes : (lamport : ℕ) → IsBytes (version lamport)
      version-IsBytes lamport = IsBytes-account_payload lamport payload_bytes

      lamport_of_first : payload_lamport (version 1) ≡ some 1
      lamport_of_first = payload_lamport-account_payload 1 payload_bytes (omega arith)

      lamport_of_second : payload_lamport (version 2) ≡ some 2
      lamport_of_second = payload_lamport-account_payload 2 payload_bytes (omega arith)

      unknown_yet : is_stale 1 (stored_lamport account_pub published) ≡ false
      unknown_yet = rw (stored_lamport-add, unknown) refl

      first_on_file : stored_lamport account_pub stored ≡ some 1
      first_on_file =
          stored_lamport-put on.publish_first account_pub (account_bundle 1) published 1
            lamport_of_first

      keypackage_published :
          send crates
            (answered on.publish_keypackage)
            (post_keypackage (keypackage_request crates signing device_key payload))
            s
          ≡ (ok (record { status = no_content; body = nothing }), published)
      keypackage_published = send-answered crates on.publish_keypackage _ s _ _ (
          submit_key_package-signed crates signing laws encoding on.publish_keypackage device_key
            payload s payload-IsBytes fine.publish_keypackage
            (find-Earlier crates on.publish_keypackage device_id (kept_keypackage device_bundle) s
              earlier))

      keypackage_fetched :
          send crates (answered on.fetch_keypackage) (get_keypackage device_id) published
          ≡ (ok (keypackage_response crates (kept_keypackage device_bundle)), published)
      keypackage_fetched = send-answered crates on.fetch_keypackage _ published _ _ (
          fetch_key_package-inserted crates on.publish_keypackage device_id
            (kept_keypackage device_bundle) s on.fetch_keypackage fine.publish_keypackage
            fine.fetch_keypackage earlier)

      account_fetched :
          (env env' : Env) (lamport : ℕ) (t : Store)
          → Healthy env'
          → send crates
              (answered env')
              (get_account_bundle account_pub)
              (with_account env lamport t)
            ≡ (
              ok (
                  account_response crates (record (account_bundle lamport) {
                    updated_at = as_i64 (now_ms env.since_epoch);
                  })),
              with_account env lamport t,
            )
      account_fetched env env' lamport t healthy =
          send-answered crates env' _ (with_account env lamport t) _ _
            (fetch_account-put crates env account_pub (account_bundle lamport) t env' healthy)

      -- Where the database answers every statement, the device's rows were all received before,
      -- nothing is on file for the account, and the clock is past the epoch, a flow passes all its
      -- checks, and leaves its keypackage and the second version of its account bundle.
      pub exercise_business_flow_passes :
          lt_ℤ (pos 0) (as_i64 (now_ms on.publish_first.since_epoch)) ≡ true
          → exercise_business_flow crates signing (all_answered on) sequence payload_bytes s
            ≡ (ok tt, flowed)
      unfolding exercise_business_flow
      exercise_business_flow_passes late =
          rw
            (
              keypackage_published,
              keypackage_fetched,
              verify_response-signed crates signing laws encoding device_key payload
                  payload-IsBytes,
              publish_account-accepted crates signing laws encoding on.publish_first account_key
                  (version 1) 1 published (version-IsBytes 1) fine.publish_first lamport_of_first
                  unknown_yet,
              account_fetched on.publish_first on.fetch_first 1 published fine.fetch_first,
              late,
              verify_response-signed crates signing laws encoding account_key (version 1)
                  (version-IsBytes 1),
              publish_account-refused crates signing laws encoding on.publish_again account_key
                  (version 1) 1 stored (version-IsBytes 1) fine.publish_again lamport_of_first
                  (rw first_on_file refl),
              publish_account-accepted crates signing laws encoding on.publish_second account_key
                  (version 2) 2 stored (version-IsBytes 2) fine.publish_second lamport_of_second
                  (rw first_on_file refl),
              account_fetched on.publish_second on.fetch_second 2 stored fine.fetch_second,
              verify_response-signed crates signing laws encoding account_key (version 2)
                  (version-IsBytes 2),
            )
            refl

-- ===== src/Suite/Bundles.antt =====
-- The tests of src/bundle.rs on keypackages and account bundles. `non_protobuf_bytes_are_rejected`
-- is about prost alone and is left out.
pub mod Passing
pub mod Logs
use chat_store.Common.{
  ℕ, String, Bool, true, false, Option, none, some, [], ◌∷◌, ◌++◌, ◌==◌, replicate, if◌then◌else◌,
}
use chat_store.Common.Exec.{Result, ok, err, pure, lift, ◌>>=◌, ◌>>◌}
use chat_store.Rust.Bytes.{Bytes, eq_bytes, to_le_bytes}
use chat_store.Crates.{Crates, Submission}
use chat_store.Crates.Signing.{Signing, Encoding}
use chat_store.Store.{Env}
use chat_store.Store.Lamport.{ascii}
use chat_store.Store.KeyPackages.{latest}
use chat_store.Bundle.{
  Bundle, BundleError, invalid, stale, from_bytes, key_hex, apply_keypackage, apply_account,
}
use chat_store.Handlers.Errors.{decode_bundle}
use chat_store.Handlers.Endpoints.{SubmitKeyPackageRequest}
use chat_store.Suite.{
  Check, Surroundings, assert, flipped, unwrap, unwrap_err, unwrap_some, unwrap_result,
}

-- `matches!(err, BundleError::Invalid(message))`
abbrev pub is_invalid : {E : Type 0} → String → BundleError E → Bool
is_invalid message (invalid msg) = msg == message
is_invalid message _ = false

-- `matches!(err, BundleError::Stale)`
abbrev pub is_stale_error : {E : Type 0} → BundleError E → Bool
is_stale_error stale = true
is_stale_error _ = false

abbrev pub is_none : {A : Type 0} → Option A → Bool
is_none none = true
is_none (some _) = false

-- `ACCOUNT_BUNDLE_DOMAIN`
abbrev pub test_domain : Bytes
test_domain = ascii "libchat:account-device-bundle" ++ 0 ∷ []

abbrev pub test_payload : ℕ → Bytes
test_payload lamport = (test_domain ++ 1 ∷ []) ++ to_le_bytes 8 lamport

abbrev pub sample : Bytes
sample = ascii "ts-and-keypackage-bytes"

unfoldable pub short_key_is_rejected : Type 0 → Check (Unit {0})
short_key_is_rejected E = do
  e ← lift (flipped (from_bytes {E = E} (replicate 31 1) (ascii "payload") (replicate 64 0)))
  lift (assert (is_invalid "key: must be 32 bytes" e))

module _ (crates : Crates) (signing : Signing crates) where
  open signing use {
    SigningKey, key_from_bytes, verifying_key, verifying_key_to_bytes, sign, signature_to_bytes,
  }

  abbrev pub test_key : ℕ → SigningKey
  test_key seed = key_from_bytes (replicate 32 seed)

  abbrev pub key_bytes : SigningKey → Bytes
  key_bytes key = verifying_key_to_bytes (verifying_key key)

  abbrev pub account_submission :
      SigningKey → Bytes → Result (BundleError crates.AccountLogError) Bundle
  account_submission key payload =
      from_bytes (key_bytes key) payload (signature_to_bytes (sign key payload))

  abbrev pub keypackage_submission_json : SigningKey → Bytes → SubmitKeyPackageRequest
  keypackage_submission_json key payload = record {
    device_id = crates.hex_encode (key_bytes key);
    payload = crates.base64_encode payload;
    signature = crates.base64_encode (signature_to_bytes (sign key payload));
  }

  unfoldable pub account_bundle_upserts_and_rejects_stale_replay : Surroundings → Check (Unit {0})
  account_bundle_upserts_and_rejects_stale_replay env = do
    let key = test_key 3
    first ← lift (unwrap_result (account_submission key (test_payload 1)))
    unwrap (apply_account crates (env 0) first)
    second ← lift (unwrap_result (account_submission key (test_payload 2)))
    unwrap (apply_account crates (env 1) second)
    replay ← lift (unwrap_result (account_submission key (test_payload 2)))
    e ← unwrap_err (apply_account crates (env 2) replay)
    lift (assert (is_stale_error e))

  module _ (messages : Encoding crates) where
    abbrev pub keypackage_submission_proto : SigningKey → Bytes → Bytes
    keypackage_submission_proto key payload = messages.encode_keypackage_submission (record {
      key = key_bytes key;
      payload = payload;
      signature = signature_to_bytes (sign key payload);
    })

    -- The message that a submission decodes to, and the bundle that it carries.
    abbrev pub bundle_of_wire : Submission → Result (BundleError crates.AccountLogError) Bundle
    bundle_of_wire wire = from_bytes wire.key wire.payload wire.signature

    unfoldable pub proto_and_json_keypackage_wires_agree : Check (Unit {0})
    proto_and_json_keypackage_wires_agree = do
      let key = test_key 1
      wire ← lift (
          unwrap_some
            (crates.decode_keypackage_submission (keypackage_submission_proto key sample)))
      from_proto ← lift (unwrap_result (bundle_of_wire wire))
      let body = keypackage_submission_json key sample
      from_json ←
          lift (unwrap_result (decode_bundle crates body.device_id body.payload body.signature))
      lift (assert (key_hex crates from_proto == key_hex crates from_json))
      lift (assert (eq_bytes from_proto.payload from_json.payload))
      lift (assert (eq_bytes from_proto.signature from_json.signature))

    unfoldable pub wire_proto_keypackage_is_parsed_verified_and_stored :
        Surroundings → Check (Unit {0})
    wire_proto_keypackage_is_parsed_verified_and_stored env = do
      wire ← lift (
          unwrap_some
            (crates.decode_keypackage_submission (keypackage_submission_proto (test_key 1) sample)))
      bundle ← lift (unwrap_result (bundle_of_wire wire))
      unwrap (apply_keypackage crates (env 0) bundle)
      found ← unwrap (latest (env 1) (key_hex crates bundle))
      stored ← lift (unwrap_some found)
      lift (assert (eq_bytes stored.payload sample))

    unfoldable pub tampered_keypackage_bundle_is_rejected : Surroundings → Check (Unit {0})
    tampered_keypackage_bundle_is_rejected env = do
      original ← lift (
          unwrap_some (
            crates.decode_keypackage_submission
              (keypackage_submission_proto (test_key 2) (ascii "original"))))
      let wire = record original { payload = ascii "tampered" }
      bundle ← lift (unwrap_result (bundle_of_wire wire))
      e ← unwrap_err (apply_keypackage crates (env 0) bundle)
      lift (assert (is_invalid "signature: verification failed" e))
      found ← unwrap (latest (env 1) (key_hex crates bundle))
      lift (assert (is_none found))

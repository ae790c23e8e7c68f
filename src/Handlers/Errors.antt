-- ===== src/Handlers/Errors.antt =====
-- src/handlers.rs: the text encoding of bundles, and the errors of the HTTP interface.
use Prim.Native.String.{◌++◌}
use chat_store.Common.{String}
use chat_store.Common.Exec.{Result, ok_or, and_then}
use chat_store.Crates.{Crates}
use chat_store.Store.{StoreError, show}
use chat_store.Bundle.{Bundle, invalid, malformed_log, stale, forked, internal, from_bytes, Error}

-- The status codes that the service answers with; `okay` is 200.
pub data StatusCode : Type 0 where
  okay no_content bad_request not_found conflict internal_server_error : StatusCode

pub record ApiError : Type 0 where
  pub status : StatusCode
  pub message : String

abbrev pub api_not_found : String → ApiError
api_not_found msg = record { status = not_found; message = msg }

-- `ApiError::internal`: the error goes to the log, and only this text to the client.
abbrev pub api_internal : StoreError → ApiError
api_internal err = record { status = internal_server_error; message = "internal error" }

module _ (crates : Crates) where
  open crates use {hex_decode, base64_decode, AccountLogError, log_error_to_string}

  unfoldable pub decode_bundle : String → String → String → Result (Error crates) Bundle
  unfolding from_bytes
  decode_bundle key_hex payload_b64 signature_b64 =
      and_then (ok_or (invalid "key: must be hex") (hex_decode key_hex)) λ key.
        and_then (ok_or (invalid "payload: not valid base64") (base64_decode payload_b64))
          λ payload.
            and_then (ok_or (invalid "signature: not valid base64") (base64_decode signature_b64))
              λ signature. from_bytes key payload signature

  -- `Display` of a `BundleError`.
  unfoldable pub display : Error crates → String
  display (invalid msg) = msg
  display (malformed_log err) = log_error_to_string err
  display stale = "stale bundle: not newer than the stored one"
  display forked = "forked log: does not extend the stored one"
  display (internal err) = "internal: " ++ show err

  -- `From<BundleError> for ApiError`
  unfoldable pub to_api_error : Error crates → ApiError
  unfolding display
  to_api_error (invalid msg) = record { status = bad_request; message = msg }
  to_api_error (malformed_log err) = record {
    status = bad_request;
    message = display (malformed_log err);
  }
  to_api_error stale = record { status = conflict; message = display stale }
  to_api_error forked = record { status = conflict; message = display forked }
  to_api_error (internal inner) = api_internal inner

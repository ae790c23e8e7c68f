-- ===== src/Clients/Publishing.antt =====
-- What the service answers to the holder of a key who signs what it submits, where the database
-- answers every statement.
use chat_store.Common.{ℕ, ◌≡◌, refl, String, true, false, none, some, find}
use chat_store.Common.Exec.{ok}
use chat_store.Rust.Bytes.{Bytes, IsBytes}
use chat_store.Crates.{Crates}
use chat_store.Crates.Signing.{Signing, SigningLaws, EncodingLaws}
use chat_store.Store.{Store, Env, begin, fetch, write, commit}
use chat_store.Store.Lamport.{payload_lamport}
use chat_store.Store.KeyPackages.{same_key}
use chat_store.Store.Accounts.{stored_lamport, is_stale, upsert_account}
use chat_store.Store.Cases.{received, add_keypackage, put_account}
use chat_store.Bundle.{Bundle, from_bytes, key_hex, verify, apply_keypackage, apply_account}
use chat_store.Bundle.Cases.{kept_keypackage, kept_account}
use chat_store.Handlers.Errors.{no_content, conflict, decode_bundle, to_api_error, display}
use chat_store.Handlers.Conflicts.{Healthy}
use chat_store.Handlers.Endpoints.{
  SubmitKeyPackageRequest, SubmitAccountRequest, nothing, error_body, post_keypackage, post_account,
  submit_key_package, submit_account, handle, serve,
}
use chat_store.Clients.Requests.{pub_hex, signature_text}
use chat_store.Clients.Fetching.{insert-free}

module _ (crates : Crates) (signing : Signing crates) where
  open signing use {SigningKey, verifying_key, verifying_key_to_bytes, sign, signature_to_bytes}

  abbrev pub public_key : SigningKey → String
  public_key key = pub_hex crates signing key

  -- The bundle that a submission of the payload carries.
  abbrev pub signed : SigningKey → Bytes → Bundle
  signed key payload = record {
    key = verifying_key_to_bytes (verifying_key key);
    payload = payload;
    signature = signature_to_bytes (sign key payload);
  }

  abbrev pub keypackage_request : SigningKey → Bytes → SubmitKeyPackageRequest
  keypackage_request key payload = record {
    device_id = public_key key;
    payload = crates.base64_encode payload;
    signature = signature_text crates signing key payload;
  }

  abbrev pub account_request : SigningKey → Bytes → SubmitAccountRequest
  account_request key payload = record {
    account_pub = public_key key;
    payload = crates.base64_encode payload;
    signature = signature_text crates signing key payload;
  }

module _ (crates : Crates) (signing : Signing crates) (laws : SigningLaws crates signing)
    (encoding : EncodingLaws crates) where
  open signing use {SigningKey, verifying_key, sign}

  pub decode-signed :
      (key : SigningKey) (payload : Bytes)
      → IsBytes payload
      → decode_bundle crates
          (public_key crates signing key)
          (crates.base64_encode payload)
          (signature_text crates signing key payload)
        ≡ ok (signed crates signing key payload)
  unfolding decode_bundle from_bytes
  decode-signed key payload h =
      rw
        (
          encoding.hex_decode-encode _ (laws.IsBytes-key (verifying_key key)),
          encoding.base64_decode-encode payload h,
          encoding.base64_decode-encode _ (laws.IsBytes-signature key payload),
          laws.length-key (verifying_key key),
          laws.length-signature key payload,
        )
        refl

  pub verify-signed :
      (key : SigningKey) (payload : Bytes)
      → verify crates (signed crates signing key payload) ≡ ok tt
  unfolding verify
  verify-signed key payload =
      rw
        (
          laws.from_bytes-to_bytes key,
          laws.signature_from_bytes-to_bytes key payload,
          laws.verify_strict-sign key payload,
        )
        refl

  -- A keypackage is stored, where its row's primary key is free.
  pub submit_key_package-signed :
      (env : Env) (key : SigningKey) (payload : Bytes) (s : Store)
      → IsBytes payload
      → Healthy env
      → find
          (same_key (
            received env
              (public_key crates signing key)
              (kept_keypackage (signed crates signing key payload))))
          s.keypackages
        ≡ none
      → serve crates env (post_keypackage (keypackage_request crates signing key payload)) s ≡ (
        record { status = no_content; body = nothing },
        add_keypackage
            (received env
              (public_key crates signing key)
              (kept_keypackage (signed crates signing key payload)))
            s,
      )
  unfolding serve handle submit_key_package apply_keypackage key_hex
  submit_key_package-signed env key payload s h fine free =
      rw (decode-signed key payload h, verify-signed key payload, insert-free env _ _ s fine free)
        refl

  -- An account bundle is stored, where its lamport is not stale.
  pub submit_account-signed :
      (env : Env) (key : SigningKey) (payload : Bytes) (lamport : ℕ) (s : Store)
      → IsBytes payload
      → Healthy env
      → payload_lamport payload ≡ some lamport
      → is_stale lamport (stored_lamport (public_key crates signing key) s) ≡ false
      → serve crates env (post_account (account_request crates signing key payload)) s ≡ (
        record { status = no_content; body = nothing },
        put_account env
            (public_key crates signing key)
            (kept_account (signed crates signing key payload))
            s,
      )
  unfolding serve handle submit_account apply_account upsert_account key_hex
  submit_account-signed env key payload lamport s h fine carries newer =
      rw
        (
          decode-signed key payload h,
          verify-signed key payload,
          carries,
          fine begin,
          fine fetch,
          newer,
          fine write,
          fine commit,
        )
        refl

  -- A stale one is answered 409, and changes nothing.
  pub submit_account-stale :
      (env : Env) (key : SigningKey) (payload : Bytes) (lamport : ℕ) (s : Store)
      → IsBytes payload
      → Healthy env
      → payload_lamport payload ≡ some lamport
      → is_stale lamport (stored_lamport (public_key crates signing key) s) ≡ true
      → serve crates env (post_account (account_request crates signing key payload)) s ≡ (
        record {
          status = conflict;
          body = error_body "stale bundle: not newer than the stored one";
        },
        s,
      )
  unfolding serve handle submit_account apply_account upsert_account key_hex to_api_error display
  submit_account-stale env key payload lamport s h fine carries old =
      rw
        (
          decode-signed key payload h,
          verify-signed key payload,
          carries,
          fine begin,
          fine fetch,
          old,
        )
        refl

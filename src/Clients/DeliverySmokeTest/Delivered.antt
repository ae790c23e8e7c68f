-- ===== src/Clients/DeliverySmokeTest/Delivered.antt =====
-- What a submission over the delivery network does once it reaches the service.
use chat_store.Common.{ℕ, ◌≡◌, refl, String, none, some, arith, [], ◌∷◌, ◌++◌, All-append}
use chat_store.Common.Exec.{ok}
use chat_store.Rust.Bytes.{Bytes, IsByte, IsBytes, to_le_bytes, IsBytes-to_le_bytes}
use chat_store.Crates.{Crates}
use chat_store.Crates.Signing.{Signing, SigningLaws, EncodingLaws, Encoding, MessageLaws}
use chat_store.Store.{Store, Env}
use chat_store.Store.Lamport.{ascii, payload_lamport}
use chat_store.Store.Lamport.Layout.{payload_lamport-header}
use chat_store.Store.Accounts.{stored_lamport}
use chat_store.Store.Cases.{received, add_keypackage, put_account}
use chat_store.Bundle.Cases.{kept_keypackage, kept_account}
use chat_store.Handlers.Conflicts.{Healthy}
use chat_store.Handlers.Endpoints.{Request, Response, serve}
use chat_store.Handlers.Errors.{okay}
use chat_store.Delivery.{filter_event, message, key_package, account}
use chat_store.Delivery.Agreement.{http-delivery_keypackage, http-delivery_account}
use chat_store.Clients.Requests.{answered}
use chat_store.Clients.Publishing.{
  public_key, signed, submit_key_package-signed, submit_account-signed, keypackage_request,
  account_request,
}
use chat_store.Clients.Fetching.{Earlier, find-Earlier, send-answered}
use chat_store.Clients.Benchmark.Waiting.{Poll}
use chat_store.Clients.DeliverySmokeTest.{
  delivered, publish, submission, timed_payload, devices_payload, account_domain, poll_until_stored,
  keypackage_topic, account_topic,
}

pub IsBytes-timed_payload : (seed_ms : ℕ) → IsBytes (timed_payload seed_ms)
unfolding timed_payload
IsBytes-timed_payload seed_ms =
    All-append IsByte (to_le_bytes 8 seed_ms) (ascii "delivery-smoke-keypackage")
      (IsBytes-to_le_bytes 8 seed_ms) (ground arith)

pub IsBytes-devices_payload : IsBytes devices_payload
unfolding devices_payload
IsBytes-devices_payload =
    All-append IsByte ((account_domain ++ 1 ∷ []) ++ to_le_bytes 8 1)
      (ascii "delivery-smoke-devices")
      (All-append IsByte (account_domain ++ 1 ∷ []) (to_le_bytes 8 1) (ground arith)
        (IsBytes-to_le_bytes 8 1))
      (ground arith)

pub lamport_of_devices : payload_lamport devices_payload ≡ some 1
unfolding devices_payload
lamport_of_devices = payload_lamport-header 1 1 (ascii "delivery-smoke-devices") (omega arith)

filter_event-keypackage :
    (bytes : Bytes)
    → filter_event (message keypackage_topic (some bytes)) ≡ some (key_package bytes)
unfolding filter_event
filter_event-keypackage bytes = refl

filter_event-account :
    (bytes : Bytes) → filter_event (message account_topic (some bytes)) ≡ some (account bytes)
unfolding filter_event
filter_event-account bytes = refl

-- A poll whose first request is answered with a success is over.
pub poll_until_stored-first :
    (crates : Crates) (polls : ℕ → Poll) (request : Request) (what : String) (s : Store) (env : Env)
    (response : Response)
    → (polls 0).exchange ≡ answered env
    → serve crates env request s ≡ (response, s)
    → response.status ≡ okay
    → poll_until_stored crates 47 polls 0 request what s ≡ some (ok tt, s)
unfolding poll_until_stored
poll_until_stored-first crates polls request what s env response first served good =
    rw (first, send-answered crates env request s s response served, good) refl

module _ (crates : Crates) (signing : Signing crates) (messages : Encoding crates)
    (laws : SigningLaws crates signing) (encoding : EncodingLaws crates)
    (parsing : MessageLaws crates messages) where
  open signing use {SigningKey, verifying_key}

  -- A delivered keypackage is stored as a POST of it is.
  pub publish-keypackage :
      (env : Env) (key : SigningKey) (payload : Bytes) (s : Store)
      → IsBytes payload
      → Healthy env
      → Earlier env (public_key crates signing key) s
      → publish crates
          (delivered env)
          keypackage_topic
          (messages.encode_keypackage_submission (submission crates signing messages key payload))
          s
        ≡ (
          ok tt,
          add_keypackage
              (received env
                (public_key crates signing key)
                (kept_keypackage (signed crates signing key payload)))
              s,
        )
  unfolding publish
  publish-keypackage env key payload s h fine earlier =
      let wire = submission crates signing messages key payload in
      let bytes = messages.encode_keypackage_submission wire in
      let bundle = kept_keypackage (signed crates signing key payload) in
      let same =
        http-delivery_keypackage crates s wire env bytes
          (keypackage_request crates signing key payload)
          (parsing.keypackage_decode-encode wire (laws.IsBytes-key (verifying_key key)) h
            (laws.IsBytes-signature key payload))
          (encoding.hex_decode-encode _ (laws.IsBytes-key (verifying_key key)))
          (encoding.base64_decode-encode payload h)
          (encoding.base64_decode-encode _ (laws.IsBytes-signature key payload)) in
      let posted =
        submit_key_package-signed crates signing laws encoding env key payload s h fine
          (find-Earlier crates env (public_key crates signing key) bundle s earlier) in
      rw (filter_event-keypackage bytes, same, posted) refl

  pub publish-account :
      (env : Env) (key : SigningKey) (payload : Bytes) (lamport : ℕ) (s : Store)
      → IsBytes payload
      → Healthy env
      → payload_lamport payload ≡ some lamport
      → stored_lamport (public_key crates signing key) s ≡ none
      → publish crates
          (delivered env)
          account_topic
          (messages.encode_account_submission (submission crates signing messages key payload))
          s
        ≡ (
          ok tt,
          put_account env
              (public_key crates signing key)
              (kept_account (signed crates signing key payload))
              s,
        )
  unfolding publish
  publish-account env key payload lamport s h fine carries unknown =
      let wire = submission crates signing messages key payload in
      let bytes = messages.encode_account_submission wire in
      let same =
        http-delivery_account crates s wire env bytes (account_request crates signing key payload)
          (parsing.account_decode-encode wire (laws.IsBytes-key (verifying_key key)) h
            (laws.IsBytes-signature key payload))
          (encoding.hex_decode-encode _ (laws.IsBytes-key (verifying_key key)))
          (encoding.base64_decode-encode payload h)
          (encoding.base64_decode-encode _ (laws.IsBytes-signature key payload)) in
      let posted =
        submit_account-signed crates signing laws encoding env key payload lamport s h fine carries
          (rw unknown refl) in
      rw (filter_event-account bytes, same, posted) refl

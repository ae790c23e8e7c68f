-- ===== src/Clients/Benchmark/Accepted.antt =====
-- The steps of the business flow of examples/benchmark.rs: what is published by the holder of a key
-- is accepted or refused as expected, and what is served passes the check.
use chat_store.Common.{ℕ, ◌≡◌, refl, true, false, some}
use chat_store.Common.Exec.{ok}
use chat_store.Rust.Bytes.{Bytes, IsBytes, eq_bytes_refl}
use chat_store.Crates.{Crates}
use chat_store.Crates.Signing.{Signing, SigningLaws, EncodingLaws}
use chat_store.Store.{Store, Env}
use chat_store.Store.Lamport.{payload_lamport}
use chat_store.Store.Accounts.{stored_lamport, is_stale}
use chat_store.Store.Cases.{put_account}
use chat_store.Bundle.Cases.{kept_account}
use chat_store.Handlers.Errors.{no_content, conflict}
use chat_store.Handlers.Conflicts.{Healthy}
use chat_store.Clients.Requests.{answered, signature_text}
use chat_store.Clients.Publishing.{public_key, signed, submit_account-signed, submit_account-stale}
use chat_store.Clients.Fetching.{send-answered}
use chat_store.Clients.Benchmark.Flow.{FlowExchanges, verify_response, publish_account}

-- The surroundings in which the seven requests of a flow are served.
pub record FlowEnvs : Type 0 where
  pub publish_keypackage : Env
  pub fetch_keypackage : Env
  pub publish_first : Env
  pub fetch_first : Env
  pub publish_again : Env
  pub publish_second : Env
  pub fetch_second : Env

abbrev pub all_answered : FlowEnvs → FlowExchanges
all_answered envs = record {
  publish_keypackage = answered envs.publish_keypackage;
  fetch_keypackage = answered envs.fetch_keypackage;
  publish_first = answered envs.publish_first;
  fetch_first = answered envs.fetch_first;
  publish_again = answered envs.publish_again;
  publish_second = answered envs.publish_second;
  fetch_second = answered envs.fetch_second;
}

pub record AreHealthy (envs : FlowEnvs) : Type 0 where
  pub publish_keypackage : Healthy envs.publish_keypackage
  pub fetch_keypackage : Healthy envs.fetch_keypackage
  pub publish_first : Healthy envs.publish_first
  pub fetch_first : Healthy envs.fetch_first
  pub publish_again : Healthy envs.publish_again
  pub publish_second : Healthy envs.publish_second
  pub fetch_second : Healthy envs.fetch_second

module _ (crates : Crates) (signing : Signing crates) (laws : SigningLaws crates signing)
    (encoding : EncodingLaws crates) where
  open signing use {SigningKey, verifying_key, sign, signature_to_bytes}

  pub verify_response-signed :
      (key : SigningKey) (payload : Bytes)
      → IsBytes payload
      → verify_response crates signing key
          (record {
            payload = crates.base64_encode payload;
            signature = signature_text crates signing key payload;
          })
          payload
        ≡ ok tt
  unfolding verify_response
  verify_response-signed key payload h =
      rw
        (
          encoding.base64_decode-encode payload h,
          encoding.base64_decode-encode _ (laws.IsBytes-signature key payload),
          laws.length-signature key payload,
          eq_bytes_refl payload,
          laws.signature_from_bytes-to_bytes key payload,
          laws.verify_strict-sign key payload,
        )
        refl

  module _ (env : Env) (key : SigningKey) (payload : Bytes) (lamport : ℕ) (s : Store)
      (h : IsBytes payload) (fine : Healthy env)
      (carries : payload_lamport payload ≡ some lamport) where
    pub publish_account-accepted :
        is_stale lamport (stored_lamport (public_key crates signing key) s) ≡ false
        → publish_account crates signing
            (answered env)
            key
            (public_key crates signing key)
            payload
            no_content
            s
          ≡ (
            ok tt,
            put_account env
                (public_key crates signing key)
                (kept_account (signed crates signing key payload))
                s,
          )
    unfolding publish_account
    publish_account-accepted newer =
        rw
          (send-answered crates env _ s _ _ (
            submit_account-signed crates signing laws encoding env key payload lamport s h fine
              carries newer))
          refl

    pub publish_account-refused :
        is_stale lamport (stored_lamport (public_key crates signing key) s) ≡ true
        → publish_account crates signing
            (answered env)
            key
            (public_key crates signing key)
            payload
            conflict
            s
          ≡ (ok tt, s)
    unfolding publish_account
    publish_account-refused old =
        rw
          (send-answered crates env _ s _ _ (
            submit_account-stale crates signing laws encoding env key payload lamport s h fine
              carries old))
          refl

-- ===== src/Clients/Benchmark/Together.antt =====
-- A worker of examples/benchmark.rs while the others run too.
use chat_store.Common.{
  ℕ, zero, suc, ◌+◌, ◌*◌, ◌^◌, ◌≤◌, ◌<◌, String, Bool, true, ◌≡◌, ap, ◌∙◌, List, All, arith,
}
use chat_store.Common.Int.{pos, lt_ℤ}
use chat_store.Common.Exec.{ok}
use chat_store.Rust.{as_i64}
use chat_store.Rust.Bytes.{Bytes, IsBytes}
use chat_store.Crates.{Crates}
use chat_store.Crates.Laws.{AccountLogLaws}
use chat_store.Crates.Signing.{Signing, SigningLaws, EncodingLaws}
use chat_store.Store.{Store, now_ms}
use chat_store.Bundle.{key_hex}
use chat_store.Handlers.Errors.{StatusCode}
use chat_store.Handlers.Endpoints.{post_keypackage, post_account}
use chat_store.Handlers.Isolation.{touches, key_of}
use chat_store.Service.{Cli}
use chat_store.Clients.Requests.{Exchange}
use chat_store.Clients.Publishing.{public_key, keypackage_request, account_request, decode-signed}
use chat_store.Clients.Threads.{
  finished, Occurrence, own_turns, IsAbout, IsElsewhere, meanwhile, meanwhile-result,
}
use chat_store.Clients.Threads.Solo.{IsAbout-then}
use chat_store.Clients.Benchmark.Payloads.{
  as_device, as_account, key_number, sequence_of, signing_key, IsBytes-keypackage_payload,
  IsBytes-account_payload,
}
use chat_store.Clients.Benchmark.Accepted.{FlowEnvs, all_answered, AreHealthy}
use chat_store.Clients.Benchmark.Flow.{FlowExchanges}
use chat_store.Clients.Benchmark.Requests.{
  publish_account_thread, flow_thread, flows_thread, worker_thread,
}
use chat_store.Clients.Benchmark.Interleaved.{worker-Same}
use chat_store.Clients.Benchmark.Keys.{OwnsFlows}
use chat_store.Clients.Benchmark.Turns.{worker-IsWithin}
use chat_store.Clients.Benchmark.Workers.{AreDistinct, AreUnknown, run_worker_passes}

module _ (crates : Crates) (signing : Signing crates) (laws : SigningLaws crates signing)
    (encoding : EncodingLaws crates) (owned : String → Bool) where
  -- What is signed with a key is filed under it.
  keypackage_about :
      (key : signing.SigningKey) (payload : Bytes) (v : Bool)
      → IsBytes payload
      → owned (public_key crates signing key) ≡ v
      → touches owned
          (key_of crates (post_keypackage (keypackage_request crates signing key payload)))
        ≡ v
  unfolding key_of key_hex
  keypackage_about key payload v h mine =
      rw (decode-signed crates signing laws encoding key payload h) mine

  pub account_about :
      (key : signing.SigningKey) (payload : Bytes) (v : Bool)
      → IsBytes payload
      → owned (public_key crates signing key) ≡ v
      → touches owned (key_of crates (post_account (account_request crates signing key payload)))
        ≡ v
  unfolding key_of key_hex
  account_about key payload v h mine =
      rw (decode-signed crates signing laws encoding key payload h) mine

  publish_account-IsAbout :
      (exchange : Exchange) (key : signing.SigningKey) (payload : Bytes) (expected : StatusCode)
      → IsBytes payload
      → owned (public_key crates signing key) ≡ true
      → IsAbout crates owned (
          publish_account_thread crates signing exchange key
            (public_key crates signing key)
            payload
            expected)
  unfolding publish_account_thread
  publish_account-IsAbout exchange key payload expected h mine =
      IsAbout-then crates owned _ _ (account_about key payload true h mine, λ r. tt)
        λ r. IsAbout-then crates owned _ _ tt λ _. tt

  -- A flow only asks about its two keys.
  flow-IsAbout :
      (on : FlowExchanges) (sequence payload_bytes : ℕ)
      → owned
          (public_key crates signing (signing_key crates signing (key_number as_device sequence)))
        ≡ true
      → owned
          (public_key crates signing (signing_key crates signing (key_number as_account sequence)))
        ≡ true
      → IsAbout crates owned (flow_thread crates signing on sequence payload_bytes)
  unfolding flow_thread key_of
  flow-IsAbout on sequence payload_bytes device account =
      IsAbout-then crates owned _ _
        (
          keypackage_about _ _ true (IsBytes-keypackage_payload sequence payload_bytes) device,
          λ r. tt,
        )
        λ published. IsAbout-then crates owned _ _ tt λ _.
          IsAbout-then crates owned _ _ (device, λ r. tt)
            λ fetched. IsAbout-then crates owned _ _ tt λ fetched'.
              IsAbout-then crates owned _ _ tt λ keypackage. IsAbout-then crates owned _ _ tt λ _.
                IsAbout-then crates owned _ _
                  (publish_account-IsAbout on.publish_first _ _ _
                    (IsBytes-account_payload 1 payload_bytes) account)
                  λ _.
                    IsAbout-then crates owned _ _ (account, λ r. tt)
                      λ found. IsAbout-then crates owned _ _ tt λ found'.
                        IsAbout-then crates owned _ _ tt λ account_found.
                          IsAbout-then crates owned _ _ tt λ _.
                            IsAbout-then crates owned _ _ tt λ _.
                              IsAbout-then crates owned _ _
                                (publish_account-IsAbout on.publish_again _ _ _
                                  (IsBytes-account_payload 1 payload_bytes) account)
                                λ _.
                                  IsAbout-then crates owned _ _
                                    (publish_account-IsAbout on.publish_second _ _ _
                                      (IsBytes-account_payload 2 payload_bytes) account)
                                    λ _.
                                      IsAbout-then crates owned _ _ (account, λ r. tt)
                                        λ updated. IsAbout-then crates owned _ _ tt λ updated'.
                                          IsAbout-then crates owned _ _ tt λ updated_account. tt

  flows-IsAbout :
      (on : ℕ → FlowExchanges) (worker operation left payload_bytes : ℕ)
      → OwnsFlows crates signing owned worker operation left
      → IsAbout crates owned (flows_thread crates signing on worker operation left payload_bytes)
  unfolding flows_thread
  flows-IsAbout on worker operation zero payload_bytes owns = tt
  flows-IsAbout on worker operation (suc left) payload_bytes owns =
      let (device, account) = owns operation (omega arith) (omega arith) in
      IsAbout-then crates owned _ _
        (flow-IsAbout (on operation) (sequence_of worker operation) payload_bytes device account)
        λ _.
          flows-IsAbout on worker (operation + 1) left payload_bytes
            (λ i h k. owns i (omega arith) (omega arith))

  worker-IsAbout :
      (on : ℕ → FlowExchanges) (worker operations payload_bytes : ℕ)
      → OwnsFlows crates signing owned worker 0 operations
      → IsAbout crates owned (worker_thread crates signing on worker operations payload_bytes)
  unfolding worker_thread
  worker-IsAbout on worker operations payload_bytes owns =
      IsAbout-then crates owned _ _ (flows-IsAbout on worker 0 operations payload_bytes owns)
        λ _. tt

  -- A worker has had a turn for each of its requests, seven for an operation, while inputs that
  -- are not about the keys of its flows, and no prune, happened between them in any number and
  -- order, other workers' requests among them. Then its thread has returned all its operations,
  -- under the conditions under which it does so alone: different seeds give different keys,
  -- nothing is stored under its keys, the database answers its statements, the clock is past the
  -- epoch, its number is below 2^31, and it has at most 2^32 operations. The crates are assumed
  -- to keep their documented laws.
  pub worker-finishes :
      (account_laws : AccountLogLaws crates) (cli : Cli) (on : ℕ → FlowEnvs)
      (worker operations payload_bytes : ℕ) (events : List Occurrence) (s : Store)
      → OwnsFlows crates signing owned worker 0 operations
      → operations * 7 ≤ own_turns events
      → All (IsElsewhere crates owned) events
      → AreDistinct crates signing
      → worker < 2 ^ 31
      → operations ≤ 2 ^ 32
      → AreUnknown crates signing worker 0 s
      → ((i : ℕ) → AreHealthy (on i))
      → ((i : ℕ) → lt_ℤ (pos 0) (as_i64 (now_ms (on i).publish_first.since_epoch)) ≡ true)
      → (meanwhile crates cli
          (worker_thread crates signing (λ i. all_answered (on i)) worker operations payload_bytes)
          events
          s).0
        ≡ finished (ok operations)
  worker-finishes account_laws cli on worker operations payload_bytes events s owns enough others
        distinct few bounded unknown healthy late =
      let exchanges = λ (i : ℕ). all_answered (on i) in
      meanwhile-result crates account_laws owned cli (operations * 7)
        (worker_thread crates signing exchanges worker operations payload_bytes) events s
        (worker-IsAbout exchanges worker operations payload_bytes owns)
        (worker-IsWithin crates signing exchanges worker operations payload_bytes) enough others
      ∙ ap finished (
          ap (λ p. p.0)
            ((worker-Same crates signing exchanges worker operations payload_bytes).same s)
          ∙ run_worker_passes crates signing laws encoding worker payload_bytes on operations s
              distinct few bounded unknown healthy late)

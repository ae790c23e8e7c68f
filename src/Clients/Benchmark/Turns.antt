-- ===== src/Clients/Benchmark/Turns.antt =====
-- How many requests a worker of examples/benchmark.rs makes.
use chat_store.Common.{ℕ, zero, suc, ◌+◌, ◌*◌, String, ◌≡◌, arith}
use chat_store.Rust.Bytes.{Bytes}
use chat_store.Crates.{Crates}
use chat_store.Crates.Signing.{Signing}
use chat_store.Handlers.Errors.{StatusCode}
use chat_store.Clients.Requests.{Exchange}
use chat_store.Clients.Threads.{IsWithin}
use chat_store.Clients.Threads.Solo.{IsWithin-then}
use chat_store.Clients.Benchmark.Payloads.{sequence_of}
use chat_store.Clients.Benchmark.Flow.{FlowExchanges}
use chat_store.Clients.Benchmark.Requests.{
  publish_account_thread, flow_thread, flows_thread, worker_thread,
}

module _ (crates : Crates) (signing : Signing crates) where
  publish_account-IsWithin :
      (exchange : Exchange) (key : signing.SigningKey) (account_pub : String) (payload : Bytes)
      (expected : StatusCode)
      → IsWithin 1 (publish_account_thread crates signing exchange key account_pub payload expected)
  unfolding publish_account_thread
  publish_account-IsWithin exchange key account_pub payload expected =
      IsWithin-then 1 0 _ _ (λ r. tt) λ r. IsWithin-then 0 0 _ _ tt λ _. tt

  -- A flow makes seven requests.
  flow-IsWithin :
      (on : FlowExchanges) (sequence payload_bytes : ℕ)
      → IsWithin 7 (flow_thread crates signing on sequence payload_bytes)
  unfolding flow_thread
  flow-IsWithin on sequence payload_bytes =
      IsWithin-then 1 6 _ _ (λ r. tt)
        λ published. IsWithin-then 0 6 _ _ tt λ _.
          IsWithin-then 1 5 _ _ (λ r. tt)
            λ fetched. IsWithin-then 0 5 _ _ tt λ fetched'. IsWithin-then 0 5 _ _ tt λ keypackage.
              IsWithin-then 0 5 _ _ tt λ _.
                IsWithin-then 1 4 _ _ (publish_account-IsWithin on.publish_first _ _ _ _) λ _.
                  IsWithin-then 1 3 _ _ (λ r. tt)
                    λ found. IsWithin-then 0 3 _ _ tt λ found'. IsWithin-then 0 3 _ _ tt λ account.
                      IsWithin-then 0 3 _ _ tt λ _. IsWithin-then 0 3 _ _ tt λ _.
                        IsWithin-then 1 2 _ _ (publish_account-IsWithin on.publish_again _ _ _ _)
                          λ _.
                            IsWithin-then 1 1 _ _
                              (publish_account-IsWithin on.publish_second _ _ _ _)
                              λ _.
                                IsWithin-then 1 0 _ _ (λ r. tt)
                                  λ updated.
                                    IsWithin-then 0 0 _ _ tt
                                      λ updated'. IsWithin-then 0 0 _ _ tt λ updated_account. tt

  flows-IsWithin :
      (on : ℕ → FlowExchanges) (worker operation left payload_bytes : ℕ)
      → IsWithin (left * 7) (flows_thread crates signing on worker operation left payload_bytes)
  unfolding flows_thread
  flows-IsWithin on worker operation zero payload_bytes = tt
  flows-IsWithin on worker operation (suc left) payload_bytes =
      let count : suc left * 7 ≡ 7 + left * 7 = omega arith in
      rw count (
        IsWithin-then 7 (left * 7) _ _
          (flow-IsWithin (on operation) (sequence_of worker operation) payload_bytes)
          λ _. flows-IsWithin on worker (operation + 1) left payload_bytes)

  pub worker-IsWithin :
      (on : ℕ → FlowExchanges) (worker operations payload_bytes : ℕ)
      → IsWithin (operations * 7) (worker_thread crates signing on worker operations payload_bytes)
  unfolding worker_thread
  worker-IsWithin on worker operations payload_bytes =
      let count : operations * 7 ≡ operations * 7 + 0 = omega arith in
      rw count (
        IsWithin-then (operations * 7) 0 _ _ (flows-IsWithin on worker 0 operations payload_bytes)
          λ _. tt)

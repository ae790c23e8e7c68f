-- ===== src/Clients/Benchmark/Interleaved.antt =====
-- The workers of examples/benchmark.rs at the same time.
use chat_store.Common.{ℕ, zero, suc, ◌+◌, String}
use chat_store.Common.Exec.{ok}
use chat_store.Rust.Bytes.{Bytes}
use chat_store.Crates.{Crates}
use chat_store.Crates.Signing.{Signing}
use chat_store.Handlers.Errors.{StatusCode}
use chat_store.Clients.Requests.{Exchange}
use chat_store.Clients.Threads.Solo.{Same, Same-then, Same-given, Same-ask}
use chat_store.Clients.Benchmark.Payloads.{sequence_of}
use chat_store.Clients.Benchmark.Flow.{
  FlowExchanges, publish_account, exercise_business_flow, run_flows, run_worker,
}
use chat_store.Clients.Benchmark.Requests.{
  publish_account_thread, flow_thread, flows_thread, worker_thread,
}

module _ (crates : Crates) (signing : Signing crates) where
  publish_account-Same :
      (exchange : Exchange) (key : signing.SigningKey) (account_pub : String) (payload : Bytes)
      (expected : StatusCode)
      → Same crates
          (publish_account_thread crates signing exchange key account_pub payload expected)
          (publish_account crates signing exchange key account_pub payload expected)
  unfolding publish_account_thread publish_account
  publish_account-Same exchange key account_pub payload expected =
      Same-then crates _ _ _ _ (Same-ask crates exchange _)
        λ r. Same-then crates _ _ _ _ (Same-given crates _) λ _. Same-given crates (ok tt)

  flow-Same :
      (on : FlowExchanges) (sequence payload_bytes : ℕ)
      → Same crates
          (flow_thread crates signing on sequence payload_bytes)
          (exercise_business_flow crates signing on sequence payload_bytes)
  unfolding flow_thread exercise_business_flow
  flow-Same on sequence payload_bytes =
      Same-then crates _ _ _ _ (Same-ask crates on.publish_keypackage _) λ published.
        Same-then crates _ _ _ _ (Same-given crates _) λ _.
          Same-then crates _ _ _ _ (Same-ask crates on.fetch_keypackage _) λ fetched.
            Same-then crates _ _ _ _ (Same-given crates _) λ fetched'.
              Same-then crates _ _ _ _ (Same-given crates _) λ keypackage.
                Same-then crates _ _ _ _ (Same-given crates _) λ _.
                  Same-then crates _ _ _ _ (publish_account-Same on.publish_first _ _ _ _) λ _.
                    Same-then crates _ _ _ _ (Same-ask crates on.fetch_first _) λ found.
                      Same-then crates _ _ _ _ (Same-given crates _) λ found'.
                        Same-then crates _ _ _ _ (Same-given crates _) λ account.
                          Same-then crates _ _ _ _ (Same-given crates _) λ _.
                            Same-then crates _ _ _ _ (Same-given crates _) λ _.
                              Same-then crates _ _ _ _
                                (publish_account-Same on.publish_again _ _ _ _)
                                λ _.
                                  Same-then crates _ _ _ _
                                    (publish_account-Same on.publish_second _ _ _ _)
                                    λ _.
                                      Same-then crates _ _ _ _ (Same-ask crates on.fetch_second _)
                                        λ updated.
                                          Same-then crates _ _ _ _ (Same-given crates _) λ updated'.
                                            Same-then crates _ _ _ _ (Same-given crates _)
                                              λ updated_account. Same-given crates _

  flows-Same :
      (on : ℕ → FlowExchanges) (worker operation left payload_bytes : ℕ)
      → Same crates
          (flows_thread crates signing on worker operation left payload_bytes)
          (run_flows crates signing on worker operation left payload_bytes)
  unfolding flows_thread run_flows
  flows-Same on worker operation zero payload_bytes = Same-given crates (ok tt)
  flows-Same on worker operation (suc left) payload_bytes =
      Same-then crates _ _ _ _
        (flow-Same (on operation) (sequence_of worker operation) payload_bytes)
        λ _. flows-Same on worker (operation + 1) left payload_bytes

  -- The thread of a worker, alone, is the worker's loop.
  pub worker-Same :
      (on : ℕ → FlowExchanges) (worker operations payload_bytes : ℕ)
      → Same crates
          (worker_thread crates signing on worker operations payload_bytes)
          (run_worker crates signing on worker operations payload_bytes)
  unfolding worker_thread run_worker
  worker-Same on worker operations payload_bytes =
      Same-then crates _ _ _ _ (flows-Same on worker 0 operations payload_bytes)
        λ _. Same-given crates (ok operations)

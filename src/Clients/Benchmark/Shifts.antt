-- ===== src/Clients/Benchmark/Shifts.antt =====
-- The worker threads of examples/benchmark.rs, one after another.
use chat_store.Common.{
  ℕ, zero, suc, ◌+◌, ◌^◌, ◌≤◌, ◌<◌, ◌≡◌, ◌≢◌, refl, String, true, List, [], ◌∷◌, map, length, All,
  arith,
}
use chat_store.Common.Int.{pos, lt_ℤ}
use chat_store.Common.Exec.{ok}
use chat_store.Rust.{as_i64}
use chat_store.Crates.{Crates}
use chat_store.Crates.Signing.{Signing, SigningLaws, EncodingLaws}
use chat_store.Store.{Store, now_ms}
use chat_store.Store.Cases.{put_account}
use chat_store.Clients.Benchmark.Payloads.{Role, as_device, as_account, sequence_of}
use chat_store.Clients.Benchmark.Seeds.{seed_unique}
use chat_store.Clients.Benchmark.Accepted.{FlowEnvs, all_answered, AreHealthy}
use chat_store.Clients.Benchmark.Flow.{run_flows, run_worker}
use chat_store.Clients.Benchmark.Success.{exercise_business_flow_passes, published}
use chat_store.Clients.Benchmark.Server.{Join, returned}
use chat_store.Clients.Benchmark.Workers.{
  AreDistinct, AreUnknown, IsUnknown, IsUnknown-add, IsUnknown-put, AreUnknown-after_flow,
  Earlier-unknown, stored_lamport-unknown, after_flow, version, key_of, run_flows_passes,
  run_worker_passes,
}

module _ (crates : Crates) (signing : Signing crates) (laws : SigningLaws crates signing)
    (encoding : EncodingLaws crates) (payload_bytes : ℕ) where
  -- The surroundings of the requests of each worker's flows.
  module _ (on : ℕ → ℕ → FlowEnvs) where
    -- The threads of the workers from the given one on, each over before the next begins.
    unfoldable pub one_by_one : ℕ → List ℕ → Store → List Join × Store
    one_by_one worker [] s = ([], s)
    one_by_one worker (operations ∷ shares) s =
        let (r, t) =
          run_worker crates signing (λ i. all_answered (on worker i)) worker operations
            payload_bytes s in
        let (joins, final) = one_by_one (worker + 1) shares t in (returned r ∷ joins, final)

    -- The ids are none of the worker's keys.
    abbrev AreOthers : ℕ → String → String → Type 0
    AreOthers worker device_id account_pub =
        (i : ℕ)
        → i < 2 ^ 32
        → (key_of crates signing worker as_device i ≢ device_id)
          × (key_of crates signing worker as_account i ≢ account_pub)

    IsUnknown-after_flow :
        (worker operation : ℕ) (device_id account_pub : String) (s : Store)
        → operation < 2 ^ 32
        → AreOthers worker device_id account_pub
        → IsUnknown device_id account_pub s
        → IsUnknown device_id account_pub
            (after_flow crates signing laws encoding worker payload_bytes (on worker) operation s)
    IsUnknown-after_flow worker operation device_id account_pub s small others unknown =
        let (device, account) = others operation small in
        let made =
          published crates signing laws encoding (on worker operation)
            (sequence_of worker operation) payload_bytes s in
        let bundle =
          version crates signing laws encoding worker payload_bytes (on worker) operation in
        IsUnknown-put (on worker operation).publish_second _ _ _ (bundle 2)
          (put_account (on worker operation).publish_first
            (key_of crates signing worker as_account operation) (bundle 1) made)
          account
          (IsUnknown-put (on worker operation).publish_first _ _ _ (bundle 1) made account
            (IsUnknown-add _ _ _ s device unknown))

    -- All requests are answered by a database that answers, with the clock past the epoch.
    pub record AreFine : Type 0 where
      pub distinct : AreDistinct crates signing
      pub healthy : (worker i : ℕ) → AreHealthy (on worker i)
      pub late :
          (worker i : ℕ)
          → lt_ℤ (pos 0) (as_i64 (now_ms (on worker i).publish_first.since_epoch)) ≡ true

    module _ (fine : AreFine) where
      run_flows-IsUnknown :
          (worker left operation : ℕ) (device_id account_pub : String) (s : Store)
          → worker < 2 ^ 31
          → operation + left ≤ 2 ^ 32
          → AreUnknown crates signing worker operation s
          → AreOthers worker device_id account_pub
          → IsUnknown device_id account_pub s
          → IsUnknown device_id account_pub
              (run_flows crates signing
                (λ i. all_answered (on worker i))
                worker
                operation
                left
                payload_bytes
                s).1
      unfolding run_flows
      run_flows-IsUnknown worker zero operation device_id account_pub s few enough unknown others
            free =
          free
      run_flows-IsUnknown worker (suc left) operation device_id account_pub s few enough unknown
            others free =
          let now = unknown operation (omega arith) (omega arith) in
          let passed =
            exercise_business_flow_passes crates signing laws encoding (on worker operation)
              (sequence_of worker operation) payload_bytes s (fine.healthy worker operation)
              (Earlier-unknown crates signing laws encoding worker payload_bytes (on worker)
                (on worker operation).publish_keypackage _ _ s now)
              (stored_lamport-unknown crates signing laws encoding worker payload_bytes (on worker)
                _ _ s now)
              (fine.late worker operation) in
          rw passed (
            run_flows-IsUnknown worker left (operation + 1) device_id account_pub
              (after_flow crates signing laws encoding worker payload_bytes (on worker) operation s)
              few (omega arith)
              (AreUnknown-after_flow crates signing laws encoding worker payload_bytes (on worker)
                operation s fine.distinct few unknown)
              others
              (IsUnknown-after_flow worker operation device_id account_pub s (omega arith) others
                free))

      -- Nothing is stored under the keys of the workers from the given one on.
      abbrev pub AllUnknown : ℕ → Store → Type 0
      AllUnknown worker s =
          (later : ℕ) → worker ≤ later → later < 2 ^ 31 → AreUnknown crates signing later 0 s

      AreOthers-later :
          (worker later i : ℕ)
          → worker < later
          → later < 2 ^ 31
          → i < 2 ^ 32
          → AreOthers worker
              (key_of crates signing later as_device i)
              (key_of crates signing later as_account i)
      AreOthers-later worker later i before few small j small' =
          let apart : (role : Role)
              → key_of crates signing worker role j ≢ key_of crates signing later role i =
            λ role same.
              let (r, w, o) =
                seed_unique role role worker j later i (omega arith) small' few small
                  (fine.distinct _ _ same) in
              omega arith in
          (apart as_device, apart as_account)

      run_worker-AllUnknown :
          (worker operations : ℕ) (s : Store)
          → worker < 2 ^ 31
          → operations ≤ 2 ^ 32
          → AllUnknown worker s
          → AllUnknown
              (worker + 1)
              (run_worker crates signing
                (λ i. all_answered (on worker i))
                worker
                operations
                payload_bytes
                s).1
      unfolding run_worker
      run_worker-AllUnknown worker operations s few enough unknown later h small i low below =
          let mine = unknown worker (omega arith) few in
          rw
            (run_flows_passes crates signing laws encoding worker payload_bytes (on worker)
              operations 0 s fine.distinct few (omega arith) mine (fine.healthy worker)
              (fine.late worker))
            (run_flows-IsUnknown worker operations 0 _ _ s few (omega arith) mine
              (AreOthers-later worker later i (omega arith) small below)
              (unknown later (omega arith) small i low below))

      -- The threads return their shares.
      pub one_by_one_lem :
          (shares : List ℕ) (worker : ℕ) (s : Store)
          → worker + length shares ≤ 2 ^ 31
          → All (λ n. n ≤ 2 ^ 32) shares
          → AllUnknown worker s
          → (one_by_one worker shares s).0 ≡ map (λ n. returned (ok n)) shares
      unfolding one_by_one
      one_by_one_lem [] worker s few enough unknown = refl
      one_by_one_lem (n ∷ shares) worker s few (h, enough) unknown =
          let left =
            (run_worker crates signing (λ (i : ℕ). all_answered (on worker i)) worker n
              payload_bytes s).1 in
          rw
            (
              run_worker_passes crates signing laws encoding worker payload_bytes (on worker) n s
                  fine.distinct (omega arith) h (unknown worker (omega arith) (omega arith))
                  (fine.healthy worker) (fine.late worker),
              one_by_one_lem shares (worker + 1) left (omega arith) enough
                  (run_worker-AllUnknown worker n s (omega arith) h unknown),
            )
            refl

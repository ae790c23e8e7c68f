-- ===== src/Clients/Benchmark/Server/Stopping.antt =====
-- What a run of the benchmark leaves behind.
use Prim.Native.String.{◌++◌}
use mathlib.Core.List
use chat_store.Common.{
  ℕ, String, Bool, true, false, ◌≡◌, refl, inl, inr, Bool-cases, List, [], ◌∷◌, if◌then◌else◌, ◌==◌,
  eq_refl, ◌⊎◌, arith,
}
use chat_store.Common.Exec.{Result, ok, err, Result-cases}
use chat_store.Crates.{Crates}
use chat_store.Store.{Store}
use chat_store.Clients.Requests.{Exchange}
use chat_store.Clients.Benchmark.Flow.{check_error_paths}
use chat_store.Clients.Benchmark.Options.{Config}
use chat_store.Clients.Benchmark.Waiting.{Poll, wait_until_ready}
use chat_store.Clients.Benchmark.Work.{split_work, workers_of}
use chat_store.Clients.Benchmark.Server.{
  OsCall, is_file, reserve_port, read_port, spawn, build_client, kill, reap, remove_file,
  LocalServer, BenchmarkError, no_binary, call_failed, World, Schedule, waited, collect, drop_calls,
  start_local_server, measure, benchmark_main,
}

-- The process of the server, as its parent sees it. One that is killed is over once it has been
-- waited for; a parent that waits for one that was not killed waits on.
pub data Process : Type 0 where
  absent running killed reaped waiting : Process

-- The process, and whether each of the three files of the database may be there.
pub record Leftovers : Type 0 where
  pub process : Process
  pub database : Bool
  pub shm : Bool
  pub wal : Bool

abbrev pub untouched : Leftovers
untouched = record { process = absent; database = false; shm = false; wal = false }

abbrev pub up : Leftovers
up = record { process = running; database = true; shm = true; wal = true }

abbrev pub IsOver : Process → Type 0
IsOver absent = Unit
IsOver reaped = Unit
IsOver other = ⊥

-- No process is left, and no file unless the database is kept.
abbrev pub IsClean : Bool → Leftovers → Type 0
IsClean keep_db left =
    IsOver left.process
    × (keep_db ≡ false → (left.database ≡ false) × (left.shm ≡ false) × (left.wal ≡ false))

abbrev pub after_kill : Process → Process
after_kill running = killed
after_kill other = other

abbrev pub after_wait : Process → Process
after_wait killed = reaped
after_wait running = waiting
after_wait other = other

-- Whether a file is there once `path` is removed.
unfoldable pub stays : String → String → Bool → Bool
stays path own there = if path == own then false else there

stays_own : (path : String) (there : Bool) → stays path path there ≡ false
unfolding stays
stays_own path there = rw (eq_refl path) refl

stays_gone : (path own : String) → stays path own false ≡ false
unfolding stays
stays_gone path own = ground arith

module _ (fails : OsCall → Bool) (stem : String) where
  abbrev pub without : String → Leftovers → Leftovers
  without path left = record left {
    database = stays path (stem ++ ".db") left.database;
    shm = stays path (stem ++ ".db-shm") left.shm;
    wal = stays path (stem ++ ".db-wal") left.wal;
  }

  -- What one more call leaves: one that fails changes nothing.
  abbrev pub leaves : Leftovers → OsCall → Leftovers
  leaves left (spawn binary arguments) = if fails (spawn binary arguments) then left else up
  leaves left kill = if fails kill then left else record left { process = after_kill left.process }
  leaves left reap = if fails reap then left else record left { process = after_wait left.process }
  leaves left (remove_file path) = if fails (remove_file path) then left else without path left
  leaves left other = left

  unfoldable pub left_by : Leftovers → List OsCall → Leftovers
  left_by left [] = left
  left_by left (c ∷ calls) = left_by (leaves left c) calls

  left_by-append :
      (left : Leftovers) (calls more : List OsCall)
      → left_by left (List.◌++◌ calls more) ≡ left_by (left_by left calls) more
  unfolding left_by
  left_by-append left [] more = refl
  left_by-append left (c ∷ calls) more = left_by-append (leaves left c) calls more

  -- The calls of the clean-up work: the process can be killed and waited for, and the files
  -- removed.
  pub record CanClean : Type 0 where
    pub kills : fails kill ≡ false
    pub waits : fails reap ≡ false
    pub removes_database : fails (remove_file (stem ++ ".db")) ≡ false
    pub removes_shm : fails (remove_file (stem ++ ".db-shm")) ≡ false
    pub removes_wal : fails (remove_file (stem ++ ".db-wal")) ≡ false

  drop_calls-IsClean :
      (address : String) (keep_db : Bool)
      → CanClean
      → IsClean keep_db
          (left_by up (drop_calls (record { stem = stem; address = address; keep_db = keep_db })))
  unfolding left_by
  drop_calls-IsClean address true can = rw (can.kills, can.waits) (tt, λ h. cc)
  drop_calls-IsClean address false can =
      rw (can.kills, can.waits, can.removes_database, can.removes_shm, can.removes_wal)
        (
          tt,
          λ h. (
            rw (stays_own, stays_gone, stays_gone) refl,
            rw (stays_own, stays_gone) refl,
            stays_own _ _,
          ),
        )

  module _ (config : Config) (address : String) (s : Store) where
    abbrev before : World
    before = record { calls = []; store = s }

    abbrev started : Result BenchmarkError LocalServer × World
    started = start_local_server fails config address stem before

    abbrev server : LocalServer
    server = record { stem = stem; address = address; keep_db = config.keep_db }

    -- A start that fails has spawned nothing, and one that succeeds has spawned the server.
    start-ends :
        ((e : BenchmarkError) × (started.0 ≡ err e)
          × (left_by untouched started.1.calls ≡ untouched))
        ⊎ ((started.0 ≡ ok server) × (left_by untouched started.1.calls ≡ up))
    unfolding start_local_server left_by
    start-ends =
        let bin = config.server_bin in
        elim (Bool-cases (fails (is_file bin))) [
          | inl a ↦ inl (no_binary bin, rw a refl, rw a refl)
          | inr a ↦ elim (Bool-cases (fails reserve_port)) [
            | inl b ↦ inl (call_failed "reserve loopback port", rw (a, b) refl, rw (a, b) refl)
            | inr b ↦ elim (Bool-cases (fails read_port)) [
              | inl c ↦
                  inl (
                    call_failed "read reserved loopback port",
                    rw (a, b, c) refl,
                    rw (a, b, c) refl,
                  )
              | inr c ↦
                  elim (Bool-cases
                    (fails (spawn bin ("--bind" ∷ address ∷ "--db" ∷ (stem ++ ".db") ∷ [])))) [
                      | inl d ↦ inl (
                        call_failed ("start local server " ++ bin),
                        rw (a, b, c, d) refl,
                        rw (a, b, c, d) (rw d refl),
                      )
                      | inr d ↦ inr (rw (a, b, c, d) refl, rw (a, b, c, d) (rw d refl))
                    ]
            ]
          ]
        ]

    module _ (crates : Crates) (polls : ℕ → Poll)
        (unknown_keypackage unknown_account malformed : Exchange)
        (schedule : Schedule fails crates) where
      -- The measuring makes one call, however it ends.
      measure-calls :
          (w : World)
          → (measure fails crates polls unknown_keypackage unknown_account malformed schedule config
              server w).1.calls
            ≡ List.◌++◌ w.calls (build_client ∷ [])
      unfolding measure
      measure-calls w =
          let checked =
            check_error_paths crates unknown_keypackage unknown_account malformed w.store in
          let workers = workers_of config.concurrency config.operations in
          elim (Bool-cases (fails build_client)) [
            | inl a ↦ rw a refl
            | inr a ↦
                elim (Result-cases
                  (waited fails crates (wait_until_ready crates 201 polls 0 w.store))) [
                    | inr (e, b) ↦ rw (a, b) refl
                    | inl (_, b) ↦ elim (Result-cases checked.0) [
                      | inr (e, c) ↦ rw (a, b, c) refl
                      | inl (_, c) ↦
                          elim (Result-cases (
                            collect
                              (schedule (split_work config.operations workers) checked.1).0)) [
                                | inr (e, d) ↦ rw (a, b, c, d) refl
                                | inl (_, d) ↦ rw (a, b, c, d) refl
                              ]
                    ]
                  ]
          ]

      -- However the run of the benchmark ends, and whichever other calls fail: where the server's
      -- process can be killed and waited for and its files can be removed, the process is over and
      -- waited for, if it was ever spawned, and none of the three files of its database is left
      -- behind unless `keep_db` was asked for. Only a server that was spawned makes the files, and
      -- to wait for a process that was not killed would not end.
      pub benchmark_main-IsClean :
          CanClean
          → IsClean config.keep_db (
              left_by untouched
                (benchmark_main fails crates polls unknown_keypackage unknown_account malformed
                  schedule config address stem before).1.calls)
      unfolding benchmark_main left_by
      benchmark_main-IsClean can = elim start-ends [
        | inl (e, failed, nothing) ↦ rw (failed, nothing) (tt, λ h. (refl, refl, refl))
        | inr (good, is_up) ↦
            rw (good, measure-calls, left_by-append, left_by-append, is_up)
              (drop_calls-IsClean address config.keep_db can)
      ]

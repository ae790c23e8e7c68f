-- ===== src/Clients/Benchmark/Server.antt =====
-- `main` of examples/benchmark.rs, and the server of its own that it runs against.
pub mod Stopping
pub mod Completing
use Prim.Native.String.{◌++◌}
use mathlib.Core.List
use chat_store.Common.{
  ℕ, zero, suc, ◌*◌, String, Bool, Option, none, some, List, [], ◌∷◌, if◌then◌else◌,
}
use chat_store.Common.Exec.{
  Result, ok, err, and_then, map_err, Exec, pure, raise, lift, ◌>>=◌, ◌>>◌,
}
use chat_store.Rust.{as_u64}
use chat_store.Crates.{Crates}
use chat_store.Store.{Store}
use chat_store.Clients.Requests.{Exchange, ClientError, Client}
use chat_store.Clients.Benchmark.Flow.{check_error_paths}
use chat_store.Clients.Benchmark.Options.{Config}
use chat_store.Clients.Benchmark.Waiting.{Poll, wait_until_ready}
use chat_store.Clients.Benchmark.Work.{split_work, workers_of, sum}

-- The calls into the operating system.
pub data OsCall : Type 0 where
  is_file : String → OsCall
  reserve_port read_port release_port : OsCall
  -- the binary, and its arguments
  spawn : String → List String → OsCall
  build_client : OsCall
  kill reap : OsCall
  remove_file : String → OsCall

-- The path of the database without its extension, and the address that was free.
pub record LocalServer : Type 0 where
  pub stem : String
  pub address : String
  pub keep_db : Bool

abbrev pub db_path : LocalServer → String
db_path server = server.stem ++ ".db"

pub data BenchmarkError : Type 0 where
  no_binary : String → BenchmarkError
  call_failed : String → BenchmarkError
  still_waiting : BenchmarkError
  of_client : ClientError → BenchmarkError
  worker_panicked : BenchmarkError

-- The calls made so far, and what the server has stored.
pub record World : Type 0 where
  pub calls : List OsCall
  pub store : Store

abbrev pub Benchmark : Type 0 → Type 0
Benchmark A = Exec World BenchmarkError A

abbrev pub called : OsCall → World → World
called c w = record w { calls = List.◌++◌ w.calls (c ∷ []) }

-- What joining a thread gives.
pub data Join : Type 0 where
  panicked : Join
  returned : Result ClientError ℕ → Join

-- The results of the threads, up to the first that is an error.
unfoldable pub collect : List Join → Result BenchmarkError (List ℕ)
collect [] = ok []
collect (panicked ∷ joins) = err worker_panicked
collect (returned r ∷ joins) =
    let rest = collect joins in and_then (map_err of_client r) λ n. and_then rest λ ns. ok (n ∷ ns)

-- What is printed, but for the times.
pub record Report : Type 0 where
  pub operations : ℕ
  pub requests : ℕ
  pub concurrency : ℕ
  pub retained : Option String

-- `Drop` of the server: what fails is ignored.
abbrev pub drop_calls : LocalServer → List OsCall
drop_calls server =
    kill
    ∷ reap
    ∷ (if server.keep_db
        then []
        else remove_file (server.stem ++ ".db")
          ∷ remove_file (server.stem ++ ".db-shm")
          ∷ remove_file (server.stem ++ ".db-wal")
          ∷ [])

abbrev pub drop_server : LocalServer → World → World
drop_server server w = record w { calls = List.◌++◌ w.calls (drop_calls server) }

module _ (fails : OsCall → Bool) where
  abbrev pub attempt_call : OsCall → BenchmarkError → Benchmark (Unit {0})
  attempt_call c e w = (if fails c then err e else ok tt, called c w)

  unfoldable pub start_local_server : Config → String → String → Benchmark LocalServer
  start_local_server config address stem = do
    attempt_call (is_file config.server_bin) (no_binary config.server_bin)
    attempt_call reserve_port (call_failed "reserve loopback port")
    attempt_call read_port (call_failed "read reserved loopback port")
    λ w. (ok tt, called release_port w)
    attempt_call (spawn config.server_bin ("--bind" ∷ address ∷ "--db" ∷ (stem ++ ".db") ∷ []))
        (call_failed ("start local server " ++ config.server_bin))
    pure (record { stem = stem; address = address; keep_db = config.keep_db })

  module _ (crates : Crates) where
    -- A part that speaks to the server.
    abbrev pub at_server : {A : Type 0} → Client A → Benchmark A
    at_server m w = let (r, t) = m w.store in (map_err of_client r, record w { store = t })

    abbrev pub waited : Option (Result ClientError (Unit {0})) → Result BenchmarkError (Unit {0})
    waited none = err still_waiting
    waited (some r) = map_err of_client r

    -- The threads of the workers with these shares, in some schedule: how each ends, and what the
    -- server has stored then.
    abbrev pub Schedule : Type 0
    Schedule = List ℕ → Store → List Join × Store

    unfoldable pub measure :
        (ℕ → Poll)
        → Exchange
        → Exchange
        → Exchange
        → Schedule
        → Config
        → LocalServer
        → Benchmark Report
    measure polls unknown_keypackage unknown_account malformed schedule config server = do
      attempt_call build_client (call_failed "build HTTP client")
      λ w. (waited (wait_until_ready crates 201 polls 0 w.store), w)
      at_server (check_error_paths crates unknown_keypackage unknown_account malformed)
      let workers = workers_of config.concurrency config.operations
      joins ← λ w.
          let (ended, t) = schedule (split_work config.operations workers) w.store in
          (ok ended, record w { store = t })
      results ← lift (collect joins)
      let completed = as_u64 (sum results)
      pure (record {
        operations = completed;
        requests = as_u64 (completed * 7);
        concurrency = workers;
        retained = if config.keep_db then some (db_path server) else none;
      })

    -- `main` after the options: the server is dropped at the end, however the rest ends.
    abbrev pub finish :
        (LocalServer → Benchmark Report) → Result BenchmarkError LocalServer → Benchmark Report
    finish rest (err e) w = (err e, w)
    finish rest (ok server) w = let (r, w') = rest server w in (r, drop_server server w')

    unfoldable pub benchmark_main :
        (ℕ → Poll)
        → Exchange
        → Exchange
        → Exchange
        → Schedule
        → Config
        → String
        → String
        → Benchmark Report
    benchmark_main polls unknown_keypackage unknown_account malformed schedule config address stem
          w =
        let (started, w') = start_local_server config address stem w in
        finish (measure polls unknown_keypackage unknown_account malformed schedule config) started
          w'

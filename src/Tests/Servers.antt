-- ===== src/Tests/Servers.antt =====
-- The theorems on the benchmark's own server, at the stand-in crates.
use chat_store.Common.{ℕ, Bool, false, none, String, List, [], ◌∷◌, ◌≡◌, refl, map, ◌*◌, arith}
use chat_store.Common.Exec.{ok}
use chat_store.Store.{Store, empty}
use chat_store.Clients.Requests.{answered, unsent}
use chat_store.Clients.Benchmark.Options.{
  Config, default_config, parse_args, parse_arguments, action, parse_value, parse_usize,
  parse_digits,
}
use chat_store.Clients.Benchmark.Waiting.{Poll}
use chat_store.Tests.Signers.{
  summing, adder, adder-SigningLaws, counting-EncodingLaws, adder-AreDistinct,
}
use chat_store.Tests.Clients.{calm, calm-AreHealthy, clock_past_epoch}
use chat_store.Clients.Benchmark.Shifts.{AreFine, one_by_one}
use chat_store.Clients.Benchmark.Server.Completing.{benchmark_main-completes}
use chat_store.Clients.Benchmark.Server.{OsCall, Join, returned, benchmark_main}
use chat_store.Clients.Benchmark.Server.Stopping.{
  IsClean, untouched, left_by, benchmark_main-IsClean,
}
use chat_store.Tests.Fixtures.{demo, at}

abbrev config : Config
config = record default_config { operations = 10; concurrency = 4 }

abbrev polls : ℕ → Poll
polls round = record { exchange = answered (at 1); clock = 25 * round }

abbrev works : OsCall → Bool
works c = false

abbrev all_return : List ℕ → Store → List Join × Store
all_return shares s = (map (λ n. returned (ok n)) shares, s)

-- The server is spawned, and does not answer the requests of the check.
benchmark_main-IsClean_example : IsClean false (
    left_by works "/tmp/benchmark" untouched
      (benchmark_main works demo polls unsent unsent unsent all_return config "127.0.0.1:4000"
        "/tmp/benchmark"
        (record { calls = []; store = empty })).1.calls)
benchmark_main-IsClean_example =
    benchmark_main-IsClean works "/tmp/benchmark" config "127.0.0.1:4000" empty demo polls unsent
      unsent unsent all_return
      (record {
        kills = refl;
        waits = refl;
        removes_database = refl;
        removes_shm = refl;
        removes_wal = refl;
      })

-- Three operations by two workers.
abbrev arguments : List String
arguments = "--operations" ∷ "3" ∷ "--concurrency" ∷ "2" ∷ []

abbrev parsed_config : Config
parsed_config = record default_config { operations = 3; concurrency = 2 }

arguments-parsed : parse_args arguments ≡ ok parsed_config
unfolding parse_args parse_arguments action parse_value parse_usize parse_digits
arguments-parsed = refl

all-AreFine :
    AreFine summing adder adder-SigningLaws counting-EncodingLaws parsed_config.payload_bytes
      (λ worker i. calm)
all-AreFine = record {
  distinct = adder-AreDistinct;
  healthy = λ worker i. calm-AreHealthy;
  late = λ worker i. clock_past_epoch;
}

benchmark_main-completes_example :
    (benchmark_main works summing polls
      (answered (at 2))
      (answered (at 3))
      (answered (at 4))
      (one_by_one summing adder adder-SigningLaws counting-EncodingLaws parsed_config.payload_bytes
        (λ worker i. calm)
        0)
      parsed_config
      "127.0.0.1:4000"
      "/tmp/benchmark"
      (record { calls = []; store = empty })).0
    ≡ ok (record { operations = 3; requests = 21; concurrency = 2; retained = none })
benchmark_main-completes_example =
    benchmark_main-completes summing adder adder-SigningLaws counting-EncodingLaws works polls
      parsed_config "127.0.0.1:4000" "/tmp/benchmark" (λ worker i. calm) (at 1) (at 2) (at 3) (at 4)
      arguments arguments-parsed (omega arith) refl
      (record {
        no_failure = λ c. refl;
        first_poll = refl;
        first_healthy = λ c. refl;
        keypackage_healthy = λ c. refl;
        account_healthy = λ c. refl;
        workers_fine = all-AreFine;
      })

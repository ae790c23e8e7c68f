-- ===== src/Tests/Clients.antt =====
-- The client programs against the modelled service.
use chat_store.Common.{
  ℕ, ◌*◌, ◌≡◌, refl, String, true, none, some, List, [], ◌∷◌, arith, leb, select, find,
  if◌then◌else◌, length, All,
}
use chat_store.Common.Int.{pos, lt_ℤ}
use chat_store.Common.Exec.{Result, ok, err}
use chat_store.Store.{empty, now_ms}
use chat_store.Store.Accounts.{stored_lamport, get_account}
use chat_store.Store.KeyPackages.{latest, newest}
use chat_store.Handlers.Endpoints.{
  serve, handle, fetch_key_package, fetch_account, submit_key_package,
}
use chat_store.Handlers.Errors.{decode_bundle, to_api_error, display}
use chat_store.Clients.Fetching.{Earlier}
use chat_store.Rust.{as_i64, as_u64, as_millis}
use chat_store.Clients.Requests.{unsent, answered, send, ClientError}
use chat_store.Clients.Benchmark.Work.{shares, split_work}
use chat_store.Clients.Benchmark.Waiting.{Poll, wait_until_ready, wait_until_ready-decides}
use chat_store.Clients.Benchmark.Flow.{check_error_paths, exercise_business_flow}
use chat_store.Clients.Benchmark.Workers.{AreUnknown}
use chat_store.Clients.Benchmark.Success.{flowed, exercise_business_flow_passes}
use chat_store.Clients.Benchmark.Accepted.{FlowEnvs, AreHealthy, all_answered}
use chat_store.Clients.Benchmark.Options.{
  parse_args, default_config, parse_arguments, parse_usize, parse_digits,
}
use chat_store.Clients.Benchmark.Options.Checks.{IsSized, IsRunnable, parse_args-IsRunnable}
use chat_store.Clients.SmokeTest.{Printed, smoke_test}
use chat_store.Clients.SmokeTest.Success.{IsExpected, smoke_test-IsExpected}
use chat_store.Clients.DeliverySmokeTest.{delivered, delivery_smoke_test}
use chat_store.Clients.DeliverySmokeTest.Success.{published, delivery_smoke_test_passes}
use chat_store.Clients.Benchmark.Payloads.{as_device}
use chat_store.Clients.Benchmark.Seeds.{seed_unique}
use chat_store.Tests.Fixtures.{demo, at}
use chat_store.Tests.Signers.{
  summing, joining, joining-MessageLaws, adder, adder-SigningLaws, counting-EncodingLaws,
}

split_10 : split_work 10 4 ≡ 3 ∷ 3 ∷ 2 ∷ 2 ∷ []
unfolding split_work shares
split_10 = refl

-- The server does not answer the first requests.
abbrev starting : ℕ → Poll
starting round = record {
  exchange = if leb 3 round then answered (at 1) else unsent;
  clock = 25 * round;
}

wait_until_ready-decides_example :
    (r : Result ClientError (Unit {0})) × (wait_until_ready summing 201 starting 0 empty ≡ some r)
wait_until_ready-decides_example =
    wait_until_ready-decides summing starting empty (λ i. omega arith)

started : wait_until_ready summing 5 starting 0 empty ≡ some (ok tt)
unfolding wait_until_ready send serve handle fetch_key_package latest select newest
started = refl

abbrev args : List String
args = "--operations" ∷ "5" ∷ "--keep-db" ∷ "--concurrency" ∷ "+8" ∷ []

parsed :
    parse_args args ≡ ok (record default_config { operations = 5; concurrency = 8; keep_db = true })
unfolding parse_args parse_arguments parse_usize parse_digits
parsed = refl

parse_args-IsRunnable_example :
    IsSized (record default_config { operations = 5; concurrency = 8; keep_db = true })
    × IsRunnable (record default_config { operations = 5; concurrency = 8; keep_db = true })
parse_args-IsRunnable_example =
    parse_args-IsRunnable args
      (record default_config { operations = 5; concurrency = 8; keep_db = true }) parsed

parsed_nothing :
    parse_args ("--operations" ∷ "0" ∷ [])
    ≡ err "--operations and --concurrency must both be greater than zero"
unfolding parse_args parse_arguments parse_usize parse_digits
parsed_nothing = refl

parsed_large :
    parse_args ("--operations" ∷ "18446744073709551616" ∷ [])
    ≡ err "invalid value for --operations: number too large to fit in target type"
unfolding parse_args parse_arguments parse_usize parse_digits
parsed_large = refl

abbrev pub calm : FlowEnvs
calm = record {
  publish_keypackage = at 1;
  fetch_keypackage = at 2;
  publish_first = at 3;
  fetch_first = at 4;
  publish_again = at 5;
  publish_second = at 6;
  fetch_second = at 7;
}

pub calm-AreHealthy : AreHealthy calm
calm-AreHealthy = record {
  publish_keypackage = λ c. refl;
  fetch_keypackage = λ c. refl;
  publish_first = λ c. refl;
  fetch_first = λ c. refl;
  publish_again = λ c. refl;
  publish_second = λ c. refl;
  fetch_second = λ c. refl;
}

unknown_account : (id : String) → stored_lamport id empty ≡ none
unfolding stored_lamport find
unknown_account id = refl

new_device : (id : String) → Earlier (at 1) id empty
unfolding select
new_device id = tt

pub clock_past_epoch : lt_ℤ (pos 0) (as_i64 (now_ms (at 3).since_epoch)) ≡ true
unfolding lt_ℤ as_i64 now_ms as_u64 as_millis
clock_past_epoch = refl

exercise_business_flow_passes_example :
    exercise_business_flow summing adder (all_answered calm) 6 4 empty
    ≡ (ok tt, flowed summing adder adder-SigningLaws counting-EncodingLaws calm 6 4 empty)
exercise_business_flow_passes_example =
    exercise_business_flow_passes summing adder adder-SigningLaws counting-EncodingLaws calm 6 4
      empty calm-AreHealthy (new_device _) (unknown_account _) clock_past_epoch

smoke_test-IsExpected_example :
    (lines : List Printed) × ((smoke_test summing adder
        (record { post = answered (at 1); get = answered (at 2) })
        (record { post = answered (at 3); get = answered (at 4); replay = answered (at 5) })
        1000
        1001
        empty).0
      ≡ ok lines)
    × (length lines ≡ 5)
    × All IsExpected lines
smoke_test-IsExpected_example =
    smoke_test-IsExpected summing adder adder-SigningLaws counting-EncodingLaws 1000 1001 (at 1)
      (at 2) (at 3) (at 4) (at 5) empty (λ c. refl) (λ c. refl) (λ c. refl) (λ c. refl) (λ c. refl)
      (new_device _) (unknown_account _)

pub unknown_keys : AreUnknown summing adder 1 0 empty
unfolding select find
unknown_keys later h small = (refl, refl)

abbrev prompt : ℕ → Poll
prompt round = record { exchange = answered (at 30); clock = 2000 * round }

delivery_smoke_test_passes_example :
    delivery_smoke_test summing adder joining 47
      (delivered (at 1))
      (delivered (at 2))
      prompt
      prompt
      1000
      empty
    ≡ some (
      ok tt,
      published summing adder joining adder-SigningLaws counting-EncodingLaws joining-MessageLaws
          1000
          (at 1)
          (at 2)
          empty,
    )
delivery_smoke_test_passes_example =
    delivery_smoke_test_passes summing adder joining adder-SigningLaws counting-EncodingLaws
      joining-MessageLaws 1000 (at 1) (at 2) empty prompt prompt (at 30) (at 30) (λ c. refl)
      (λ c. refl) (λ c. refl) (λ c. refl) (new_device _) (unknown_account _) refl refl

abbrev third : ℕ
third = 3

seed_unique_example : (as_device ≡ as_device) × (third ≡ third) × (third ≡ third)
seed_unique_example =
    seed_unique as_device as_device third third third third (omega arith) (omega arith)
      (omega arith) (omega arith) refl

-- The check of the error paths, against an empty store.
checked :
    check_error_paths demo (answered (at 1)) (answered (at 2)) (answered (at 3)) empty
    ≡ (ok tt, empty)
unfolding check_error_paths send serve handle fetch_key_package fetch_account submit_key_package
    latest get_account select newest find decode_bundle to_api_error display
checked = refl

-- ===== src/Clients/Benchmark/Server/Completing.antt =====
-- A run of the benchmark against a server of its own that works.
use Prim.Native.String
use mathlib.Core.Option
use chat_store.Common.{
  arith, ℕ, ◌*◌, ◌≤◌, ◌^◌, String, Bool, false, none, some, ◌≡◌, refl, List, [], ◌∷◌, map,
  if◌then◌else◌, select, find, All,
}
use chat_store.Common.Exec.{ok}
use chat_store.Rust.{as_u64}
use chat_store.Crates.{Crates}
use chat_store.Crates.Signing.{Signing, SigningLaws, EncodingLaws}
use chat_store.Store.{Store, Env, fetch, empty}
use chat_store.Store.KeyPackages.{of_device, newest, latest}
use chat_store.Store.Accounts.{of_account, get_account}
use chat_store.Handlers.Conflicts.{Healthy}
use chat_store.Handlers.Errors.{decode_bundle, to_api_error}
use chat_store.Handlers.Endpoints.{
  serve, handle, fetch_key_package, fetch_account, submit_key_package,
}
use chat_store.Clients.Requests.{answered, send}
use chat_store.Clients.Benchmark.Accepted.{FlowEnvs}
use chat_store.Clients.Benchmark.Flow.{zeros, check_error_paths}
use chat_store.Clients.Benchmark.Options.{Config, parse_args}
use chat_store.Clients.Benchmark.Options.Checks.{parse_args-IsRunnable}
use chat_store.Clients.Benchmark.Shifts.{AreFine, one_by_one, one_by_one_lem}
use chat_store.Clients.Benchmark.Waiting.{Poll, wait_until_ready}
use chat_store.Clients.Benchmark.Work.{split_work, split_work_lem, workers_of, sum}
use chat_store.Clients.Benchmark.Server.{
  OsCall, Join, returned, collect, start_local_server, measure, benchmark_main,
}

-- Threads that all return.
abbrev pub all_returned : List ℕ → List Join
all_returned shares = map (λ n. returned (ok n)) shares

collect-returned : (shares : List ℕ) → collect (all_returned shares) ≡ ok shares
unfolding collect
collect-returned [] = refl
collect-returned (n ∷ shares) = rw (collect-returned shares) refl

module _ (crates : Crates) where
  -- A server with an empty store answers the three requests as the benchmark expects, where hex
  -- refuses what is not hex.
  pub check_error_paths-fresh :
      (a b c : Env) (s : Store)
      → Healthy a
      → Healthy b
      → select (of_device (zeros 64)) s.keypackages ≡ []
      → find (of_account (zeros 64)) s.account_bundles ≡ none
      → crates.hex_decode "not-a-key" ≡ none
      → check_error_paths crates (answered a) (answered b) (answered c) s ≡ (ok tt, s)
  unfolding check_error_paths send serve handle fetch_key_package fetch_account submit_key_package
      latest get_account newest decode_bundle to_api_error Option.map
  check_error_paths-fresh a b c s fine fine' no_rows no_account refused =
      rw (fine fetch, no_rows, fine' fetch, no_account, refused) refl

  -- A server whose store is empty is found ready by the first poll.
  ready_at_once :
      (polls : ℕ → Poll) (env : Env)
      → (polls 0).exchange ≡ answered env
      → Healthy env
      → wait_until_ready crates 201 polls 0 empty ≡ some (ok tt)
  unfolding wait_until_ready send serve handle fetch_key_package latest newest select Option.map
  ready_at_once polls env first fine = rw (first, fine fetch) refl

-- No share is more than all of them.
shares-le-sum : (shares : List ℕ) (bound : ℕ) → sum shares ≤ bound → All (λ n. n ≤ bound) shares
shares-le-sum [] bound h = tt
shares-le-sum (n ∷ shares) bound h =
    (omega (arith, h), shares-le-sum shares bound (omega (arith, h)))

module _ (crates : Crates) (signing : Signing crates) (laws : SigningLaws crates signing)
    (encoding : EncodingLaws crates) (fails : OsCall → Bool) (polls : ℕ → Poll) (config : Config)
    (address stem : String) (on : ℕ → ℕ → FlowEnvs)
    (first unknown_keypackage unknown_account malformed : Env) where
  -- The operating system does what it is asked to, and the database answers every statement: of
  -- the first poll, of the check of the error paths and of the workers' requests.
  pub record AllWorks : Type 0 where
    pub no_failure : (c : OsCall) → fails c ≡ false
    pub first_poll : (polls 0).exchange ≡ answered first
    pub first_healthy : Healthy first
    pub keypackage_healthy : Healthy unknown_keypackage
    pub account_healthy : Healthy unknown_account
    pub workers_fine : AreFine crates signing laws encoding config.payload_bytes on

  -- A run with options that are accepted and at most 2^31 operations, against a server of its own
  -- whose store is empty, where the operating system and the database do what they are asked to,
  -- and whose threads run one after another: it finds the server ready, passes the check of the
  -- error paths and every flow of every worker, and reports the operations that were asked for,
  -- seven requests for each, the number of the workers, and the database's path if it is kept. Hex
  -- refuses what is not hex, different seeds give different keys, the clock is past the epoch, and
  -- the crates are assumed to keep their documented laws.
  pub benchmark_main-completes :
      (args : List String)
      → parse_args args ≡ ok config
      → config.operations ≤ 2 ^ 31
      → crates.hex_decode "not-a-key" ≡ none
      → AllWorks
      → (benchmark_main fails crates polls
          (answered unknown_keypackage)
          (answered unknown_account)
          (answered malformed)
          (one_by_one crates signing laws encoding config.payload_bytes on 0)
          config
          address
          stem
          (record { calls = []; store = empty })).0
        ≡ ok (record {
          operations = config.operations;
          requests = config.operations * 7;
          concurrency = workers_of config.concurrency config.operations;
          retained = if config.keep_db then some (String.◌++◌ stem ".db") else none;
        })
  unfolding benchmark_main start_local_server measure
  benchmark_main-completes args parsed few refused w =
      let (sized, (_, some_worker, _, no_more, total)) = parse_args-IsRunnable args config parsed in
      let workers = workers_of config.concurrency config.operations in
      let shares = split_work config.operations workers in
      let counted = (split_work_lem config.operations workers some_worker).0 in
      let no = w.no_failure in
      let whole : as_u64 config.operations ≡ config.operations = unfold as_u64 in omega arith in
      let requests : as_u64 (config.operations * 7) ≡ config.operations * 7 =
        unfold as_u64 in omega arith in
      rw
        (
          no,
          no,
          no,
          no,
          no,
          ready_at_once crates polls first w.first_poll w.first_healthy,
          check_error_paths-fresh crates unknown_keypackage unknown_account malformed empty
              w.keypackage_healthy w.account_healthy (unfold select in refl) (unfold find in refl)
              refused,
          one_by_one_lem crates signing laws encoding config.payload_bytes on w.workers_fine shares
              0 empty (omega arith) (shares-le-sum shares (2 ^ 32) (omega arith))
              (λ later h k i l m. (unfold select in refl, unfold find in refl)),
          collect-returned shares,
          total,
          whole,
          requests,
        )
        refl

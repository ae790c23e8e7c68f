-- ===== src/Service.antt =====
-- src/main.rs: the options, the prune task, and the service as its inputs drive it.
pub mod Transitions
pub mod Runs
pub mod Pruning
pub mod Isolation
pub mod Startup
use chat_store.Common.{ℕ, ◌*◌, String, Bool, false, List, [], ◌∷◌}
use chat_store.Rust.{Duration, from_secs, as_u64}
use chat_store.Crates.{Crates}
use chat_store.Store.{Store, Env}
use chat_store.Store.KeyPackages.{prune_key_packages}
use chat_store.Store.Accounts.{prune_accounts}
use chat_store.Handlers.Endpoints.{Request, serve}
use chat_store.Delivery.{Received, ingest_received}

pub record Cli : Type 0 where
  pub bind : String
  pub db : String
  pub max_per_identity : ℕ
  pub retention_days : ℕ
  pub prune_interval_secs : ℕ
  pub no_delivery : Bool
  pub preset : String
  pub p2p_port : ℕ

-- The defaults that clap fills in.
abbrev pub default_cli : Cli
default_cli = record {
  bind = "0.0.0.0:8080";
  db = "chat-store.db";
  max_per_identity = 100;
  retention_days = 30;
  prune_interval_secs = 3600;
  no_delivery = false;
  preset = "logos.dev";
  p2p_port = 0;
}

-- `Duration::from_secs(cli.retention_days * 24 * 3600)`, in a release build, where `*` wraps.
unfoldable pub retention : Cli → Duration
retention cli = from_secs (as_u64 (as_u64 (cli.retention_days * 24) * 3600))

-- One round of the prune task. Either call may fail, and the failure is only logged.
unfoldable pub prune_round : Cli → Env → Env → Store → Store
prune_round cli env env' s =
    let (_, s') = prune_key_packages env cli.max_per_identity (retention cli) s in
    let (_, s'') = prune_accounts env' (retention cli) s' in s''

-- The loop of the prune task, with the surroundings of the two calls of each tick. The ticker and
-- the log lines are left out.
unfoldable pub prune_task : Cli → List (Env × Env) → Store → Store
prune_task cli [] s = s
prune_task cli ((env, env') ∷ ticks) s = prune_task cli ticks (prune_round cli env env' s)

-- What can happen to the running service: a request over HTTP, a message from the delivery queue,
-- and the two halves of a prune round. The three tasks run side by side, and each operation on the
-- store is one step, so a run is a list of these in any order.
pub data Input : Type 0 where
  request : Request → Input
  delivery : Received → Input
  prunes_key_packages : Input
  prunes_accounts : Input

module _ (crates : Crates) (cli : Cli) where
  unfoldable pub step : Env → Input → Store → Store
  step env (request req) s = (serve crates env req s).1
  step env (delivery received) s = (ingest_received crates env received s).1
  step env prunes_key_packages s = (prune_key_packages env cli.max_per_identity (retention cli) s).1
  step env prunes_accounts s = (prune_accounts env (retention cli) s).1

  unfoldable pub run : List (Env × Input) → Store → Store
  run [] s = s
  run ((env, input) ∷ inputs) s = run inputs (step env input s)

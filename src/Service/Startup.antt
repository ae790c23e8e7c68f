-- ===== src/Service/Startup.antt =====
-- The start-up of the service: `main` of src/main.rs, `Store::open` of src/store.rs and `start` of
-- src/delivery.rs, as the calls that they make, each of which can fail.
pub mod Order
pub mod Serving
use Prim.Native.String
use chat_store.Common.{
  ℕ, String, Bool, true, false, Option, none, some, List, [], ◌∷◌, ◌++◌, ◌==◌, if◌then◌else◌,
}
use chat_store.Common.Exec.{Result, ok, err, Exec, pure, exec_map_err, ◌>>=◌, ◌>>◌}
use chat_store.Delivery.{keypackage_submit_topic, account_submit_topic}

-- A database path: `:memory:`, or a file's path with its parent, if it has one.
pub data DbPath : Type 0 where
  memory : DbPath
  file : String → Option String → DbPath

-- The calls into the file system, sqlx, the delivery node and tokio.
pub data Call : Type 0 where
  -- `create_dir_all`
  create_dirs : String → Call
  -- the pool: its file, whether the journal is a write-ahead log, the most connections
  connect : String → Bool → ℕ → Call
  migrate : Call
  spawn_prune : Call
  start_node : Call
  subscribe : String → Call
  spawn_ingest : Call
  -- the address
  bind_listener : String → Call
  serve_http : Call

-- The contexts from the inside out, as anyhow keeps them.
abbrev pub Contexts : Type 0
Contexts = List String

-- The calls made so far are the state.
abbrev pub Startup : Type 0
Startup = Exec (List Call) Contexts (Unit {0})

module _ (fails : Call → Bool) where
  -- A call, with `.context(text)` on its error.
  abbrev pub attempt : Call → String → Startup
  attempt c text made = (if fails c then err (text ∷ []) else ok tt, made ++ c ∷ [])

  -- A call that does not fail.
  abbrev pub make : Call → Startup
  make c made = (ok tt, made ++ c ∷ [])

  -- `.context(text)` on a fallible call of the program's own
  abbrev pub under : String → Startup → Startup
  under text m = exec_map_err (λ contexts. contexts ++ text ∷ []) m

  -- The parent directory is made where the path has one that is not empty.
  abbrev pub make_parent : Option String → Startup
  make_parent none = pure tt
  make_parent (some parent) =
      if parent == ""
      then pure tt
      else attempt (create_dirs parent) (String.◌++◌ "create db directory " parent)

  -- `Store::open`
  unfoldable pub open_store : DbPath → Startup
  open_store memory = do
    attempt (connect ":memory:" false 1) "open sqlite"
    attempt migrate "run migrations"
  open_store (file path parent) = do
    make_parent parent
    attempt (connect path true 5) "open sqlite"
    attempt migrate "run migrations"

  -- `delivery::start`
  unfoldable pub start_delivery : Startup
  start_delivery = do
    attempt start_node "start embedded logos-delivery node"
    attempt (subscribe keypackage_submit_topic) "subscribe keypackage bundles"
    attempt (subscribe account_submit_topic) "subscribe account bundles"
    attempt spawn_ingest "spawn delivery-ingest thread"

  -- `main`, until the server stops
  unfoldable pub start_up : DbPath → Bool → String → Startup
  start_up db no_delivery bind = do
    under "failed to open store" (open_store db)
    make spawn_prune
    if no_delivery then pure tt else under "failed to start logos-delivery ingestion" start_delivery
    attempt (bind_listener bind) (String.◌++◌ "failed to bind " bind)
    attempt serve_http "server error"

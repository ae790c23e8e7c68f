-- ===== src/Tests/Startup.antt =====
-- The start-up with calls that succeed and calls that fail.
use chat_store.Common.{Bool, true, false, some, ◌≡◌, refl, [], ◌∷◌, ◌⊎◌}
use chat_store.Common.Exec.{ok, err}
use chat_store.Service.Startup.{
  file, memory, Call, create_dirs, connect, migrate, spawn_prune, start_node, bind_listener,
  serve_http, open_store, start_delivery, start_up,
}
use chat_store.Service.Startup.Serving.{Serves, Stops, start_up-Serves}

abbrev no_peers : Call → Bool
no_peers start_node = true
no_peers other = false

-- Without the node, the listener is not bound.
stopped : start_up no_peers (file "tmp/chat-store.db" (some "tmp")) false "0.0.0.0:8080" [] ≡ (
  err ("start embedded logos-delivery node" ∷ "failed to start logos-delivery ingestion" ∷ []),
  create_dirs "tmp" ∷ connect "tmp/chat-store.db" true 5 ∷ migrate ∷ spawn_prune ∷ start_node ∷ [],
)
unfolding start_up open_store start_delivery
stopped = refl

served : start_up no_peers memory true "0.0.0.0:8080" [] ≡ (
  ok tt,
  connect ":memory:" false 1
      ∷ migrate
      ∷ spawn_prune
      ∷ bind_listener "0.0.0.0:8080"
      ∷ serve_http
      ∷ [],
)
unfolding start_up open_store start_delivery
served = refl

start_up-Serves_example :
    Serves no_peers false "0.0.0.0:8080" (start_up no_peers memory false "0.0.0.0:8080" [])
    ⊎ Stops no_peers (start_up no_peers memory false "0.0.0.0:8080" [])
start_up-Serves_example = start_up-Serves no_peers memory false "0.0.0.0:8080"

-- ===== src/Service/Startup/Order.antt =====
-- A start-up as the calls that it makes before it serves, up to the first that fails.
use Prim.Native.String
use native.Mathlib.Omega.{arith}
use chat_store.Common.{
  String, Bool, true, false, Option, none, some, List, [], ◌∷◌, ◌++◌, ◌==◌, if◌then◌else◌, ◌≡◌,
  refl, sym, subst, inl, inr, Bool-cases, All, All-append,
}
use mathlib.Core.List.{Memᴰ}
use mathlib.Core.List.Memᴰ
use chat_store.Common.Exec.{Result, ok, err}
use chat_store.Delivery.{keypackage_submit_topic, account_submit_topic}
use chat_store.Service.Startup.{
  DbPath, memory, file, Call, create_dirs, connect, migrate, spawn_prune, start_node, subscribe,
  spawn_ingest, bind_listener, serve_http, Contexts, open_store, start_delivery, start_up,
}

-- What the operator reads, from the inside out, when a call fails.
abbrev pub complaint : Call → Contexts
complaint (create_dirs parent) =
    String.◌++◌ "create db directory " parent ∷ "failed to open store" ∷ []
complaint (connect filename wal most) = "open sqlite" ∷ "failed to open store" ∷ []
complaint migrate = "run migrations" ∷ "failed to open store" ∷ []
complaint spawn_prune = []
complaint start_node =
    "start embedded logos-delivery node" ∷ "failed to start logos-delivery ingestion" ∷ []
complaint (subscribe topic) =
    (if topic == keypackage_submit_topic
      then "subscribe keypackage bundles"
      else "subscribe account bundles")
    ∷ "failed to start logos-delivery ingestion"
    ∷ []
complaint spawn_ingest =
    "spawn delivery-ingest thread" ∷ "failed to start logos-delivery ingestion" ∷ []
complaint (bind_listener bind) = String.◌++◌ "failed to bind " bind ∷ []
complaint serve_http = "server error" ∷ []

-- The calls before the serving.
abbrev pub parent_calls : Option String → List Call
parent_calls none = []
parent_calls (some parent) = if parent == "" then [] else create_dirs parent ∷ []

abbrev pub store_calls : DbPath → List Call
store_calls memory = connect ":memory:" false 1 ∷ migrate ∷ []
store_calls (file path parent) = parent_calls parent ++ (connect path true 5 ∷ migrate ∷ [])

abbrev pub delivery_calls : Bool → List Call
delivery_calls true = []
delivery_calls false =
    start_node
    ∷ subscribe keypackage_submit_topic
    ∷ subscribe account_submit_topic
    ∷ spawn_ingest
    ∷ []

abbrev pub late_calls : Bool → String → List Call
late_calls no_delivery bind = delivery_calls no_delivery ++ (bind_listener bind ∷ [])

abbrev pub early_calls : DbPath → Bool → String → List Call
early_calls db no_delivery bind = store_calls db ++ (spawn_prune ∷ late_calls no_delivery bind)

abbrev pub IsEarly : Call → Type 0
IsEarly serve_http = ⊥
IsEarly other = Unit

parent_calls-IsEarly : (parent : Option String) → All IsEarly (parent_calls parent)
parent_calls-IsEarly none = tt
parent_calls-IsEarly (some parent) = elim (Bool-cases (parent == "")) [
  | inl h ↦ rw h tt
  | inr h ↦ rw h (tt, tt)
]

store_calls-IsEarly : (db : DbPath) → All IsEarly (store_calls db)
store_calls-IsEarly memory = (tt, (tt, tt))
store_calls-IsEarly (file path parent) =
    All-append IsEarly (parent_calls parent) _ (parent_calls-IsEarly parent) (tt, (tt, tt))

late_calls-IsEarly :
    (no_delivery : Bool) (bind : String) → All IsEarly (late_calls no_delivery bind)
late_calls-IsEarly true bind = (tt, tt)
late_calls-IsEarly false bind = (tt, (tt, (tt, (tt, (tt, tt)))))

pub early_calls-IsEarly :
    (db : DbPath) (no_delivery : Bool) (bind : String)
    → All IsEarly (early_calls db no_delivery bind)
early_calls-IsEarly db no_delivery bind =
    All-append IsEarly (store_calls db) _ (store_calls-IsEarly db)
      (tt, late_calls-IsEarly no_delivery bind)

pub not-serve : (cs : List Call) → All IsEarly cs → ¬ Memᴰ serve_http cs
not-serve [] h m = elim m [ ]
not-serve (c ∷ cs) (h, hs) (Memᴰ.head e) = subst IsEarly (sym e) h
not-serve (c ∷ cs) (h, hs) (Memᴰ.tail m) = not-serve cs hs m

pub migrate-store_calls : (db : DbPath) → Memᴰ migrate (store_calls db)
migrate-store_calls memory = Memᴰ.tail (Memᴰ.head refl)
migrate-store_calls (file path parent) =
    Memᴰ.append_right (parent_calls parent) (Memᴰ.tail (Memᴰ.head refl))

module _ (fails : Call → Bool) where
  -- Whether the call fails; the spawning of the prune task cannot.
  abbrev pub bad : Call → Bool
  bad spawn_prune = false
  bad other = fails other

  -- The call did not fail.
  abbrev pub IsFine : Call → Type 0
  IsFine c = bad c ≡ false

  pub fails-of : (c : Call) → bad c ≡ true → fails c ≡ true
  fails-of spawn_prune h = cc
  fails-of (create_dirs parent) h = h
  fails-of (connect filename wal most) h = h
  fails-of migrate h = h
  fails-of start_node h = h
  fails-of (subscribe topic) h = h
  fails-of spawn_ingest h = h
  fails-of (bind_listener bind) h = h
  fails-of serve_http h = h

  abbrev pub End : Type 0
  End = Result Contexts (Unit {0}) × List Call

  abbrev pub served : List Call → End
  served made =
      (if fails serve_http then err (complaint serve_http) else ok tt, made ++ serve_http ∷ [])

  -- The calls of a list, up to the first that fails, and the serving after them.
  abbrev pub follow : List Call → List Call → End
  follow [] made = served made
  follow (c ∷ rest) made =
      let after = follow rest (made ++ c ∷ []) in
      if bad c then (err (complaint c), made ++ c ∷ []) else after

  pub start_up-follow :
      (db : DbPath) (no_delivery : Bool) (bind : String) (made : List Call)
      → start_up fails db no_delivery bind made ≡ follow (early_calls db no_delivery bind) made
  unfolding start_up open_store start_delivery
  start_up-follow memory true bind made = ground arith
  start_up-follow memory false bind made = ground arith
  start_up-follow (file path none) true bind made = ground arith
  start_up-follow (file path none) false bind made = ground arith
  start_up-follow (file path (some parent)) true bind made = ground arith
  start_up-follow (file path (some parent)) false bind made = ground arith

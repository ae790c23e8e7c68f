-- ===== src/Store/Locking/Machine.antt =====
-- The tasks that share a store: the holder of the lock and what is left of its operation, the
-- results so far in the order in which the lock was dropped, and what other tasks have read.
use chat_store.Common.{String, List, [], ◌∷◌, ◌++◌}
use chat_store.Crates.{Crates}
use chat_store.Store.Rows.{Store}
use chat_store.Store.Locking.Programs.{
  Database, Reply, Program, returns, statement, Writer, program, perform,
}

module _ (crates : Crates) where
  pub data Holder : Type 0 where
    nobody : Holder
    holder : Writer crates → Program Reply → Holder

  pub record Machine : Type 0 where
    pub database : Database
    pub lock : Holder
    pub replies : List (Writer crates × Reply)
    pub seen : List Store

  -- What the runtime may schedule next: a task asks for the lock, the holder runs its next
  -- statement or drops the lock, or a task reads with one statement and no lock.
  pub data Event : Type 0 where
    acquires : Writer crates → Event
    proceeds : Event
    reads : Event

  -- One statement, or the end of the operation, with which the guard is dropped.
  abbrev pub proceed : Holder → Machine → Machine
  proceed nobody m = m
  proceed (holder w (returns r)) m = record m { lock = nobody; replies = m.replies ++ (w, r) ∷ [] }
  proceed (holder w (statement change next)) m = record m {
    database = change m.database;
    lock = holder w (next m.database);
  }

  module _ (busy : String) where
    -- `write_lock.lock().await`: while the lock is held, the task waits.
    abbrev pub acquire : Writer crates → Holder → Holder
    acquire w nobody = holder w (program crates busy w)
    acquire w (holder v rest) = holder v rest

    unfoldable pub move : Event → Machine → Machine
    move (acquires w) m = record m { lock = acquire w m.lock }
    move proceeds m = proceed m.lock m
    move reads m = record m { seen = m.seen ++ m.database.tables ∷ [] }

    unfoldable pub interleave : List Event → Machine → Machine
    interleave [] m = m
    interleave (e ∷ events) m = interleave events (move e m)

  abbrev pub start : Store → Machine
  start s = record {
    database = record { tables = s; commits = 0 };
    lock = nobody;
    replies = [];
    seen = [];
  }

  -- The calls one after another, each as one step.
  unfoldable pub serial : List (Writer crates) → Store → List (Writer crates × Reply) × Store
  serial [] s = ([], s)
  serial (w ∷ ws) s =
      let (r, s') = perform crates w s in let (rs, t) = serial ws s' in ((w, r) ∷ rs, t)

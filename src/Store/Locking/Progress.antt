-- ===== src/Store/Locking/Progress.antt =====
-- A task that has the lock drops it.
use chat_store.Common.{ℕ, zero, suc, String, ◌≡◌, refl, sym, ap, subst, List, [], ◌∷◌, ◌++◌}
use chat_store.Crates.{Crates}
use chat_store.Store.Rows.{Store}
use chat_store.Store.Locking.Programs.{Reply, Program, returns, statement, Writer, program, perform}
use chat_store.Store.Locking.Machine.{
  nobody, holder, Machine, Event, acquires, proceeds, acquire, move, interleave,
}
use chat_store.Store.Locking.Statements.{Follows, program-Follows}

module _ (crates : Crates) (busy : String) where
  -- The call is over: its reply is the last, and the tables are those that it leaves.
  pub record Finished (w : Writer crates) (before : Machine crates) (m : Machine crates)
      : Type 0 where
    pub free : m.lock ≡ nobody
    pub replied :
        m.replies ≡ before.replies ++ (w, (perform crates w before.database.tables).0) ∷ []
    pub left : m.database.tables ≡ (perform crates w before.database.tables).1

  abbrev pub turns : ℕ → List (Event crates)
  turns zero = []
  turns (suc n) = proceeds ∷ turns n

  abbrev Ended : Writer crates → Machine crates → Reply × Store → Machine crates → Type 0
  Ended w before (reply, final) m =
      (m.lock ≡ nobody)
      × (m.replies ≡ before.replies ++ (w, reply) ∷ [])
      × (m.database.tables ≡ final)

  -- Nothing happens while nobody holds the lock.
  turns-free :
      (n : ℕ) (m : Machine crates)
      → interleave crates busy (turns n) (record m { lock = nobody }) ≡ record m { lock = nobody }
  unfolding interleave move
  turns-free zero m = refl
  turns-free (suc n) m = turns-free n m

  Follows-Ended :
      (base : Store) (out : Reply × Store) (w : Writer crates) (n : ℕ) (rest : Program Reply)
      (m : Machine crates)
      → Follows crates w base out n rest m.database
      → Ended w m out (interleave crates busy (turns (suc n)) (record m { lock = holder w rest }))
  unfolding interleave move
  Follows-Ended base (reply, final) w n (returns r) m (same, left) =
      subst (Ended w m (reply, final))
        (sym (turns-free n (record m { replies = m.replies ++ (w, r) ∷ [] })))
        (refl, ap (λ x. m.replies ++ (w, x) ∷ []) same, left)
  Follows-Ended base out w zero (statement change next) m h = absurd h
  Follows-Ended base (reply, final) w (suc n) (statement change next) m h =
      Follows-Ended base (reply, final) w n (next m.database)
        (record m { database = change m.database }) h.1

  -- A waiting task takes the lock when it is free.
  acquires-free :
      (w : Writer crates) (m : Machine crates)
      → m.lock ≡ nobody
      → move crates busy (acquires w) m ≡ record m { lock = holder w (program crates busy w) }
  unfolding move
  acquires-free w m free = ap (λ l. record m { lock = acquire crates busy w l }) free

  Finished-of :
      (w : Writer crates) (m m' : Machine crates)
      → Ended w m (perform crates w m.database.tables) m'
      → Finished w m m'
  Finished-of w m m' (a, b, c) = record { free = a; replied = b; left = c }

  -- A call that asks for a free lock has dropped it after at most five turns of its task: its reply
  -- is then the last, and the tables are those that the call leaves as one step.
  pub acquires-Finished :
      (w : Writer crates) (m : Machine crates)
      → m.lock ≡ nobody
      → Finished w m (interleave crates busy (acquires w ∷ turns 5) m)
  unfolding interleave
  acquires-Finished w m free =
      subst (λ x. Finished w m (interleave crates busy (turns 5) x)) (sym (acquires-free w m free))
        (Finished-of w m _ (
          Follows-Ended m.database.tables (perform crates w m.database.tables) w 4
            (program crates busy w) m (program-Follows crates busy w m.database)))

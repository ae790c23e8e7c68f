-- ===== src/Tests/Locking.antt =====
-- Tasks that meet at the lock of the store.
use mathlib.Core.List.{Memᴰ}
use chat_store.Common.{ℕ, ◌+◌, ◌≡◌, refl, true, false, List, [], ◌∷◌, ◌++◌, replicate, All}
use chat_store.Common.Int.{pos}
use chat_store.Common.Exec.{ok}
use chat_store.Rust.{from_secs}
use chat_store.Store.{empty, StoredAccountBundle}
use chat_store.Store.Locking.Programs.{
  done, upserted, Writer, inserts, upserts, prunes_keypackages, program, perform, insert_program,
  upsert_program, prune_key_packages_program, delete_expired, delete_excess,
}
use chat_store.Store.Locking.Machine.{
  nobody, Machine, Event, acquires, proceeds, reads, move, interleave, start, serial,
}
use chat_store.Store.Locking.Serial.{calls, begun, IsRead, interleave-serial}
use chat_store.Store.Locking.Reads.{reads-IsRead}
use chat_store.Store.Locking.Progress.{Finished, turns, acquires-Finished}
use chat_store.Tests.Fixtures.{demo, at, payload_at}
use chat_store.Tests.Traffic.{executable}

abbrev version : ℕ → StoredAccountBundle
version n = record { payload = payload_at n; signature = replicate 64 1; updated_at = pos 0 }

abbrev publishes : ℕ → Writer demo
publishes n = upserts (at (10 + n)) "alice" n (version n)

abbrev offers : Writer demo
offers = inserts (at 9) "alice" (record { payload = 1 ∷ []; signature = replicate 64 1 })

abbrev prunes : Writer demo
prunes = prunes_keypackages (at 100) 10 (from_secs 10)

-- Version 6 asks for the lock in the middle of version 7, and gets it afterwards. The prune is read
-- between its two statements.
abbrev schedule : List (Event demo)
schedule =
    acquires offers
      ∷ proceeds
      ∷ proceeds
      ∷ acquires (publishes 7)
      ∷ proceeds
      ∷ proceeds
      ∷ acquires (publishes 6)
      ∷ reads
      ∷ proceeds
      ∷ proceeds
      ∷ reads
      ∷ proceeds
      ∷ acquires (publishes 6)
      ∷ turns demo "busy" 5
    ++ acquires prunes ∷ proceeds ∷ reads ∷ proceeds ∷ proceeds ∷ []

abbrev met : Machine demo
met = interleave demo "busy" schedule (start demo empty)

-- Opening this opens all that a schedule calls.
unfoldable pub scheduled : Unit {0}
unfolding executable interleave move serial program perform insert_program upsert_program
    prune_key_packages_program delete_expired delete_excess
scheduled = tt

met_free : met.lock ≡ nobody
unfolding scheduled
met_free = refl

met_replies :
    met.replies
    ≡ (offers, done (ok tt))
      ∷ (publishes 7, upserted (ok true))
      ∷ (publishes 6, upserted (ok false))
      ∷ (prunes, done (ok tt))
      ∷ []
unfolding scheduled
met_replies = refl

interleave-serial_example : serial demo (calls demo met) empty ≡ (met.replies, met.database.tables)
interleave-serial_example = interleave-serial demo "busy" schedule empty met_free

reads-IsRead_example :
    All (λ w. Memᴰ (acquires w) schedule) (begun demo met)
    × All (IsRead demo empty (begun demo met)) met.seen
reads-IsRead_example = reads-IsRead demo "busy" schedule empty

acquires-Finished_example :
    Finished demo "busy"
      (publishes 8)
      met
      (interleave demo "busy" (acquires (publishes 8) ∷ turns demo "busy" 5) met)
acquires-Finished_example = acquires-Finished demo "busy" (publishes 8) met met_free

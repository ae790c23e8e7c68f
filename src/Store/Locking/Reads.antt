-- ===== src/Store/Locking/Reads.antt =====
-- What tasks read that do not take the lock.
use mathlib.Core.List.{append-nil, Memᴰ}
use chat_store.Common.{String, refl, sym, subst, List, [], ◌∷◌, ◌++◌, All, All-append}
use chat_store.Crates.{Crates}
use chat_store.Store.Rows.{Store}
use chat_store.Store.Locking.Programs.{returns, statement, Writer}
use chat_store.Store.Locking.Machine.{
  Holder, nobody, holder, Machine, Event, acquires, proceeds, reads, acquire, proceed, move,
  interleave, start,
}
use chat_store.Store.Locking.Serial.{
  calls, held_call, begun, begun-over, IsRead, interleave-Inv, start-Inv,
}

module _ (crates : Crates) where
  -- Only calls that were asked for.
  abbrev pub Asks : (Writer crates → Type 0) → Event crates → Type 0
  Asks P (acquires w) = P w
  Asks P other = Unit

  acquire-asked :
      (busy : String) (P : Writer crates → Type 0) (w : Writer crates) (cs : List (Writer crates))
      (lock : Holder crates)
      → P w
      → All P (cs ++ held_call crates lock)
      → All P (cs ++ held_call crates (acquire crates busy w lock))
  acquire-asked busy P w cs nobody p h =
      All-append P cs (w ∷ []) (subst (All P) (append-nil cs) h) (p, tt)
  acquire-asked busy P w cs (holder v rest) p h = h

  proceed-asked :
      (P : Writer crates → Type 0) (lock : Holder crates) (m : Machine crates)
      → All P (begun crates (record m { lock = lock }))
      → All P (begun crates (proceed crates lock (record m { lock = lock })))
  proceed-asked P nobody m h = h
  proceed-asked P (holder w (statement change next)) m h = h
  proceed-asked P (holder w (returns r)) m h = subst (All P) (sym (begun-over crates m w r)) h

  move-asked :
      (busy : String) (P : Writer crates → Type 0) (e : Event crates) (m : Machine crates)
      → Asks P e
      → All P (begun crates m)
      → All P (begun crates (move crates busy e m))
  unfolding move
  move-asked busy P (acquires w) m p h = acquire-asked busy P w (calls crates m) m.lock p h
  move-asked busy P proceeds m p h = proceed-asked P m.lock m h
  move-asked busy P reads m p h = h

  interleave-asked :
      (busy : String) (P : Writer crates → Type 0) (events : List (Event crates))
      (m : Machine crates)
      → All (Asks P) events
      → All P (begun crates m)
      → All P (begun crates (interleave crates busy events m))
  unfolding interleave
  interleave-asked busy P [] m ps h = h
  interleave-asked busy P (e ∷ events) m (p, ps) h =
      interleave-asked busy P events (move crates busy e m) ps (move-asked busy P e m p h)

  asked_all :
      (P : Writer crates → Type 0) (events : List (Event crates))
      → ((w : Writer crates) → Memᴰ (acquires w) events → P w)
      → All (Asks P) events
  asked_all P [] h = tt
  asked_all P (acquires w ∷ events) h =
      (h w (Memᴰ.head refl), asked_all P events (λ v k. h v (Memᴰ.tail k)))
  asked_all P (proceeds ∷ events) h = (tt, asked_all P events (λ v k. h v (Memᴰ.tail k)))
  asked_all P (reads ∷ events) h = (tt, asked_all P events (λ v k. h v (Memᴰ.tail k)))

  -- The calls that take the lock are ones that the schedule asks for. Whatever a task reads without
  -- the lock, between any two statements of the others, is what the first few of these calls leave,
  -- run whole and one after another, or what the next of them makes visible while it runs: what it
  -- leaves when it is over, or, for a prune of keypackages, what its first DELETE leaves.
  pub reads-IsRead :
      (busy : String) (events : List (Event crates)) (s : Store)
      → let m = interleave crates busy events (start crates s) in
        All (λ w. Memᴰ (acquires w) events) (begun crates m)
        × All (IsRead crates s (begun crates m)) m.seen
  reads-IsRead busy events s = (
    interleave-asked busy (λ w. Memᴰ (acquires w) events) events (start crates s)
        (asked_all (λ w. Memᴰ (acquires w) events) events (λ w k. k)) tt,
    (interleave-Inv crates busy s events (start crates s) (start-Inv crates s)).read,
  )

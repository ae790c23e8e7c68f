-- ===== src/Store/Locking/Serial.antt =====
-- Every interleaving of the tasks is worth a serial execution of the calls that took the lock.
use mathlib.Core.List.{map-append, append_assoc, append-nil}
use chat_store.Common.{
  ℕ, zero, suc, String, ◌⊎◌, inl, inr, ◌≡◌, refl, sym, ap, subst, ◌∙◌, List, [], ◌∷◌, ◌++◌, map,
  All, All-append,
}
use chat_store.Crates.{Crates}
use chat_store.Store.Rows.{Store}
use chat_store.Store.Locking.Programs.{
  Database, Reply, Program, returns, statement, Writer, program, perform,
}
use chat_store.Store.Locking.Machine.{
  Holder, nobody, holder, Machine, Event, acquires, proceeds, reads, acquire, proceed, move,
  interleave, start, serial,
}
use chat_store.Store.Locking.Statements.{IsVisible, Follows, program-Follows}

module _ (crates : Crates) where
  -- The calls whose operations are over, in the order in which they dropped the lock.
  abbrev pub calls : Machine crates → List (Writer crates)
  calls m = map (λ r. r.0) m.replies

  serial-append :
      (ws : List (Writer crates)) (w : Writer crates) (s : Store)
      → serial crates (ws ++ w ∷ []) s ≡ (
        (serial crates ws s).0 ++ (w, (perform crates w (serial crates ws s).1).0) ∷ [],
        (perform crates w (serial crates ws s).1).1,
      )
  unfolding serial
  serial-append [] w s = refl
  serial-append (v ∷ ws) w s =
      ap (λ r. ((v, (perform crates v s).0) ∷ r.0, r.1)) (serial-append ws w (perform crates v s).1)

  abbrev pub held_call : Holder crates → List (Writer crates)
  held_call nobody = []
  held_call (holder w rest) = w ∷ []

  -- The calls that have had the lock, in the order in which they took it.
  abbrev pub begun : Machine crates → List (Writer crates)
  begun m = calls m ++ held_call m.lock

  -- What the first of the calls leave as whole calls, or what the call after them makes visible
  -- while it runs.
  abbrev pub IsRead : Store → List (Writer crates) → Store → Type 0
  IsRead s order t =
      ((past : List (Writer crates)) × (future : List (Writer crates)) × (past ++ future ≡ order)
        × (t ≡ (serial crates past s).1))
      ⊎ ((past : List (Writer crates)) × (w : Writer crates) × (future : List (Writer crates))
          × (past ++ w ∷ future ≡ order)
          × IsVisible crates w (serial crates past s).1 t)

  IsRead-append :
      (s : Store) (order more : List (Writer crates)) (t : Store)
      → IsRead s order t
      → IsRead s (order ++ more) t
  IsRead-append s order more t (inl (past, future, e, h)) =
      inl (past, future ++ more, sym (append_assoc past future more) ∙ ap (λ l. l ++ more) e, h)
  IsRead-append s order more t (inr (past, w, future, e, h)) = inr (
    past,
    w,
    future ++ more,
    sym (append_assoc past (w ∷ future) more) ∙ ap (λ l. l ++ more) e,
    h,
  )

  All-IsRead-append :
      (s : Store) (order more : List (Writer crates)) (ts : List Store)
      → All (IsRead s order) ts
      → All (IsRead s (order ++ more)) ts
  All-IsRead-append s order more [] h = tt
  All-IsRead-append s order more (t ∷ ts) (h, hs) =
      (IsRead-append s order more t h, All-IsRead-append s order more ts hs)

  abbrev pub Held : Store → Holder crates → Database → Type 0
  Held base nobody d = d.tables ≡ base
  Held base (holder w rest) d = (n : ℕ) × Follows crates w base (perform crates w base) n rest d

  pub record Inv (s : Store) (m : Machine crates) : Type 0 where
    pub base : Store
    pub served : serial crates (calls m) s ≡ (m.replies, base)
    pub held : Held base m.lock m.database
    pub read : All (IsRead s (begun m)) m.seen

  -- What the tables are at any moment, while a call runs that found `base`.
  Follows-IsVisible :
      (base : Store) (w : Writer crates) (n : ℕ) (rest : Program Reply) (d : Database)
      → Follows crates w base (perform crates w base) n rest d
      → IsVisible crates w base d.tables
  Follows-IsVisible base w n (returns r) d (_, left) = inr (inl left)
  Follows-IsVisible base w zero (statement change next) d h = absurd h
  Follows-IsVisible base w (suc n) (statement change next) d h = h.0

  Held-IsRead :
      (s base : Store) (cs : List (Writer crates)) (lock : Holder crates) (d : Database)
      → (serial crates cs s).1 ≡ base
      → Held base lock d
      → IsRead s (cs ++ held_call lock) d.tables
  Held-IsRead s base cs nobody d served h = inl (cs, [], refl, h ∙ sym served)
  Held-IsRead s base cs (holder w rest) d served (n, h) = inr (
    cs,
    w,
    [],
    refl,
    subst (λ b. IsVisible crates w b d.tables) (sym served) (Follows-IsVisible base w n rest d h),
  )

  Inv-IsRead : (s : Store) (m : Machine crates) → Inv s m → IsRead s (begun m) m.database.tables
  Inv-IsRead s m inv =
      Held-IsRead s inv.base (calls m) m.lock m.database (ap (λ r. r.1) inv.served) inv.held

  acquire-Held :
      (busy : String) (w : Writer crates) (base : Store) (lock : Holder crates) (d : Database)
      → Held base lock d
      → Held base (acquire crates busy w lock) d
  acquire-Held busy w base nobody d h = (
    4,
    subst (λ b. Follows crates w b (perform crates w b) 4 (program crates busy w) d) h
        (program-Follows crates busy w d),
  )
  acquire-Held busy w base (holder v rest) d h = h

  next_held :
      (base : Store) (w : Writer crates) (n : ℕ) (change : Database → Database)
      (next : Database → Program Reply) (d : Database)
      → Follows crates w base (perform crates w base) n (statement change next) d
      → (k : ℕ) × Follows crates w base (perform crates w base) k (next d) (change d)
  next_held base w zero change next d h = absurd h
  next_held base w (suc n) change next d h = (n, h.1)

  -- A call that drops the lock is still the last that took it.
  pub begun-over :
      (m : Machine crates) (w : Writer crates) (r : Reply)
      → map (λ o. o.0) (m.replies ++ (w, r) ∷ []) ++ [] ≡ calls m ++ w ∷ []
  begun-over m w r =
      append-nil (map (λ o. o.0) (m.replies ++ (w, r) ∷ []))
      ∙ map-append (λ o. o.0) m.replies ((w, r) ∷ [])

  -- Reads stay reads when a task asks for the lock.
  acquire-IsRead :
      (busy : String) (s : Store) (w : Writer crates) (cs : List (Writer crates))
      (lock : Holder crates) (ts : List Store)
      → All (IsRead s (cs ++ held_call lock)) ts
      → All (IsRead s (cs ++ held_call (acquire crates busy w lock))) ts
  acquire-IsRead busy s w cs nobody ts h =
      All-IsRead-append s cs (w ∷ []) ts (subst (λ l. All (IsRead s l) ts) (append-nil cs) h)
  acquire-IsRead busy s w cs (holder v rest) ts h = h

  proceed-Inv :
      (s : Store) (lock : Holder crates) (m : Machine crates)
      → Inv s (record m { lock = lock })
      → Inv s (proceed crates lock (record m { lock = lock }))
  proceed-Inv s nobody m inv = inv
  proceed-Inv s (holder w (statement change next)) m inv = record {
    base = inv.base;
    served = inv.served;
    held = next_held inv.base w inv.held.0 change next m.database inv.held.1;
    read = inv.read;
  }
  proceed-Inv s (holder w (returns r)) m inv = record {
    base = (perform crates w inv.base).1;
    served =
        ap (λ ws. serial crates ws s) (map-append (λ o. o.0) m.replies ((w, r) ∷ []))
        ∙ serial-append (calls m) w s
        ∙ ap (λ o. (o.0 ++ (w, (perform crates w o.1).0) ∷ [], (perform crates w o.1).1)) inv.served
        ∙ ap (λ x. (m.replies ++ (w, x) ∷ [], (perform crates w inv.base).1)) (sym inv.held.1.0);
    held = inv.held.1.1;
    read = subst (λ l. All (IsRead s l) m.seen) (sym (begun-over m w r)) inv.read;
  }

  move-Inv :
      (busy : String) (s : Store) (e : Event crates) (m : Machine crates)
      → Inv s m
      → Inv s (move crates busy e m)
  unfolding move
  move-Inv busy s (acquires w) m inv = record {
    base = inv.base;
    served = inv.served;
    held = acquire-Held busy w inv.base m.lock m.database inv.held;
    read = acquire-IsRead busy s w (calls m) m.lock m.seen inv.read;
  }
  move-Inv busy s proceeds m inv = proceed-Inv s m.lock m inv
  move-Inv busy s reads m inv = record {
    base = inv.base;
    served = inv.served;
    held = inv.held;
    read = All-append (IsRead s (begun m)) m.seen _ inv.read (Inv-IsRead s m inv, tt);
  }

  pub interleave-Inv :
      (busy : String) (s : Store) (events : List (Event crates)) (m : Machine crates)
      → Inv s m
      → Inv s (interleave crates busy events m)
  unfolding interleave
  interleave-Inv busy s [] m inv = inv
  interleave-Inv busy s (e ∷ events) m inv =
      interleave-Inv busy s events (move crates busy e m) (move-Inv busy s e m inv)

  pub start-Inv : (s : Store) → Inv s (start crates s)
  unfolding serial
  start-Inv s = record { base = s; served = refl; held = refl; read = tt }

  free-serial :
      (s : Store) (m : Machine crates)
      → Inv s m
      → m.lock ≡ nobody
      → serial crates (calls m) s ≡ (m.replies, m.database.tables)
  free-serial s m inv free =
      let left : m.database.tables ≡ inv.base =
        subst (λ l. Held inv.base l m.database) free inv.held in
      inv.served ∙ ap (λ b. (m.replies, b)) (sym left)

  -- However the statements of the writing operations interleave: when the lock is free, the replies
  -- and the tables are those of the same calls run one after another, each as one step, in the
  -- order in which they dropped the lock. So no call is refused because of another writer.
  pub interleave-serial :
      (busy : String) (events : List (Event crates)) (s : Store)
      → (interleave crates busy events (start crates s)).lock ≡ nobody
      → let m = interleave crates busy events (start crates s) in
        serial crates (calls m) s ≡ (m.replies, m.database.tables)
  interleave-serial busy events s free =
      free-serial s _ (interleave-Inv busy s events (start crates s) (start-Inv s)) free

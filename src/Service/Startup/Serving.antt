-- ===== src/Service/Startup/Serving.antt =====
-- What is in place when the service starts to serve, and how a start-up ends that does not.
use mathlib.Core.List.{append_assoc, append-nil, Memᴰ}
use mathlib.Core.List.Memᴰ
use chat_store.Common.{
  String, Bool, true, false, List, [], ◌∷◌, ◌++◌, ◌≡◌, refl, ap, sym, subst, ◌∙◌, ◌⊎◌, inl, inr,
  Bool-cases, All, if◌then◌else◌,
}
use chat_store.Common.Exec.{ok, err}
use chat_store.Delivery.{keypackage_submit_topic, account_submit_topic}
use chat_store.Service.Startup.{
  DbPath, Call, migrate, spawn_prune, start_node, subscribe, spawn_ingest, bind_listener,
  serve_http, start_up,
}
use chat_store.Service.Startup.Order.{
  complaint, store_calls, delivery_calls, late_calls, early_calls, early_calls-IsEarly, not-serve,
  migrate-store_calls, bad, fails-of, IsFine, End, served, follow, start_up-follow,
}

module _ (fails : Call → Bool) where
  -- The call was made, and did not fail.
  abbrev pub Succeeded : Call → List Call → Type 0
  Succeeded c made = Memᴰ c made × (fails c ≡ false)

  -- The database has its tables, the prune task runs, the listener is bound, and, unless the
  -- delivery is off, the node runs, is subscribed to both topics and has its ingest thread.
  pub record IsReady (no_delivery : Bool) (bind : String) (made : List Call) : Type 0 where
    pub migrated : Succeeded migrate made
    pub prunes : Memᴰ spawn_prune made
    pub node : no_delivery ≡ false → Succeeded start_node made
    pub keypackages : no_delivery ≡ false → Succeeded (subscribe keypackage_submit_topic) made
    pub accounts : no_delivery ≡ false → Succeeded (subscribe account_submit_topic) made
    pub ingests : no_delivery ≡ false → Succeeded spawn_ingest made
    pub bound : Succeeded (bind_listener bind) made

  -- Serving is the last call, and all is ready before it.
  abbrev pub Serves : Bool → String → End fails → Type 0
  Serves no_delivery bind end =
      (before : List Call) × IsReady no_delivery bind before
      × (end ≡ (
        if fails serve_http then err ("server error" ∷ []) else ok tt,
        before ++ serve_http ∷ [],
      ))

  -- The last call failed and is what is complained of, none before it failed, and nothing was
  -- served.
  abbrev pub Stops : End fails → Type 0
  Stops end =
      (before : List Call) × (c : Call) × All (IsFine fails) before
      × (fails c ≡ true)
      × ¬ Memᴰ serve_http (before ++ c ∷ [])
      × (end ≡ (err (complaint c), before ++ c ∷ []))

  IsFine-mem : (c : Call) (cs : List Call) → Memᴰ c cs → All (IsFine fails) cs → IsFine fails c
  IsFine-mem c [] m h = elim m [ ]
  IsFine-mem c (x ∷ cs) (Memᴰ.head e) (h, hs) = subst (IsFine fails) (sym e) h
  IsFine-mem c (x ∷ cs) (Memᴰ.tail m) (h, hs) = IsFine-mem c cs m hs

  module _ (db : DbPath) (no_delivery : Bool) (bind : String) where
    abbrev early : List Call
    early = early_calls db no_delivery bind

    late : (c : Call) → Memᴰ c (late_calls no_delivery bind) → Memᴰ c early
    late c m = Memᴰ.append_right (store_calls db) (Memᴰ.tail m)

    delivers :
        (c : Call)
        → (no_delivery ≡ false → Memᴰ c (delivery_calls false))
        → no_delivery ≡ false
        → Memᴰ c early
    delivers c m on = late c (
        Memᴰ.append_left (bind_listener bind ∷ [])
          (subst (λ b. Memᴰ c (delivery_calls b)) (sym on) (m on)))

    early-IsReady : All (IsFine fails) early → IsReady no_delivery bind early
    early-IsReady h =
        let migrates =
          Memᴰ.append_left (spawn_prune ∷ late_calls no_delivery bind) (migrate-store_calls db) in
        let binds =
          late (bind_listener bind)
            (Memᴰ.append_right (delivery_calls no_delivery) (Memᴰ.head refl)) in
        let starts = delivers start_node (λ _. Memᴰ.head refl) in
        let first =
          delivers (subscribe keypackage_submit_topic) (λ _. Memᴰ.tail (Memᴰ.head refl)) in
        let second =
          delivers (subscribe account_submit_topic) (λ _. Memᴰ.tail (Memᴰ.tail (Memᴰ.head refl))) in
        let thread =
          delivers spawn_ingest (λ _. Memᴰ.tail (Memᴰ.tail (Memᴰ.tail (Memᴰ.head refl)))) in
        record {
          migrated = (migrates, IsFine-mem migrate early migrates h);
          prunes = Memᴰ.append_right (store_calls db) (Memᴰ.head refl);
          node = λ on. (starts on, IsFine-mem start_node early (starts on) h);
          keypackages = λ on. (first on, IsFine-mem _ early (first on) h);
          accounts = λ on. (second on, IsFine-mem _ early (second on) h);
          ingests = λ on. (thread on, IsFine-mem spawn_ingest early (thread on) h);
          bound = (binds, IsFine-mem _ early binds h);
        }

  -- All calls of a list are made, or those up to one that fails.
  abbrev Completes : List Call → List Call → End fails → Type 0
  Completes planned made end = All (IsFine fails) planned × (end ≡ served fails (made ++ planned))

  abbrev Breaks : List Call → List Call → End fails → Type 0
  Breaks planned made end =
      (before : List Call) × (c : Call) × (after : List Call) × (planned ≡ before ++ c ∷ after)
      × All (IsFine fails) before
      × (bad fails c ≡ true)
      × (end ≡ (err (complaint c), made ++ (before ++ c ∷ [])))

  follow_lem :
      (planned : List Call) (made : List Call)
      → Completes planned made (follow fails planned made)
        ⊎ Breaks planned made (follow fails planned made)
  follow_lem [] made = inl (tt, ap (served fails) (sym (append-nil made)))
  follow_lem (c ∷ rest) made = elim (Bool-cases (bad fails c)) [
    | inl wrong ↦ inr ([], c, rest, refl, tt, wrong, rw wrong refl)
    | inr fine ↦ elim (follow_lem rest (made ++ c ∷ [])) [
      | inl (good, e) ↦
          inl ((fine, good), rw (fine, e) (ap (served fails) (append_assoc made (c ∷ []) rest)))
      | inr (before, d, after, split, good, wrong, e) ↦ inr (
        c ∷ before,
        d,
        after,
        ap (λ r. c ∷ r) split,
        (fine, good),
        wrong,
        rw (fine, e)
            (ap (λ m. (err (complaint d), m)) (append_assoc made (c ∷ []) (before ++ d ∷ []))),
      )
    ]
  ]

  Breaks-Stops :
      (db : DbPath) (no_delivery : Bool) (bind : String) (end : End fails)
      → Breaks (early_calls db no_delivery bind) [] end
      → Stops end
  Breaks-Stops db no_delivery bind end (before, c, after, split, good, wrong, e) = (
    before,
    c,
    good,
    fails-of fails c wrong,
    λ m. not-serve (early_calls db no_delivery bind) (early_calls-IsEarly db no_delivery bind) (
        subst (Memᴰ serve_http) (append_assoc before (c ∷ []) after ∙ sym split)
          (Memᴰ.append_left after m)),
    e,
  )

  -- Whichever calls fail, a start-up ends in one of two ways. Either requests are served, as the
  -- last thing, once the migrations have run, the prune task is spawned, the listener is bound at
  -- the address of the options, and, unless the delivery is off, the node is started, is subscribed
  -- to both topics and has its ingest thread; then only the serving may still fail. Or nothing is
  -- served: the first call that fails is the last that is made, and the error has the texts that
  -- belong to that call.
  pub start_up-Serves :
      (db : DbPath) (no_delivery : Bool) (bind : String)
      → Serves no_delivery bind (start_up fails db no_delivery bind [])
        ⊎ Stops (start_up fails db no_delivery bind [])
  start_up-Serves db no_delivery bind =
      let planned = early_calls db no_delivery bind in
      rw (start_up-follow fails db no_delivery bind []) (elim (follow_lem planned []) [
        | inl (good, e) ↦ inl (planned, early-IsReady db no_delivery bind good, e)
        | inr broken ↦ inr (Breaks-Stops db no_delivery bind _ broken)
      ])

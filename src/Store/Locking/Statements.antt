-- ===== src/Store/Locking/Statements.antt =====
-- A program that no other writer interrupts: what it replies, what it leaves, and what others can
-- read between its statements.
use chat_store.Common.{
  ℕ, zero, suc, String, ◌≡◌, refl, sym, ap, ◌⊎◌, inl, inr, true, beq, beq_iff, Bool-cases,
  Option-cases,
}
use chat_store.Common.Exec.{Result, Result-cases}
use chat_store.Crates.{Crates}
use chat_store.Rust.{Duration}
use chat_store.Store.Rows.{Store, StoreError, StoredKeyPackageBundle, StoredAccountBundle}
use chat_store.Store.Sql.{Env, begin, fetch, write, write_excess, commit}
use chat_store.Store.KeyPackages.{drop_expired, prune_key_packages}
use chat_store.Store.Accounts.{stored_lamport, is_stale, upsert_account, prune_accounts}
use chat_store.Store.AccountLogs.{is_updated, weigh, put_account_log}
use chat_store.Store.Cases.{insert-cases, stored}
use chat_store.Store.Locking.Programs.{
  Database, Reply, Program, returns, statement, insert_program, upsert_program, delete_expired,
  delete_excess, prune_key_packages_program, prune_accounts_program, put_log_program, Writer,
  inserts, upserts, upserted, logged, done, puts_log, prunes_keypackages, prunes_account_bundles,
  program, perform,
}

beq_refl : (n : ℕ) → beq n n ≡ true
beq_refl n = (beq_iff n n).1 refl

-- The end of a program, given what the operation does.
ends :
    {A : Type 0} (f : Result StoreError A → Reply) (out : Result StoreError A × Store)
    {r : Result StoreError A} {s : Store}
    → out ≡ (r, s)
    → (f r ≡ f out.0) × (s ≡ out.1)
ends f out h = (ap (λ o. f o.0) (sym h), ap (λ o. o.1) (sym h))

module _ (crates : Crates) where
  -- The tables between the two statements of a prune of keypackages.
  abbrev pub IsHalfPruned : Writer crates → Store → Store → Type 0
  IsHalfPruned (prunes_keypackages env max kept) base t =
      t ≡ record base { keypackages = drop_expired env kept base.keypackages }
  IsHalfPruned other base t = ⊥

  -- What others can read while a call runs that found `base`: that, what the call leaves, or what
  -- the first statement of a prune of keypackages leaves.
  abbrev pub IsVisible : Writer crates → Store → Store → Type 0
  IsVisible w base t = (t ≡ base) ⊎ ((t ≡ (perform crates w base).1) ⊎ IsHalfPruned w base t)

  -- After at most so many statements the program of a call replies `reply` and leaves `final`, and
  -- between its statements the committed tables are ones that the call makes visible.
  abbrev pub Follows : Writer crates → Store → Reply × Store → ℕ → Program Reply → Database → Type 0
  Follows w base (reply, final) n (returns r) d = (r ≡ reply) × (d.tables ≡ final)
  Follows w base (reply, final) zero (statement change next) d = ⊥
  Follows w base (reply, final) (suc n) (statement change next) d =
      IsVisible w base d.tables × Follows w base (reply, final) n (next d) (change d)

  module _ (busy : String) (env : Env) (d : Database) where
    insert_program-Follows :
        (id : String) (b : StoredKeyPackageBundle)
        → Follows
            (inserts env id b)
            d.tables
            (perform crates (inserts env id b) d.tables)
            4
            (insert_program env id b)
            d
    unfolding insert_program perform
    insert_program-Follows id b = elim (insert-cases env id b d.tables) [
      | inl (e, refused) ↦ rw refused (inl refl, (refl, refl))
      | inr (free, put) ↦ rw put (inl refl, (refl, refl))
    ]

    prune_accounts_program-Follows :
        (kept : Duration)
        → Follows
            (prunes_account_bundles env kept)
            d.tables
            (perform crates (prunes_account_bundles env kept) d.tables)
            4
            (prune_accounts_program env kept)
            d
    unfolding prune_accounts_program perform prune_accounts
    prune_accounts_program-Follows kept = elim (Option-cases (env.fault write)) [
      | inr (e, failed) ↦ rw failed (inl refl, (refl, refl))
      | inl fine ↦ rw fine (inl refl, (refl, refl))
    ]

    upsert_program-Follows :
        (id : String) (lamport : ℕ) (b : StoredAccountBundle)
        → Follows
            (upserts env id lamport b)
            d.tables
            (perform crates (upserts env id lamport b) d.tables)
            4
            (upsert_program busy env id lamport b)
            d
    unfolding upsert_program perform upsert_account
    upsert_program-Follows id lamport b =
        let out = upsert_account env id lamport b d.tables in
        elim (Option-cases (env.fault begin)) [
          | inr (e, p) ↦ rw p (inl refl, ends upserted out (rw p refl))
          | inl p ↦ elim (Option-cases (env.fault fetch)) [
            | inr (e, q) ↦ rw (p, q) (inl refl, (inl refl, ends upserted out (rw (p, q) refl)))
            | inl q ↦ elim (Bool-cases (is_stale lamport (stored_lamport id d.tables))) [
              | inl old ↦
                  rw (p, q, old) (inl refl, (inl refl, ends upserted out (rw (p, q, old) refl)))
              | inr new ↦ elim (Option-cases (env.fault write)) [
                | inr (e, w) ↦
                    rw (p, q, new, w)
                      (inl refl, (inl refl, (inl refl, ends upserted out (rw (p, q, new, w) refl))))
                | inl w ↦ elim (Option-cases (env.fault commit)) [
                  | inr (e, c) ↦
                      rw (p, q, new, w, beq_refl d.commits, c)
                        (
                          inl refl,
                          (
                            inl refl,
                            (inl refl, (inl refl, ends upserted out (rw (p, q, new, w, c) refl))),
                          ),
                        )
                  | inl c ↦
                      rw (p, q, new, w, beq_refl d.commits, c)
                        (
                          inl refl,
                          (
                            inl refl,
                            (inl refl, (inl refl, ends upserted out (rw (p, q, new, w, c) refl))),
                          ),
                        )
                ]
              ]
            ]
          ]
        ]

    prune_key_packages_program-Follows :
        (max : ℕ) (kept : Duration)
        → Follows
            (prunes_keypackages env max kept)
            d.tables
            (perform crates (prunes_keypackages env max kept) d.tables)
            4
            (prune_key_packages_program env max kept)
            d
    unfolding prune_key_packages_program perform prune_key_packages delete_expired delete_excess
    prune_key_packages_program-Follows max kept =
        let out = prune_key_packages env max kept d.tables in
        elim (Option-cases (env.fault write)) [
          | inr (e, failed) ↦ rw failed (inl refl, ends done out (rw failed refl))
          | inl fine ↦ elim (Option-cases (env.fault write_excess)) [
            | inr (e, failed) ↦
                rw (fine, failed)
                  (inl refl, (inr (inr refl), ends done out (rw (fine, failed) refl)))
            | inl answered ↦
                rw (fine, answered)
                  (inl refl, (inr (inr refl), ends done out (rw (fine, answered) refl)))
          ]
        ]

    put_log_program-Follows :
        (candidate : crates.AccountRecord)
        → Follows
            (puts_log env candidate)
            d.tables
            (perform crates (puts_log env candidate) d.tables)
            4
            (put_log_program crates busy env candidate)
            d
    unfolding put_log_program perform put_account_log
    put_log_program-Follows candidate =
        let out = put_account_log crates env candidate d.tables in
        elim (Option-cases (env.fault begin)) [
          | inr (e, p) ↦ rw p (inl refl, ends logged out (rw p refl))
          | inl p ↦ elim (Option-cases (env.fault fetch)) [
            | inr (e, q) ↦ rw (p, q) (inl refl, (inl refl, ends logged out (rw (p, q) refl)))
            | inl q ↦
                elim (Result-cases
                  (weigh crates candidate (stored crates env candidate d.tables))) [
                    | inr (e, w) ↦
                        rw (p, q, w) (inl refl, (inl refl, ends logged out (rw (p, q, w) refl)))
                    | inl (update, w) ↦ elim (Bool-cases (is_updated update.0)) [
                      | inr unmoved ↦
                          rw (p, q, w, unmoved)
                            (inl refl, (inl refl, ends logged out (rw (p, q, w, unmoved) refl)))
                      | inl newer ↦ elim (Option-cases (env.fault write)) [
                        | inr (e, f) ↦
                            rw (p, q, w, newer, f)
                              (
                                inl refl,
                                (
                                  inl refl,
                                  (inl refl, ends logged out (rw (p, q, w, newer, f) refl)),
                                ),
                              )
                        | inl f ↦ elim (Option-cases (env.fault commit)) [
                          | inr (e, c) ↦
                              rw (p, q, w, newer, f, beq_refl d.commits, c)
                                (
                                  inl refl,
                                  (
                                    inl refl,
                                    (
                                      inl refl,
                                      (inl refl, ends logged out (rw (p, q, w, newer, f, c) refl)),
                                    ),
                                  ),
                                )
                          | inl c ↦
                              rw (p, q, w, newer, f, beq_refl d.commits, c)
                                (
                                  inl refl,
                                  (
                                    inl refl,
                                    (
                                      inl refl,
                                      (inl refl, ends logged out (rw (p, q, w, newer, f, c) refl)),
                                    ),
                                  ),
                                )
                        ]
                      ]
                    ]
                  ]
          ]
        ]

  pub program-Follows :
      (busy : String) (w : Writer crates) (d : Database)
      → Follows w d.tables (perform crates w d.tables) 4 (program crates busy w) d
  unfolding program
  program-Follows busy (inserts env id b) d = insert_program-Follows busy env d id b
  program-Follows busy (upserts env id lamport b) d = upsert_program-Follows busy env d id lamport b
  program-Follows busy (puts_log env candidate) d = put_log_program-Follows busy env d candidate
  program-Follows busy (prunes_keypackages env max kept) d =
      prune_key_packages_program-Follows busy env d max kept
  program-Follows busy (prunes_account_bundles env kept) d =
      prune_accounts_program-Follows busy env d kept

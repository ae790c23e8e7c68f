-- ===== src/Store/Locking/Programs.antt =====
-- The writing operations of src/store.rs, statement by statement. SQLite runs a statement as a whole;
-- a transaction reads the tables as they were at its first read, may write only if nothing was
-- committed since, and shows its changes at its commit.
use chat_store.Common.{ℕ, suc, String, Bool, true, false, not, none, some, beq, if◌then◌else◌}
use chat_store.Common.Exec.{Result, ok, err, ◌>>◌}
use chat_store.Rust.{Duration}
use chat_store.Crates.{Crates, Outcome, updated}
use chat_store.Store.Rows.{Store, StoredKeyPackageBundle, StoredAccountBundle, StoreError, sqlx}
use chat_store.Store.Sql.{
  Env, Db, Statement, begin, fetch, write, write_excess, commit, answer, modify,
}
use chat_store.Store.KeyPackages.{insert, drop_expired, drop_excess, prune_key_packages}
use chat_store.Store.Accounts.{stored_lamport, is_stale, upsert_account, prune_accounts}
use chat_store.Store.AccountLogs.{stored_log, is_updated, weigh, put_account_log}
use chat_store.Store.Cases.{put_account, put_log}

-- The committed tables, and how often something was committed.
pub record Database : Type 0 where
  pub tables : Store
  pub commits : ℕ

-- A statement changes the database, and what follows depends on what it found.
pub data Program (A : Type 0) : Type 0 where
  returns : A → Program A
  statement : (Database → Database) → (Database → Program A) → Program A

abbrev pub keep : Database → Database
keep d = d

abbrev pub publish : Store → Database → Database
publish s d = record { tables = s; commits = suc d.commits }

-- The result of an operation.
pub data Reply : Type 0 where
  done : Result StoreError (Unit {0}) → Reply
  upserted : Result StoreError Bool → Reply
  logged : Result StoreError Outcome → Reply

abbrev pub publish_ok : Result StoreError (Unit {0}) × Store → Database → Database
publish_ok (ok _, s) d = publish s d
publish_ok (err e, s) d = d

-- A statement outside of a transaction commits by itself.
abbrev pub auto : Db (Unit {0}) → (Result StoreError (Unit {0}) → Program Reply) → Program Reply
auto m next = statement (λ d. publish_ok (m d.tables) d) (λ d. next (m d.tables).0)

abbrev pub finish : Result StoreError (Unit {0}) → Program Reply
finish r = returns (done r)

-- A statement of a transaction; if the database fails it, the operation ends.
abbrev pub call :
    Env
    → Statement
    → (StoreError → Reply)
    → (Database → Database)
    → (Database → Program Reply)
    → Program Reply
call env c refuse change next =
    statement (λ d. elim (env.fault c) [ some e ↦ d | none ↦ change d ])
      (λ d. elim (env.fault c) [ some e ↦ returns (refuse (sqlx e)) | none ↦ next d ])

-- The write of a transaction whose first read was of `seen`, and its commit. `busy` is SQLite's
-- error for a transaction that would write over a later commit.
abbrev pub write_back :
    String → Env → (StoreError → Reply) → Database → Store → Reply → Program Reply
write_back busy env refuse seen changed reply = call env write refuse keep λ now.
    if beq now.commits seen.commits
    then call env commit refuse (publish changed) (λ _. returns reply)
    else returns (refuse (sqlx busy))

abbrev pub refuse_upsert : StoreError → Reply
refuse_upsert e = upserted (err e)

abbrev pub refuse_log : StoreError → Reply
refuse_log e = logged (err e)

unfoldable pub insert_program : Env → String → StoredKeyPackageBundle → Program Reply
insert_program env device_id bundle = auto (insert env device_id bundle) finish

unfoldable pub upsert_program : String → Env → String → ℕ → StoredAccountBundle → Program Reply
upsert_program busy env account_pub lamport bundle = call env begin refuse_upsert keep λ _.
    call env fetch refuse_upsert keep λ seen.
      if is_stale lamport (stored_lamport account_pub seen.tables)
      then returns (upserted (ok false))
      else write_back busy env refuse_upsert seen (put_account env account_pub bundle seen.tables)
          (upserted (ok true))

unfoldable pub delete_expired : Env → Duration → Db (Unit {0})
delete_expired env retention = do
  answer env write
  modify (λ s. record s { keypackages = drop_expired env retention s.keypackages })

unfoldable pub delete_excess : Env → ℕ → Db (Unit {0})
delete_excess env max_per_identity = do
  answer env write_excess
  modify (λ s. record s { keypackages = drop_excess max_per_identity s.keypackages })

abbrev pub on_ok : Program Reply → Result StoreError (Unit {0}) → Program Reply
on_ok next (ok _) = next
on_ok next (err e) = finish (err e)

unfoldable pub prune_key_packages_program : Env → ℕ → Duration → Program Reply
prune_key_packages_program env max_per_identity retention =
    auto (delete_expired env retention) (on_ok (auto (delete_excess env max_per_identity) finish))

unfoldable pub prune_accounts_program : Env → Duration → Program Reply
prune_accounts_program env retention = auto (prune_accounts env retention) finish

module _ (crates : Crates) where
  open crates use {AccountRecord, addr_to_string, record_addr}

  -- The rest of `put_account_log` once the logs have been compared.
  abbrev pub keep_log :
      String
      → Env
      → AccountRecord
      → Database
      → Result StoreError (Outcome × AccountRecord)
      → Program Reply
  keep_log busy env candidate seen (err e) = returns (refuse_log e)
  keep_log busy env candidate seen (ok update) =
      if not (is_updated update.0)
      then returns (logged (ok update.0))
      else write_back busy env refuse_log seen (put_log crates env candidate update.1 seen.tables)
          (logged (ok updated))

  unfoldable pub put_log_program : String → Env → AccountRecord → Program Reply
  put_log_program busy env candidate = call env begin refuse_log keep λ _.
      call env fetch refuse_log keep λ seen.
        keep_log busy env candidate seen
          (weigh crates candidate (stored_log (addr_to_string (record_addr candidate)) seen.tables))

  -- A call of an operation that takes the lock.
  pub data Writer : Type 0 where
    inserts : Env → String → StoredKeyPackageBundle → Writer
    upserts : Env → String → ℕ → StoredAccountBundle → Writer
    puts_log : Env → AccountRecord → Writer
    prunes_keypackages : Env → ℕ → Duration → Writer
    prunes_account_bundles : Env → Duration → Writer

  unfoldable pub program : String → Writer → Program Reply
  program busy (inserts env device_id bundle) = insert_program env device_id bundle
  program busy (upserts env account_pub lamport bundle) =
      upsert_program busy env account_pub lamport bundle
  program busy (puts_log env candidate) = put_log_program busy env candidate
  program busy (prunes_keypackages env max_per_identity retention) =
      prune_key_packages_program env max_per_identity retention
  program busy (prunes_account_bundles env retention) = prune_accounts_program env retention

  abbrev as_reply :
      {A : Type 0} → (Result StoreError A → Reply) → Result StoreError A × Store → Reply × Store
  as_reply f (r, s) = (f r, s)

  -- The same call as one step.
  unfoldable pub perform : Writer → Store → Reply × Store
  perform (inserts env device_id bundle) s = as_reply done (insert env device_id bundle s)
  perform (upserts env account_pub lamport bundle) s =
      as_reply upserted (upsert_account env account_pub lamport bundle s)
  perform (puts_log env candidate) s = as_reply logged (put_account_log crates env candidate s)
  perform (prunes_keypackages env max_per_identity retention) s =
      as_reply done (prune_key_packages env max_per_identity retention s)
  perform (prunes_account_bundles env retention) s = as_reply done (prune_accounts env retention s)

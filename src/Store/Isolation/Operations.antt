-- ===== src/Store/Isolation/Operations.antt =====
-- The operations of src/store.rs on one id, on the rows of the owned ids.
use chat_store.Common.{
  ℕ, String, Bool, true, false, not, ◌==◌, ◌≡◌, refl, ap, sym, subst, ◌∙◌, eq_iff, inl, inr, [],
  ◌∷◌, ◌++◌, arith, Option-cases, find, select, select-append, Passes, find-filter, select-filter,
  filter-upsert,
}
use chat_store.Common.Exec.{pure, lift, gets, ◌>>◌}
use chat_store.Crates.{Crates, Outcome, updated}
use chat_store.Store.Rows.{
  KeyPackageRow, AccountBundleRow, AccountLogRow, Store, StoredKeyPackageBundle,
  StoredAccountBundle,
}
use chat_store.Store.Sql.{Env, Db, begin, fetch, write, commit, answer, modify}
use chat_store.Store.KeyPackages.{same_key, insert_row, insert, of_device, latest}
use chat_store.Store.Accounts
use chat_store.Store.Accounts.{stored_lamport, is_stale, stamped, upsert_account, get_account}
use chat_store.Store.AccountLogs
use chat_store.Store.AccountLogs.{stored_log, is_updated, weigh, put_account_log, get_account_log}
use chat_store.Store.Cases.{log_row}
use chat_store.Store.Isolation.{
  only, IsLocal, bind-IsLocal, modify-IsLocal, gets-IsLocal, if-IsLocal,
}

abbrev put_row : AccountBundleRow → Db (Unit {0})
put_row row = modify (λ s. record s { account_bundles = Accounts.upsert_row row s.account_bundles })

-- The rest of `upsert_account` once the lamports have been compared.
abbrev write_account : Env → AccountBundleRow → Db Bool
write_account env row = do answer env write; answer env commit; put_row row; pure true

abbrev put_log_row : AccountLogRow → Db (Unit {0})
put_log_row row =
    modify (λ s. record s { account_logs = AccountLogs.upsert_row row s.account_logs })

-- The rest of `put_account_log` once the logs have been compared.
abbrev write_log : Env → AccountLogRow → Db Outcome
write_log env row = do answer env write; answer env commit; put_log_row row; pure updated

module _ (owned : String → Bool) (id : String) where
  -- A row of the id is owned if the id is.
  owner : (key : String) → (key == id) ≡ true → owned key ≡ owned id
  owner key same = ap owned ((eq_iff key id).0 same)

  module _ (mine : owned id ≡ true) where
    of_device-Passes : Passes (λ r. owned r.device_id) (of_device id)
    of_device-Passes r h = owner r.device_id h ∙ mine

    same_key-Passes :
        (row : KeyPackageRow) → row.device_id ≡ id → Passes (λ r. owned r.device_id) (same_key row)
    same_key-Passes row at r h =
        owner r.device_id (subst (λ d. (r.device_id == d) ≡ true) at (ground (arith, h))) ∙ mine

    pub latest-IsLocal : (env : Env) → IsLocal owned (latest env id)
    unfolding latest only
    latest-IsLocal env =
        bind-IsLocal owned _ (answer env fetch) (λ s. refl)
          (λ _. gets-IsLocal owned _ (λ s.
            rw
              (select-filter (λ r. owned r.device_id) (of_device id) s.keypackages of_device-Passes)
              refl))

    insert_row-IsLocal :
        (env : Env) (row : KeyPackageRow) → row.device_id ≡ id → IsLocal owned (insert_row env row)
    unfolding only insert_row
    insert_row-IsLocal env row at s =
        let passed : owned row.device_id ≡ true = ap owned at ∙ mine in
        let looked =
          find-filter (λ r. owned r.device_id) (same_key row) s.keypackages
            (same_key-Passes row at) in
        let kept : select (λ r. owned r.device_id) (s.keypackages ++ row ∷ [])
            ≡ select (λ r. owned r.device_id) s.keypackages ++ row ∷ [] =
          rw select-append (unfold select in rw passed refl) in
        elim (Option-cases (find (same_key row) s.keypackages)) [
          | inl free ↦ rw (insert_row, looked, free, kept) refl
          | inr (r, taken) ↦ rw (insert_row, looked, taken) refl
        ]

    pub insert-IsLocal :
        (env : Env) (bundle : StoredKeyPackageBundle) → IsLocal owned (insert env id bundle)
    unfolding insert
    insert-IsLocal env bundle =
        bind-IsLocal owned _ (answer env write) (λ s. refl) (λ _. insert_row-IsLocal env _ refl)

    account-Passes : Passes (λ r. owned r.account_pub) (Accounts.of_account id)
    account-Passes r h = owner r.account_pub h ∙ mine

    pub stored_lamport-only : (s : Store) → stored_lamport id (only owned s) ≡ stored_lamport id s
    unfolding only stored_lamport
    stored_lamport-only s =
        rw
          (find-filter (λ r. owned r.account_pub) (Accounts.of_account id) s.account_bundles
            account-Passes)
          refl

    put_account-IsLocal :
        (row : AccountBundleRow) → row.account_pub ≡ id → IsLocal owned (put_row row)
    put_account-IsLocal row at = modify-IsLocal owned _ λ s.
        unfold only in
        rw
          (filter-upsert (λ r. owned r.account_pub) (Accounts.of_account row.account_pub) row
            s.account_bundles
            (subst (λ k. Passes (λ r. owned r.account_pub) (Accounts.of_account k)) (sym at)
              account-Passes)
            (ap owned at ∙ mine))
          refl

    pub upsert_account-IsLocal :
        (env : Env) (lamport : ℕ) (bundle : StoredAccountBundle)
        → IsLocal owned (upsert_account env id lamport bundle)
    unfolding upsert_account
    upsert_account-IsLocal env lamport bundle =
        bind-IsLocal owned _ (answer env begin) (λ s. refl)
          λ _.
            bind-IsLocal owned _ (answer env fetch) (λ s. refl)
              λ _.
                bind-IsLocal owned _ (gets (stored_lamport id))
                  (gets-IsLocal owned (stored_lamport id) stored_lamport-only)
                  λ existing.
                    if-IsLocal owned (is_stale lamport existing) (pure false)
                      (write_account env (stamped env id bundle)) (λ s. refl)
                      (bind-IsLocal owned _ (answer env write) (λ s. refl)
                        λ _.
                          bind-IsLocal owned _ (answer env commit) (λ s. refl)
                            λ _.
                              bind-IsLocal owned (λ _. pure true) (put_row (stamped env id bundle))
                                (put_account-IsLocal (stamped env id bundle) refl) (λ _ s. refl))

    pub get_account-IsLocal : (env : Env) → IsLocal owned (get_account env id)
    unfolding get_account only
    get_account-IsLocal env =
        bind-IsLocal owned _ (answer env fetch) (λ s. refl)
          (λ _. gets-IsLocal owned _ (λ s.
            rw
              (find-filter (λ r. owned r.account_pub) (Accounts.of_account id) s.account_bundles
                account-Passes)
              refl))

module _ (crates : Crates) (owned : String → Bool) where
  open crates use {AccountAddr, AccountRecord, addr_to_string, record_addr}

  log-Passes :
      (id : String)
      → owned id ≡ true
      → Passes (λ r. owned r.account_pub) (AccountLogs.of_account id)
  log-Passes id mine r h = owner owned id r.account_pub h ∙ mine

  stored_log-only :
      (id : String) (s : Store) → owned id ≡ true → stored_log id (only owned s) ≡ stored_log id s
  unfolding only stored_log
  stored_log-only id s mine =
      rw
        (find-filter (λ r. owned r.account_pub) (AccountLogs.of_account id) s.account_logs
          (log-Passes id mine))
        refl

  put_log-IsLocal :
      (row : AccountLogRow) → owned row.account_pub ≡ true → IsLocal owned (put_log_row row)
  put_log-IsLocal row mine = modify-IsLocal owned _ λ s.
      unfold only in
      rw
        (filter-upsert (λ r. owned r.account_pub) (AccountLogs.of_account row.account_pub) row
          s.account_logs (log-Passes row.account_pub mine) mine)
        refl

  pub put_account_log-IsLocal :
      (env : Env) (candidate : AccountRecord)
      → owned (addr_to_string (record_addr candidate)) ≡ true
      → IsLocal owned (put_account_log crates env candidate)
  unfolding put_account_log
  put_account_log-IsLocal env candidate mine =
      let id = addr_to_string (record_addr candidate) in
      bind-IsLocal owned _ (answer env begin) (λ s. refl)
        λ _.
          bind-IsLocal owned _ (answer env fetch) (λ s. refl)
            λ _.
              bind-IsLocal owned _ (gets (stored_log id))
                (gets-IsLocal owned (stored_log id) (λ s. stored_log-only id s mine))
                λ stored.
                  bind-IsLocal owned _ (lift (weigh crates candidate stored)) (λ s. refl)
                    λ update.
                      if-IsLocal owned (not (is_updated update.0)) (pure update.0)
                        (write_log env (log_row crates env candidate update.1)) (λ s. refl)
                        (bind-IsLocal owned _ (answer env write) (λ s. refl)
                          λ _.
                            bind-IsLocal owned _ (answer env commit) (λ s. refl)
                              λ _.
                                bind-IsLocal owned (λ _. pure updated)
                                  (put_log_row (log_row crates env candidate update.1))
                                  (put_log-IsLocal (log_row crates env candidate update.1) mine)
                                  (λ _ s. refl))

  pub get_account_log-IsLocal :
      (env : Env) (addr : AccountAddr)
      → owned (addr_to_string addr) ≡ true
      → IsLocal owned (get_account_log crates env addr)
  unfolding get_account_log
  get_account_log-IsLocal env addr mine =
      bind-IsLocal owned _ (answer env fetch) (λ s. refl)
        (λ _.
          gets-IsLocal owned (stored_log (addr_to_string addr))
            (λ s. stored_log-only (addr_to_string addr) s mine))

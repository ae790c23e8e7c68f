-- ===== src/Store/Isolation/Foreign.antt =====
-- The operations of src/store.rs on an id that is not owned leave the owned rows alone.
use mathlib.Core.List.{append-nil}
use chat_store.Common.{
  ℕ, String, Bool, true, false, ◌==◌, ◌≡◌, refl, ap, ◌∙◌, eq_iff, inl, inr, [], ◌∷◌, select,
  select-append, filter-upsert_foreign,
}
use chat_store.Crates.{Crates}
use chat_store.Store.Rows.{KeyPackageRow, Store, StoredKeyPackageBundle, StoredAccountBundle}
use chat_store.Store.Sql.{Env}
use chat_store.Store.KeyPackages.{insert}
use chat_store.Store.Accounts
use chat_store.Store.Accounts.{stamped, upsert_account}
use chat_store.Store.AccountLogs
use chat_store.Store.AccountLogs.{put_account_log}
use chat_store.Store.Cases.{
  received, add_keypackage, put_account, put_log, log_row, insert-cases, upsert_account-cases,
  put_account_log-cases,
}
use chat_store.Store.Isolation.{only, IsForeign}

module _ (owned : String → Bool) (id : String) (other : owned id ≡ false) where
  not_owner : (key : String) → (key == id) ≡ true → owned key ≡ false
  not_owner key same = ap owned ((eq_iff key id).0 same) ∙ other

  add_keypackage-only :
      (row : KeyPackageRow) (s : Store)
      → row.device_id ≡ id
      → only owned (add_keypackage row s) ≡ only owned s
  unfolding only
  add_keypackage-only row s at =
      let missed : owned row.device_id ≡ false = ap owned at ∙ other in
      let gone : select (λ r. owned r.device_id) (row ∷ []) ≡ [] =
        unfold select in rw missed refl in
      rw (select-append, gone, append-nil) refl

  put_account-only :
      (env : Env) (bundle : StoredAccountBundle) (s : Store)
      → only owned (put_account env id bundle s) ≡ only owned s
  unfolding only
  put_account-only env bundle s =
      rw
        (filter-upsert_foreign (λ r. owned r.account_pub) (Accounts.of_account id)
          (stamped env id bundle) s.account_bundles (λ r h. not_owner r.account_pub h) other)
        refl

  pub insert-IsForeign :
      (env : Env) (bundle : StoredKeyPackageBundle) → IsForeign owned (insert env id bundle)
  insert-IsForeign env bundle s = elim (insert-cases env id bundle s) [
    | inl (e, refused) ↦ ap (λ p. only owned p.1) refused
    | inr (free, done) ↦
        ap (λ p. only owned p.1) done ∙ add_keypackage-only (received env id bundle) s refl
  ]

  pub upsert_account-IsForeign :
      (env : Env) (lamport : ℕ) (bundle : StoredAccountBundle)
      → IsForeign owned (upsert_account env id lamport bundle)
  upsert_account-IsForeign env lamport bundle s =
      elim (upsert_account-cases env id lamport bundle s) [
        | inl (e, refused) ↦ ap (λ p. only owned p.1) refused
        | inr (inl (old, same)) ↦ ap (λ p. only owned p.1) same
        | inr (inr (new, done)) ↦ ap (λ p. only owned p.1) done ∙ put_account-only env bundle s
      ]

module _ (crates : Crates) (owned : String → Bool) (env : Env) (candidate : crates.AccountRecord)
    (other : owned (crates.addr_to_string (crates.record_addr candidate)) ≡ false) where
  put_log-only :
      (rec : crates.AccountRecord) (s : Store)
      → only owned (put_log crates env candidate rec s) ≡ only owned s
  unfolding only
  put_log-only rec s =
      let id = crates.addr_to_string (crates.record_addr candidate) in
      rw
        (filter-upsert_foreign (λ r. owned r.account_pub) (AccountLogs.of_account id)
          (log_row crates env candidate rec) s.account_logs
          (λ r h. not_owner owned id other r.account_pub h) other)
        refl

  pub put_account_log-IsForeign : IsForeign owned (put_account_log crates env candidate)
  put_account_log-IsForeign s = elim (put_account_log-cases crates env candidate s) [
    | inl (e, refused) ↦ ap (λ p. only owned p.1) refused
    | inr (update, w, inl (same, kept)) ↦ ap (λ p. only owned p.1) kept
    | inr (update, w, inr (newer, done)) ↦ ap (λ p. only owned p.1) done ∙ put_log-only update.1 s
  ]

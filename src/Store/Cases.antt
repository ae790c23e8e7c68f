-- ===== src/Store/Cases.antt =====
-- How each writing operation of the store can end: it is refused and changes nothing, or it makes
-- one change. The cases name what the change rests on.
use chat_store.Common.{
  ℕ, String, ◌≡◌, refl, ◌⊎◌, inl, inr, true, false, Option, none, [], ◌∷◌, ◌++◌, arith, Bool-cases,
  Option-cases, find,
}
use chat_store.Common.Exec.{ok, err, Exec, Result-cases}
use chat_store.Rust.{as_i64}
use chat_store.Rust.Bytes.{Bytes}
use chat_store.Crates.{Crates, Outcome, updated}
use chat_store.Store.Rows.{
  KeyPackageRow, AccountLogRow, Store, StoredKeyPackageBundle, StoredAccountBundle, sqlx,
  unique_violation,
}
use chat_store.Store.Sql.{Env, begin, fetch, write, commit, now_ms}
use chat_store.Store.KeyPackages.{same_key, insert}
use chat_store.Store.AccountLogs
use chat_store.Store.AccountLogs.{stored_log, is_updated, weigh, put_account_log}
use chat_store.Store.Accounts.{upsert_row, stored_lamport, is_stale, stamped, upsert_account}

-- `m` ends in an error and leaves the state as it was.
abbrev pub Refuses {ℓ} : {S E A : Type ℓ} → Exec S E A → S → Type ℓ
Refuses {E} m s = (e : E) × (m s ≡ (err e, s))

abbrev pub received : Env → String → StoredKeyPackageBundle → KeyPackageRow
received env device_id bundle = record {
  device_id = device_id;
  received_at = as_i64 (now_ms env.since_epoch);
  payload = bundle.payload;
  signature = bundle.signature;
}

abbrev pub add_keypackage : KeyPackageRow → Store → Store
add_keypackage row s = record s { keypackages = s.keypackages ++ row ∷ [] }

pub insert-cases :
    (env : Env) (device_id : String) (bundle : StoredKeyPackageBundle) (s : Store)
    → let row = received env device_id bundle in
      Refuses (insert env device_id bundle) s
      ⊎ ((find (same_key row) s.keypackages ≡ none)
          × (insert env device_id bundle s ≡ (ok tt, add_keypackage row s)))
unfolding insert
insert-cases env device_id bundle s = elim (Option-cases (env.fault write)) [
  | inr (e, failed) ↦ inl (sqlx e, rw failed refl)
  | inl fine ↦ elim (Option-cases (find (same_key (received env device_id bundle)) s.keypackages)) [
    | inr (r, taken) ↦ inl (unique_violation env.duplicate, ground arith)
    | inl free ↦ inr (free, ground arith)
  ]
]

abbrev pub put_account : Env → String → StoredAccountBundle → Store → Store
put_account env account_pub bundle s = record s {
  account_bundles = upsert_row (stamped env account_pub bundle) s.account_bundles;
}

pub upsert_account-cases :
    (env : Env) (account_pub : String) (lamport : ℕ) (bundle : StoredAccountBundle) (s : Store)
    → Refuses (upsert_account env account_pub lamport bundle) s
      ⊎ ((is_stale lamport (stored_lamport account_pub s) ≡ true)
          × (upsert_account env account_pub lamport bundle s ≡ (ok false, s)))
      ⊎ ((is_stale lamport (stored_lamport account_pub s) ≡ false)
          × (upsert_account env account_pub lamport bundle s
              ≡ (ok true, put_account env account_pub bundle s)))
unfolding upsert_account
upsert_account-cases env account_pub lamport bundle s = elim (Option-cases (env.fault begin)) [
  | inr (e, p) ↦ inl (sqlx e, rw p refl)
  | inl p ↦ elim (Option-cases (env.fault fetch)) [
    | inr (e, q) ↦ inl (sqlx e, rw (p, q) refl)
    | inl q ↦ elim (Bool-cases (is_stale lamport (stored_lamport account_pub s))) [
      | inl old ↦ inr (inl (old, rw (p, q, old) refl))
      | inr new ↦ elim (Option-cases (env.fault write)) [
        | inr (e, w) ↦ inl (sqlx e, rw (p, q, new, w) refl)
        | inl w ↦ elim (Option-cases (env.fault commit)) [
          | inr (e, c) ↦ inl (sqlx e, rw (p, q, new, w, c) refl)
          | inl c ↦ inr (inr (new, rw (p, q, new, w, c) refl))
        ]
      ]
    ]
  ]
]

module _ (crates : Crates) where
  open crates use {AccountRecord, addr_to_string, record_addr, log_to_bytes, record_signed_log}

  abbrev pub log_row : Env → AccountRecord → AccountRecord → AccountLogRow
  log_row env candidate rec = record {
    account_pub = addr_to_string (record_addr candidate);
    updated_at = as_i64 (now_ms env.since_epoch);
    signed_log = log_to_bytes (record_signed_log rec);
  }

  abbrev pub put_log : Env → AccountRecord → AccountRecord → Store → Store
  put_log env candidate rec s = record s {
    account_logs = AccountLogs.upsert_row (log_row env candidate rec) s.account_logs;
  }

module _ (crates : Crates) (env : Env) (candidate : crates.AccountRecord) (s : Store) where
  abbrev pub stored : Option Bytes
  stored = stored_log (crates.addr_to_string (crates.record_addr candidate)) s

  abbrev pub Weighed : Type 0
  Weighed =
      (update : Outcome × crates.AccountRecord) × (weigh crates candidate stored ≡ ok update)
      × (((is_updated update.0 ≡ false)
            × (put_account_log crates env candidate s ≡ (ok update.0, s)))
          ⊎ ((is_updated update.0 ≡ true)
              × (put_account_log crates env candidate s
                  ≡ (ok updated, put_log crates env candidate update.1 s))))

  pub put_account_log-cases : Refuses (put_account_log crates env candidate) s ⊎ Weighed
  unfolding put_account_log
  put_account_log-cases = elim (Option-cases (env.fault begin)) [
    | inr (e, p) ↦ inl (sqlx e, rw p refl)
    | inl p ↦ elim (Option-cases (env.fault fetch)) [
      | inr (e, q) ↦ inl (sqlx e, rw (p, q) refl)
      | inl q ↦ elim (Result-cases (weigh crates candidate stored)) [
        | inr (e, w) ↦ inl (e, rw (p, q, w) refl)
        | inl (update, w) ↦ elim (Bool-cases (is_updated update.0)) [
          | inr same ↦ inr (update, w, inl (same, rw (p, q, w, same) refl))
          | inl newer ↦ elim (Option-cases (env.fault write)) [
            | inr (e, f) ↦ inl (sqlx e, rw (p, q, w, newer, f) refl)
            | inl f ↦ elim (Option-cases (env.fault commit)) [
              | inr (e, c) ↦ inl (sqlx e, rw (p, q, w, newer, f, c) refl)
              | inl c ↦ inr (update, w, inr (newer, rw (p, q, w, newer, f, c) refl))
            ]
          ]
        ]
      ]
    ]
  ]

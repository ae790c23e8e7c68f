-- ===== src/Store/KeyPackages.antt =====
-- The keypackage operations of src/store.rs: `insert`, `latest`, `prune_key_packages`.
pub mod Latest
pub mod Duplicates
pub mod Pruning
use mathlib.Core.Option
use chat_store.Common.{
  ℕ, suc, String, Bool, true, false, not, ◌&&◌, Option, none, some, List, [], ◌∷◌, ◌++◌, ◌==◌,
  if◌then◌else◌, select, count, find,
}
use chat_store.Common.Int.{pos, lt_ℤ, eq_ℤ}
use chat_store.Common.Exec.{ok, err, pure, gets, ◌>>=◌, ◌>>◌}
use chat_store.Rust.{Duration, as_i64}
use chat_store.Store.Rows.{KeyPackageRow, Store, StoredKeyPackageBundle, unique_violation}
use chat_store.Store.Sql.{
  Env, Db, write, write_excess, fetch, now_ms, answer, modify, retention_cutoff,
}

-- PRIMARY KEY (device_id, received_at)
abbrev pub same_key : KeyPackageRow → KeyPackageRow → Bool
same_key row r = r.device_id == row.device_id && eq_ℤ r.received_at row.received_at

-- INSERT INTO keypackages: a taken primary key is an error of the statement.
unfoldable pub insert_row : Env → KeyPackageRow → Db (Unit {0})
insert_row env row s = elim (find (same_key row) s.keypackages) [
  | none ↦ (ok tt, record s { keypackages = s.keypackages ++ row ∷ [] })
  | some _ ↦ (err (unique_violation env.duplicate), s)
]

unfoldable pub insert : Env → String → StoredKeyPackageBundle → Db (Unit {0})
unfolding insert_row
insert env device_id bundle = do
  answer env write
  insert_row env (record {
    device_id = device_id;
    received_at = as_i64 (now_ms env.since_epoch);
    payload = bundle.payload;
    signature = bundle.signature;
  })

-- ORDER BY received_at DESC LIMIT 1
unfoldable pub newest : List KeyPackageRow → Option KeyPackageRow
newest [] = none
newest (r ∷ rows) = elim (newest rows) [
  | none ↦ some r
  | some q ↦ if lt_ℤ r.received_at q.received_at then some q else some r
]

abbrev pub of_device : String → KeyPackageRow → Bool
of_device device_id r = r.device_id == device_id

abbrev pub to_bundle : KeyPackageRow → StoredKeyPackageBundle
to_bundle r = record { payload = r.payload; signature = r.signature }

unfoldable pub latest : Env → String → Db (Option StoredKeyPackageBundle)
latest env device_id = do
  answer env fetch
  gets (λ s. Option.map to_bundle (newest (select (of_device device_id) s.keypackages)))

-- A row of the same device that was received later.
abbrev pub is_newer : KeyPackageRow → KeyPackageRow → Bool
is_newer r q = q.device_id == r.device_id && lt_ℤ r.received_at q.received_at

-- ROW_NUMBER() OVER (PARTITION BY device_id ORDER BY received_at DESC)
unfoldable pub row_number : List KeyPackageRow → KeyPackageRow → ℕ
row_number rows r = suc (count (is_newer r) rows)

-- What `DELETE … WHERE received_at < cutoff` leaves.
abbrev pub recent : Env → Duration → KeyPackageRow → Bool
recent env retention r = not (lt_ℤ r.received_at (retention_cutoff env retention))

unfoldable pub drop_expired : Env → Duration → List KeyPackageRow → List KeyPackageRow
drop_expired env retention = select (recent env retention)

-- What `DELETE … WHERE rn > max` leaves.
abbrev pub few : ℕ → List KeyPackageRow → KeyPackageRow → Bool
few max_per_identity rows r = not (lt_ℤ (as_i64 max_per_identity) (pos (row_number rows r)))

unfoldable pub drop_excess : ℕ → List KeyPackageRow → List KeyPackageRow
drop_excess max_per_identity rows = select (few max_per_identity rows) rows

-- Two statements with no transaction: the first stays if the second fails.
unfoldable pub prune_key_packages : Env → ℕ → Duration → Db (Unit {0})
prune_key_packages env max_per_identity retention = do
  answer env write
  modify (λ s. record s { keypackages = drop_expired env retention s.keypackages })
  answer env write_excess
  modify (λ s. record s { keypackages = drop_excess max_per_identity s.keypackages })

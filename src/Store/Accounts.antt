-- ===== src/Store/Accounts.antt =====
-- The account bundle operations of src/store.rs: `upsert_account`, `get_account`,
-- `prune_accounts`.
pub mod Reading
pub mod Expiry
use mathlib.Core.Option
use chat_store.Common.{
  ℕ, String, Bool, true, false, not, Option, none, some, List, ◌==◌, leb, if◌then◌else◌, select,
  find, upsert,
}
use chat_store.Common.Int.{lt_ℤ}
use chat_store.Common.Exec.{ok, pure, gets, ◌>>=◌, ◌>>◌}
use chat_store.Rust.{Duration, as_i64}
use chat_store.Store.Rows.{AccountBundleRow, Store, StoredAccountBundle}
use chat_store.Store.Sql.{
  Env, Db, begin, fetch, write, commit, now_ms, answer, modify, retention_cutoff,
}
use chat_store.Store.Lamport.{payload_lamport}

abbrev pub of_account : String → AccountBundleRow → Bool
of_account account_pub r = r.account_pub == account_pub

-- INSERT … ON CONFLICT(account_pub) DO UPDATE
abbrev pub upsert_row : AccountBundleRow → List AccountBundleRow → List AccountBundleRow
upsert_row row = upsert (of_account row.account_pub) row

unfoldable pub stored_lamport : String → Store → Option ℕ
unfolding Option.bind
stored_lamport account_pub s =
    Option.bind (find (of_account account_pub) s.account_bundles) (λ r. payload_lamport r.payload)

-- `existing_lamport` is known, and `lamport <= stored`.
abbrev pub is_stale : ℕ → Option ℕ → Bool
is_stale lamport none = false
is_stale lamport (some stored) = leb lamport stored

abbrev pub stamped : Env → String → StoredAccountBundle → AccountBundleRow
stamped env account_pub bundle = record {
  account_pub = account_pub;
  updated_at = as_i64 (now_ms env.since_epoch);
  payload = bundle.payload;
  signature = bundle.signature;
}

unfoldable pub upsert_account : Env → String → ℕ → StoredAccountBundle → Db Bool
upsert_account env account_pub lamport bundle = do
  answer env begin
  answer env fetch
  existing ← gets (stored_lamport account_pub)
  if is_stale lamport existing then pure false else do
    answer env write
    answer env commit
    modify (λ s. record s {
      account_bundles = upsert_row (stamped env account_pub bundle) s.account_bundles;
    })
    pure true

abbrev pub to_bundle : AccountBundleRow → StoredAccountBundle
to_bundle r = record { payload = r.payload; signature = r.signature; updated_at = r.updated_at }

unfoldable pub get_account : Env → String → Db (Option StoredAccountBundle)
get_account env account_pub = do
  answer env fetch
  gets (λ s. Option.map to_bundle (find (of_account account_pub) s.account_bundles))

-- What `DELETE … WHERE updated_at < cutoff` leaves.
abbrev pub refreshed : Env → Duration → AccountBundleRow → Bool
refreshed env retention r = not (lt_ℤ r.updated_at (retention_cutoff env retention))

unfoldable pub prune_accounts : Env → Duration → Db (Unit {0})
prune_accounts env retention = do
  answer env write
  modify (λ s. record s { account_bundles = select (refreshed env retention) s.account_bundles })

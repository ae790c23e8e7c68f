-- ===== src/Store/Accounts/Expiry.antt =====
-- What `prune_accounts` forgets: with the bundle goes the lamport that an older bundle was refused
-- by.
use mathlib.Core.Option
use chat_store.Common.{ℕ, String, ◌≡◌, refl, true, none, List, arith, find, select, [], ◌∷◌, All}
use chat_store.Common.Int.{lt_ℤ}
use chat_store.Common.Exec.{ok}
use chat_store.Rust.{Duration}
use chat_store.Store.Rows.{AccountBundleRow, Store, StoredAccountBundle}
use chat_store.Store.Sql.{Env, Statement, begin, fetch, write, commit, retention_cutoff}
use chat_store.Store.Accounts.{
  of_account, refreshed, stored_lamport, prune_accounts, upsert_account,
}
use chat_store.Store.Cases.{put_account}

find-expired :
    (env : Env) (kept : Duration) (id : String) (rows : List AccountBundleRow)
    → All (λ r. of_account id r ≡ true → lt_ℤ r.updated_at (retention_cutoff env kept) ≡ true) rows
    → find (of_account id) (select (refreshed env kept) rows) ≡ none
unfolding find select
find-expired env kept id [] h = refl
find-expired env kept id (x ∷ rows) (h, hs) = ground (arith, find-expired env kept id rows)

stored_lamport-expired :
    (env : Env) (kept : Duration) (id : String) (s t : Store)
    → All
        (λ r. of_account id r ≡ true → lt_ℤ r.updated_at (retention_cutoff env kept) ≡ true)
        s.account_bundles
    → prune_accounts env kept s ≡ (ok tt, t)
    → stored_lamport id t ≡ none
unfolding prune_accounts stored_lamport Option.bind
stored_lamport-expired env kept id s t expired pruned =
    let left : t.account_bundles ≡ select (refreshed env kept) s.account_bundles = ground arith in
    rw (left, find-expired env kept id s.account_bundles expired) refl

-- Where a prune has dropped the bundle of an account as not refreshed since the cutoff, a database
-- that answers every statement accepts any version for that account, also one below the version
-- that was on file.
pub upsert_account-after_prune :
    (env env' : Env) (kept : Duration) (id : String) (lamport : ℕ) (bundle : StoredAccountBundle)
    (s t : Store)
    → All
        (λ r. of_account id r ≡ true → lt_ℤ r.updated_at (retention_cutoff env kept) ≡ true)
        s.account_bundles
    → prune_accounts env kept s ≡ (ok tt, t)
    → ((c : Statement) → env'.fault c ≡ none)
    → upsert_account env' id lamport bundle t ≡ (ok true, put_account env' id bundle t)
upsert_account-after_prune env env' kept id lamport bundle s t expired pruned fine =
    let forgotten = stored_lamport-expired env kept id s t expired pruned in
    unfold upsert_account in rw (fine begin, fine fetch, forgotten, fine write, fine commit) refl

-- ===== src/Tests/Stores.antt =====
-- The theorems about the store, at concrete inputs.
use chat_store.Common.{ℕ, ◌<◌, ◌≡◌, refl, All, true, some, [], ◌∷◌, ◌++◌, arith, replicate}
use chat_store.Common.Int.{pos, lt_ℤ}
use chat_store.Common.Exec.{ok, err}
use chat_store.Rust.{from_secs}
use chat_store.Rust.Bytes.{Bytes, IsBytes}
use chat_store.Store.{
  Store, empty, StoredKeyPackageBundle, StoredAccountBundle, retention_cutoff, unique_violation,
}
use chat_store.Store.Lamport.{bundle_domain, payload_lamport}
use chat_store.Store.Lamport.Layout.{header, payload_lamport-header, payload_lamport-eq-some}
use chat_store.Store.KeyPackages.{insert, latest}
use chat_store.Store.KeyPackages.Duplicates.{insert-duplicate}
use chat_store.Store.Accounts
use chat_store.Store.Accounts.{stamped, upsert_account, get_account, prune_accounts}
use chat_store.Store.Accounts.Expiry.{upsert_account-after_prune}
use chat_store.Store.Cases.{put_account}
use chat_store.Tests.Fixtures.{at, payload_at}
use chat_store.Tests.Traffic.{executable}

payload_lamport-header_example : payload_lamport (bundle_domain ++ header 1 258 (5 ∷ [])) ≡ some 258
payload_lamport-header_example = payload_lamport-header 1 258 (5 ∷ []) (omega arith)

payload_7 : payload_lamport (payload_at 7) ≡ some 7
unfolding executable
payload_7 = refl

IsBytes-payload_7 : IsBytes (payload_at 7)
unfolding executable
IsBytes-payload_7 = ground arith

payload_lamport-eq-some_example :
    (version : ℕ) × (rest : Bytes) × (payload_at 7 ≡ bundle_domain ++ header version 7 rest)
    × (7 < 18446744073709551616)
payload_lamport-eq-some_example =
    payload_lamport-eq-some (payload_at 7) 7 IsBytes-payload_7 payload_7

abbrev bundle_of : ℕ → StoredKeyPackageBundle
bundle_of n = record { payload = n ∷ []; signature = replicate 64 n }

abbrev one_row : Store
one_row = (insert (at 10) "alice" (bundle_of 1) empty).1

abbrev two_rows : Store
two_rows = (insert (at 11) "alice" (bundle_of 2) one_row).1

fetched : (latest (at 12) "alice" two_rows).0 ≡ ok (some (bundle_of 2))
unfolding executable
fetched = refl

inserted : insert (at 11) "alice" (bundle_of 2) one_row ≡ (ok tt, two_rows)
unfolding executable
inserted = refl

insert-duplicate_example :
    insert (at 11) "alice" (bundle_of 3) two_rows
    ≡ (err (unique_violation "UNIQUE constraint failed"), two_rows)
insert-duplicate_example =
    insert-duplicate (at 11) (at 11) "alice" (bundle_of 2) (bundle_of 3) one_row two_rows inserted
      refl refl

abbrev version : ℕ → StoredAccountBundle
version n = record { payload = payload_at n; signature = replicate 64 1; updated_at = pos 0 }

abbrev with_account : Store
with_account = (upsert_account (at 10) "alice" 5 (version 5) empty).1

upserted : upsert_account (at 10) "alice" 5 (version 5) empty ≡ (ok true, with_account)
unfolding executable
upserted = refl

abbrev forgotten : Store
forgotten = (prune_accounts (at 100) (from_secs 50) with_account).1

expired :
    All
      (λ r.
        Accounts.of_account "alice" r ≡ true
        → lt_ℤ r.updated_at (retention_cutoff (at 100) (from_secs 50)) ≡ true)
      with_account.account_bundles
unfolding executable
expired = ground arith

dropped : prune_accounts (at 100) (from_secs 50) with_account ≡ (ok tt, forgotten)
unfolding executable
dropped = refl

-- Version 2 is accepted after version 5.
upsert_account-after_prune_example :
    upsert_account (at 101) "alice" 2 (version 2) forgotten
    ≡ (ok true, put_account (at 101) "alice" (version 2) forgotten)
upsert_account-after_prune_example =
    upsert_account-after_prune (at 100) (at 101) (from_secs 50) "alice" 2 (version 2) with_account
      forgotten expired dropped (λ c. refl)

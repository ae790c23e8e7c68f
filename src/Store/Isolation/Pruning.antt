-- ===== src/Store/Isolation/Pruning.antt =====
-- The prunings go row by row, and count the rows of one device only: they do to the owned rows what
-- they do to all.
use chat_store.Common.{
  ℕ, String, Bool, true, ◌≡◌, refl, ap, sym, ◌∙◌, eq_iff, List, arith, select, Passes, count-filter,
  select_comm, select-agree,
}
use chat_store.Rust.{Duration}
use chat_store.Store.Rows.{KeyPackageRow, Store}
use chat_store.Store.Sql.{Env, write, write_excess, answer, modify}
use chat_store.Store.KeyPackages.{
  is_newer, row_number, recent, drop_expired, few, drop_excess, prune_key_packages,
}
use chat_store.Store.Accounts.{refreshed, prune_accounts}
use chat_store.Store.Isolation.{only, IsLocal, bind-IsLocal, modify-IsLocal}

-- What the three statements leave.
abbrev expired : Env → Duration → Store → Store
expired env kept s = record s { keypackages = drop_expired env kept s.keypackages }

abbrev limited : ℕ → Store → Store
limited max_per_identity s = record s { keypackages = drop_excess max_per_identity s.keypackages }

abbrev refreshed_only : Env → Duration → Store → Store
refreshed_only env kept s = record s {
  account_bundles = select (refreshed env kept) s.account_bundles;
}

module _ (owned : String → Bool) where
  abbrev keypackage_owned : KeyPackageRow → Bool
  keypackage_owned r = owned r.device_id

  is_newer-Passes :
      (r : KeyPackageRow) → owned r.device_id ≡ true → Passes keypackage_owned (is_newer r)
  is_newer-Passes r mine q h =
      ap owned ((eq_iff q.device_id r.device_id).0 (ground (arith, h))) ∙ mine

  few-owned :
      (max_per_identity : ℕ) (rows : List KeyPackageRow) (r : KeyPackageRow)
      → owned r.device_id ≡ true
      → few max_per_identity rows r ≡ few max_per_identity (select keypackage_owned rows) r
  unfolding row_number
  few-owned max_per_identity rows r mine =
      rw (count-filter keypackage_owned (is_newer r) rows (is_newer-Passes r mine)) refl

  drop_excess-only :
      (max_per_identity : ℕ) (rows : List KeyPackageRow)
      → drop_excess max_per_identity (select keypackage_owned rows)
        ≡ select keypackage_owned (drop_excess max_per_identity rows)
  unfolding drop_excess
  drop_excess-only max_per_identity rows = sym (
      select_comm keypackage_owned (few max_per_identity rows) rows
      ∙ select-agree keypackage_owned (few max_per_identity rows)
          (few max_per_identity (select keypackage_owned rows)) rows
          (few-owned max_per_identity rows))

  pub prune_key_packages-IsLocal :
      (env : Env) (max_per_identity : ℕ) (kept : Duration)
      → IsLocal owned (prune_key_packages env max_per_identity kept)
  unfolding prune_key_packages
  prune_key_packages-IsLocal env max_per_identity kept =
      bind-IsLocal owned _ (answer env write) (λ s. refl)
        λ _.
          bind-IsLocal owned _ (modify (expired env kept))
            (modify-IsLocal owned (expired env kept) (λ s.
              unfold only drop_expired in
              rw (select_comm keypackage_owned (recent env kept) s.keypackages) refl))
            λ _.
              bind-IsLocal owned _ (answer env write_excess) (λ s. refl)
                λ _.
                  modify-IsLocal owned (limited max_per_identity)
                    (λ s. unfold only in rw (drop_excess-only max_per_identity s.keypackages) refl)

  pub prune_accounts-IsLocal :
      (env : Env) (kept : Duration) → IsLocal owned (prune_accounts env kept)
  unfolding prune_accounts
  prune_accounts-IsLocal env kept =
      bind-IsLocal owned _ (answer env write) (λ s. refl)
        λ _. modify-IsLocal owned (refreshed_only env kept) (λ s.
          unfold only in
          rw (select_comm (λ r. owned r.account_pub) (refreshed env kept) s.account_bundles) refl)

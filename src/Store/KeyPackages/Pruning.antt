-- ===== src/Store/KeyPackages/Pruning.antt =====
-- What `prune_key_packages` leaves: a bounded history of the newest rows of each device.
mod Counting
use native.Mathlib.Nat.{le_trans}
use mathlib.Core.List.{Memᴰ}
use mathlib.Core.List.Memᴰ
use chat_store.Common.{
  ℕ, suc, ◌+◌, ◌≤◌, ◌<◌, ◌^◌, String, ◌≡◌, refl, sym, ap, subst, ◌∙◌, ◌⊎◌, inl, inr, ◌==◌, eq_iff,
  eq_refl, Bool, true, false, not, ◌&&◌, none, List, [], ◌∷◌, arith, All, All-mem, All-imp, All-zip,
  count-eq-zero, count-le_of_All, Bool-cases, select, select-none, count, count_mono,
  count-select-le, mem-of-select, mem-select, Distinct, Distinct-select,
}
use chat_store.Common.Int.{
  lt_ℤ, eq_ℤ, lt_ℤ-irrefl, lt_ℤ-asymm, lt_ℤ-trans, not-lt_ℤ-of_lt, not-lt_ℤ-after,
}
use chat_store.Common.Exec.{ok}
use chat_store.Rust.{Duration, as_i64}
use chat_store.Store.KeyPackages.Pruning.Counting.{
  few-le, few-of-le, row_number_mono, count-drop_excess, few_overflow, row_number-le_count,
}
use chat_store.Store.Rows.{KeyPackageRow, Store}
use chat_store.Store.Sql.{Env, write, write_excess, retention_cutoff}
use chat_store.Store.KeyPackages.{
  same_key, of_device, is_newer, row_number, recent, few, drop_expired, drop_excess,
  prune_key_packages,
}

module _ (env : Env) (max_per_identity : ℕ) (kept : Duration) (s t : Store)
    (pruned : prune_key_packages env max_per_identity kept s ≡ (ok tt, t)) where
  -- The two statements, where both were answered.
  prune-state : t.keypackages ≡ drop_excess max_per_identity (drop_expired env kept s.keypackages)
  unfolding prune_key_packages
  prune-state = ground arith

  -- A successful prune, with a limit that an `i64` holds, leaves every device at most that many
  -- rows, where the primary keys were distinct.
  pub prune-bounded :
      max_per_identity < 2 ^ 63
      → Distinct same_key s.keypackages
      → (id : String) → count (of_device id) t.keypackages ≤ max_per_identity
  unfolding drop_expired
  prune-bounded small distinct id = rw prune-state (
      count-drop_excess max_per_identity id _ small
        (Distinct-select same_key (recent env kept) s.keypackages distinct))

  -- What such a prune leaves was there, and was not received before the retention cutoff.
  prune-recent :
      (r : KeyPackageRow)
      → Memᴰ r t.keypackages
      → Memᴰ r s.keypackages × (lt_ℤ r.received_at (retention_cutoff env kept) ≡ false)
  unfolding drop_expired drop_excess
  prune-recent r m =
      let young_rows = select (recent env kept) s.keypackages in
      let (here, low) =
        mem-of-select (few max_per_identity young_rows) young_rows
          (subst (λ rows. Memᴰ r rows) prune-state m) in
      let (listed, young) = mem-of-select (recent env kept) s.keypackages here in
      (listed, ground arith)

  -- With each row that such a prune leaves, it leaves every later row of the same device.
  pub prune-newest_first :
      max_per_identity < 2 ^ 63
      → (r q : KeyPackageRow) → Memᴰ r t.keypackages
      → Memᴰ q s.keypackages
      → q.device_id ≡ r.device_id
      → lt_ℤ r.received_at q.received_at ≡ true
      → Memᴰ q t.keypackages
  unfolding drop_expired drop_excess
  prune-newest_first small r q m there same later =
      let young_rows = select (recent env kept) s.keypackages in
      let (_, low) =
        mem-of-select (few max_per_identity young_rows) young_rows
          (subst (λ rows. Memᴰ r rows) prune-state m) in
      let young : lt_ℤ q.received_at (retention_cutoff env kept) ≡ false =
        not-lt_ℤ-after _ r.received_at _ later (prune-recent r m).1 in
      rw prune-state (
        mem-select (few max_per_identity young_rows) young_rows
          (mem-select (recent env kept) s.keypackages there (rw young refl))
          (few-of-le max_per_identity young_rows q small (
            le_trans (row_number_mono young_rows r q same later)
              (few-le max_per_identity young_rows r small low))))

  -- A row that is not older than the cutoff goes only where its device has more such rows than the
  -- limit.
  prune-keeps :
      max_per_identity < 2 ^ 63
      → (r : KeyPackageRow) → Memᴰ r s.keypackages
      → lt_ℤ r.received_at (retention_cutoff env kept) ≡ false
      → count (of_device r.device_id) (drop_expired env kept s.keypackages) ≤ max_per_identity
      → Memᴰ r t.keypackages
  unfolding drop_expired drop_excess
  prune-keeps small r m young room =
      let here = mem-select (recent env kept) s.keypackages m (rw young refl) in
      let numbered = row_number-le_count r _ here in
      rw prune-state (
        mem-select (few max_per_identity (select (recent env kept) s.keypackages)) _ here
          (few-of-le max_per_identity _ r small (omega arith)))

  -- A limit that an `i64` does not hold is read as a negative number: a successful prune then
  -- drops every keypackage of every device.
  pub prune_overflow : 2 ^ 63 ≤ max_per_identity → max_per_identity < 2 ^ 64 → t.keypackages ≡ []
  unfolding drop_excess
  prune_overflow large word =
      prune-state ∙ select-none _ _ (λ r. few_overflow max_per_identity _ r large word)

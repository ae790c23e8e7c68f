-- ===== src/Store/Weighing.antt =====
-- What `put_account_log` stores when the crate's verdict is `Updated`.
use chat_store.Common.{◌≡◌, refl, inl, inr, Option, none, some, true}
use chat_store.Common.Exec.{ok, Result-cases}
use chat_store.Rust.Bytes.{Bytes}
use chat_store.Crates.{Crates, Outcome, updated}
use chat_store.Crates.Laws.{AccountLogLaws}
use chat_store.Store.AccountLogs.{is_updated, weigh}

pub is_updated-eq : (o : Outcome) → is_updated o ≡ true → o ≡ updated
is_updated-eq updated h = refl
is_updated-eq other h = cc

module _ (crates : Crates) (laws : AccountLogLaws crates) where
  open crates use {
    AccountRecord, log_from_bytes, log_to_bytes, record_new, record_addr, record_signed_log,
    record_update,
  }

  -- The stored log that the candidate was weighed against, as a record of the candidate's address.
  pub weigh-some :
      (candidate rec : AccountRecord) (old : Bytes)
      → weigh crates candidate (some old) ≡ ok (updated, rec)
      → (log : _) × (current : AccountRecord) × (log_from_bytes old ≡ ok log)
        × (record_new (record_addr candidate) log ≡ ok current)
        × (record_update current (record_signed_log candidate) ≡ (updated, rec))
  unfolding weigh
  weigh-some candidate rec old h = elim (Result-cases (log_from_bytes old)) [
    | inr (e, bad) ↦ cc (rw bad at h)
    | inl (log, good) ↦ elim (Result-cases (record_new (record_addr candidate) log)) [
      | inr (e, bad) ↦ cc (rw (good, bad) at h)
      | inl (current, made) ↦ (log, current, good, made, cc (rw (good, made) at h))
    ]
  ]

  pub weigh-signed_log :
      (candidate rec : AccountRecord) (old : Option Bytes)
      → weigh crates candidate old ≡ ok (updated, rec)
      → record_signed_log rec ≡ record_signed_log candidate
  unfolding weigh
  weigh-signed_log candidate rec none h = cc
  weigh-signed_log candidate rec (some old) h =
      let (log, current, good, made, took) = weigh-some candidate rec old h in
      laws.updated_takes current rec (record_signed_log candidate) took

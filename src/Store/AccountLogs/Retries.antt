-- ===== src/Store/AccountLogs/Retries.antt =====
-- Sending a log again that was accepted.
use chat_store.Common.{◌≡◌, refl, sym, ap, ◌∙◌, inl, inr, true, eq_refl, none, some}
use chat_store.Common.Exec.{Result, ok}
use chat_store.Crates.{Crates, Outcome, updated, unchanged, identical}
use chat_store.Crates.Laws.{AccountLogLaws}
use chat_store.Store.Rows.{Store, StoreError}
use chat_store.Store.Sql.{Env, begin, fetch}
use chat_store.Store.AccountLogs.{stored_log, is_updated, weigh, put_account_log}
use chat_store.Store.Cases.{put_log, put_account_log-cases}
use chat_store.Store.AccountLogs.Reading.{stored_log-put_log}
use chat_store.Store.Weighing.{is_updated-eq, weigh-signed_log}

module _ (crates : Crates) (laws : AccountLogLaws crates) where
  open crates use {
    AccountAddr, SignedAccountLog, AccountRecord, addr_to_string, log_to_bytes, record_new,
    record_addr, record_signed_log, record_update,
  }

  -- A log, once it is on file for its own address, is no update of itself.
  weigh_self :
      (addr : AccountAddr) (log : SignedAccountLog) (candidate : AccountRecord)
      → record_new addr log ≡ ok candidate
      → weigh crates candidate (some (log_to_bytes log))
        ≡ ok (record_update candidate (record_signed_log candidate))
  unfolding weigh
  weigh_self addr log candidate made =
      rw (laws.from_bytes-to_bytes log, laws.new_addr addr log candidate made, made) refl

  put-unchanged :
      (env : Env) (candidate : AccountRecord) (s : Store) (on_file : _)
      (update : Outcome × AccountRecord)
      → env.fault begin ≡ none
      → env.fault fetch ≡ none
      → stored_log (addr_to_string (record_addr candidate)) s ≡ some on_file
      → weigh crates candidate (some on_file) ≡ ok update
      → update.0 ≡ unchanged identical
      → put_account_log crates env candidate s ≡ (ok (unchanged identical), s)
  unfolding put_account_log
  put-unchanged env candidate s on_file update begins fetches found weighed same =
      rw (begins, fetches, found, weighed, same) refl

  weighed_as :
      {w : Result StoreError (Outcome × AccountRecord)} (update : Outcome × AccountRecord)
      → is_updated update.0 ≡ true
      → w ≡ ok update
      → w ≡ ok (updated, update.1)
  weighed_as update newer h = h ∙ ap (λ o. ok (o, update.1)) (is_updated-eq update.0 newer)

  -- Once a verified log has been stored, submitting it again to a database that answers is found
  -- identical, and changes nothing. The account_log crate is assumed to keep its documented laws.
  put_account_log-retry :
      (env env' : Env) (addr : AccountAddr) (log : SignedAccountLog) (candidate : AccountRecord)
      (s t : Store)
      → record_new addr log ≡ ok candidate
      → put_account_log crates env candidate s ≡ (ok updated, t)
      → env'.fault begin ≡ none
      → env'.fault fetch ≡ none
      → put_account_log crates env' candidate t ≡ (ok (unchanged identical), t)
  put_account_log-retry env env' addr log candidate s t made stored begins fetches =
      elim (put_account_log-cases crates env candidate s) [
        | inl (e, refused) ↦ cc (ap (λ r. r.0) (sym stored ∙ refused))
        | inr (update, weighed, inl (same, kept)) ↦ cc (ap (λ r. r.0) (sym stored ∙ kept), same)
        | inr (update, weighed, inr (newer, put)) ↦
            let at : t ≡ put_log crates env candidate update.1 s =
              ap (λ r. r.1) (sym stored ∙ put) in
            let taken =
              weigh-signed_log crates laws candidate update.1 _ (weighed_as update newer weighed) in
            rw at (
              put-unchanged env' candidate _ (log_to_bytes log)
                (record_update candidate (record_signed_log candidate)) begins fetches
                (stored_log-put_log crates env candidate update.1 _ s
                  ∙ rw (eq_refl (addr_to_string (record_addr candidate))) (
                      ap (λ l. some (log_to_bytes l))
                        (taken ∙ laws.new_signed_log addr log candidate made)))
                (weigh_self addr log candidate made) (laws.update_self candidate))
      ]

-- ===== src/Bundle/Isolation.antt =====
-- The three `apply_*` on the rows of the owned ids.
use chat_store.Common.{String, Bool, true, false, ◌≡◌, refl, ap, ◌∙◌}
use chat_store.Common.Exec.{map_err-eq_ok, ok, map_err, pure, raise, lift, exec_map_err}
use chat_store.Crates.{Crates}
use chat_store.Crates.Laws.{AccountLogLaws}
use chat_store.Store.{Env}
use chat_store.Store.KeyPackages.{insert}
use chat_store.Store.Accounts.{upsert_account}
use chat_store.Store.AccountLogs.{put_account_log}
use chat_store.Store.Isolation.{
  IsLocal, IsForeign, bind-IsLocal, bind-IsForeign, lift-IsLocal, lift-IsForeign, map_err-IsLocal,
  map_err-IsForeign, if-IsLocal, if-IsForeign,
}
use chat_store.Store.Isolation.Operations.{
  insert-IsLocal, upsert_account-IsLocal, put_account_log-IsLocal,
}
use chat_store.Store.Isolation.Foreign.{
  insert-IsForeign, upsert_account-IsForeign, put_account_log-IsForeign,
}
use chat_store.Bundle.{
  Bundle, Error, internal, stale, key_hex, verify, refusal, verdict, apply_keypackage,
  apply_account, apply_account_log,
}
use chat_store.Bundle.Cases.{kept_keypackage, kept_account}

module _ (crates : Crates) (owned : String → Bool) (env : Env) (b : Bundle) where
  pub apply_keypackage-IsLocal :
      owned (key_hex crates b) ≡ true → IsLocal owned (apply_keypackage crates env b)
  unfolding apply_keypackage
  apply_keypackage-IsLocal mine =
      bind-IsLocal owned _ (lift (verify crates b)) (λ s. refl)
        λ _.
          map_err-IsLocal owned {F = Error crates} internal
            (insert env (key_hex crates b) (kept_keypackage b))
            (insert-IsLocal owned (key_hex crates b) mine env (kept_keypackage b))

  pub apply_keypackage-IsForeign :
      owned (key_hex crates b) ≡ false → IsForeign owned (apply_keypackage crates env b)
  unfolding apply_keypackage
  apply_keypackage-IsForeign other =
      bind-IsForeign owned _ (lift (verify crates b)) (λ s. refl)
        λ _.
          map_err-IsForeign owned {F = Error crates} internal
            (insert env (key_hex crates b) (kept_keypackage b))
            (insert-IsForeign owned (key_hex crates b) other env (kept_keypackage b))

  pub apply_account-IsLocal :
      owned (key_hex crates b) ≡ true → IsLocal owned (apply_account crates env b)
  unfolding apply_account
  apply_account-IsLocal mine =
      bind-IsLocal owned _ (lift (verify crates b)) (λ s. refl)
        λ _.
          bind-IsLocal owned _ (lift _) (λ s. refl)
            λ lamport.
              bind-IsLocal owned _
                (exec_map_err internal
                  (upsert_account env (key_hex crates b) lamport (kept_account b)))
                (map_err-IsLocal owned {F = Error crates} internal
                  (upsert_account env (key_hex crates b) lamport (kept_account b))
                  (upsert_account-IsLocal owned (key_hex crates b) mine env lamport
                    (kept_account b)))
                λ applied. if-IsLocal owned applied (pure tt) (raise stale) (λ s. refl) (λ s. refl)

  pub apply_account-IsForeign :
      owned (key_hex crates b) ≡ false → IsForeign owned (apply_account crates env b)
  unfolding apply_account
  apply_account-IsForeign other =
      bind-IsForeign owned _ (lift (verify crates b)) (λ s. refl)
        λ _.
          bind-IsForeign owned _ (lift _) (λ s. refl)
            λ lamport.
              bind-IsForeign owned _
                (exec_map_err internal
                  (upsert_account env (key_hex crates b) lamport (kept_account b)))
                (map_err-IsForeign owned {F = Error crates} internal
                  (upsert_account env (key_hex crates b) lamport (kept_account b))
                  (upsert_account-IsForeign owned (key_hex crates b) other env lamport
                    (kept_account b)))
                λ applied.
                  if-IsForeign owned applied (pure tt) (raise stale) (λ s. refl) (λ s. refl)

module _ (crates : Crates) (laws : AccountLogLaws crates) (owned : String → Bool) (env : Env)
    (addr : crates.AccountAddr) (signed : crates.SignedAccountLog) where
  open crates use {addr_to_string, record_new}

  abbrev named : crates.AccountRecord → String
  named candidate = addr_to_string (crates.record_addr candidate)

  named-addr :
      (candidate : crates.AccountRecord)
      → map_err (refusal crates) (record_new addr signed) ≡ ok candidate
      → owned (named candidate) ≡ owned (addr_to_string addr)
  named-addr candidate made =
      ap (λ a. owned (addr_to_string a))
        (laws.new_addr addr signed candidate
          (map_err-eq_ok (refusal crates) (record_new addr signed) made))

  pub apply_account_log-IsLocal :
      owned (addr_to_string addr) ≡ true → IsLocal owned (apply_account_log crates env addr signed)
  unfolding apply_account_log
  apply_account_log-IsLocal mine =
      lift-IsLocal owned _ (map_err (refusal crates) (record_new addr signed)) λ candidate made.
        bind-IsLocal owned (λ outcome. lift (verdict crates outcome))
          (exec_map_err internal (put_account_log crates env candidate))
          (map_err-IsLocal owned {F = Error crates} internal (put_account_log crates env candidate)
            (put_account_log-IsLocal crates owned env candidate (named-addr candidate made ∙ mine)))
          (λ outcome s. refl)

  pub apply_account_log-IsForeign :
      owned (addr_to_string addr) ≡ false
      → IsForeign owned (apply_account_log crates env addr signed)
  unfolding apply_account_log
  apply_account_log-IsForeign other =
      lift-IsForeign owned _ (map_err (refusal crates) (record_new addr signed)) λ candidate made.
        bind-IsForeign owned (λ outcome. lift (verdict crates outcome))
          (exec_map_err internal (put_account_log crates env candidate))
          (map_err-IsForeign owned {F = Error crates} internal
            (put_account_log crates env candidate)
            (put_account_log-IsForeign crates owned env candidate
              (named-addr candidate made ∙ other)))
          (λ outcome s. refl)

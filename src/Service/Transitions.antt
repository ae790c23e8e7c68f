-- ===== src/Service/Transitions.antt =====
-- The abstract machine that the service implements: the only changes of the store, whatever the
-- requests, the messages, the clock and the database's failures.
pub mod Steps
use chat_store.Common.{
  ℕ, String, ◌≡◌, refl, ap, ◌∙◌, ◌⊎◌, inl, inr, Bool, false, true, ◌&&◌, Option, none, some, List,
  [], ◌∷◌, arith, Option-cases, Bool-cases, find, select,
}
use chat_store.Common.Exec.{Result, ok, err, Result-cases}
use chat_store.Crates.{Crates, Outcome, updated}
use chat_store.Store.{Store, Env, KeyPackageRow, AccountBundleRow}
use chat_store.Store.Lamport.{payload_lamport}
use chat_store.Store.KeyPackages.{same_key}
use chat_store.Store.Accounts.{stored_lamport, is_stale}
use chat_store.Store.AccountLogs.{weigh}
use chat_store.Store.Cases.{add_keypackage, put_account, put_log, stored}
use chat_store.Bundle.{Bundle, key_hex, verify, apply_keypackage, apply_account, apply_account_log}
use chat_store.Bundle.Cases.{
  IsSized, kept_account, keypackage_row, apply_keypackage-cases, apply_account-cases,
  apply_account_log-cases,
}

module _ (crates : Crates) where
  -- What a submission can do, on either write path; a fetch only stays.
  pub data Write (s : Store) (t : Store) : Type 0 where
    stays : t ≡ s → Write s t
    adds_keypackage :
        (env : Env) (b : Bundle)
        → IsSized b
        → verify crates b ≡ ok tt
        → find (same_key (keypackage_row crates env s b)) s.keypackages ≡ none
        → t ≡ add_keypackage (keypackage_row crates env s b) s
        → Write s t
    puts_account :
        (env : Env) (b : Bundle) (lamport : ℕ)
        → IsSized b
        → verify crates b ≡ ok tt
        → payload_lamport b.payload ≡ some lamport
        → is_stale lamport (stored_lamport (key_hex crates b) s) ≡ false
        → t ≡ put_account env (key_hex crates b) (kept_account b) s
        → Write s t
    puts_log :
        (env : Env) (addr : crates.AccountAddr) (signed : crates.SignedAccountLog)
        (candidate : crates.AccountRecord) (rec : crates.AccountRecord)
        → crates.record_new addr signed ≡ ok candidate
        → weigh crates candidate (stored crates env candidate s) ≡ ok (updated, rec)
        → t ≡ put_log crates env candidate rec s
        → Write s t

  -- What a step can do: a write, or one of the two prunings.
  pub data Change (s : Store) (t : Store) : Type 0 where
    writes : Write s t → Change s t
    drops_keypackages :
        (p : KeyPackageRow → Bool)
        → t ≡ record s { keypackages = select p s.keypackages }
        → Change s t
    drops_accounts :
        (p : AccountBundleRow → Bool)
        → t ≡ record s { account_bundles = select p s.account_bundles }
        → Change s t

  pub apply_keypackage-Write :
      (env : Env) (b : Bundle) (s : Store) → IsSized b → Write s (apply_keypackage crates env b s).1
  apply_keypackage-Write env b s sized = elim (apply_keypackage-cases crates env s b) [
    | inl (e, refused) ↦ stays (ap (λ r. r.1) refused)
    | inr (good, free, done) ↦ adds_keypackage env b sized good free (ap (λ r. r.1) done)
  ]

  pub apply_account-Write :
      (env : Env) (b : Bundle) (s : Store) → IsSized b → Write s (apply_account crates env b s).1
  apply_account-Write env b s sized = elim (apply_account-cases crates env s b) [
    | inl (e, refused) ↦ stays (ap (λ r. r.1) refused)
    | inr (lamport, good, long, new, done) ↦
        puts_account env b lamport sized good long new (ap (λ r. r.1) done)
  ]

  pub apply_account_log-Write :
      (env : Env) (addr : crates.AccountAddr) (signed : crates.SignedAccountLog) (s : Store)
      → Write s (apply_account_log crates env addr signed s).1
  apply_account_log-Write env addr signed s =
      elim (apply_account_log-cases crates env s addr signed) [
        | inl (e, refused) ↦ stays (ap (λ r. r.1) refused)
        | inr (candidate, update, good, w, inl (same, kept)) ↦ stays (ap (λ r. r.1) kept)
        | inr (candidate, update, good, w, inr (newer, done)) ↦
            puts_log env addr signed candidate update.1 good (w ∙ ap (λ o. ok (o, update.1)) newer)
              (ap (λ r. r.1) done)
      ]

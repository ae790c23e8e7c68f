-- ===== src/Service/Runs/Keys.antt =====
-- The primary keys of migrations/: no run of the service makes two rows of one key.
use chat_store.Common.{
  eq_iff, List, arith, find-eq-none, IsKey, IsKey-text, Distinct, Distinct-select, Distinct-append,
  Distinct-upsert, subst, sym, Bool,
}
use chat_store.Common.Int.{eq_ℤ_iff}
use chat_store.Crates.{Crates}
use chat_store.Store.{Store, Env, AccountBundleRow, AccountLogRow}
use chat_store.Store.KeyPackages.{same_key}
use chat_store.Store.Accounts
use chat_store.Store.AccountLogs
use chat_store.Service.{Cli, Input, run}
use chat_store.Service.Transitions.{
  Change, writes, stays, adds_keypackage, puts_account, puts_log, drops_keypackages, drops_accounts,
}
use chat_store.Service.Runs.{run_induction}

abbrev pub same_account : AccountBundleRow → AccountBundleRow → Bool
same_account row r = Accounts.of_account row.account_pub r

abbrev pub same_log : AccountLogRow → AccountLogRow → Bool
same_log row r = AccountLogs.of_account row.account_pub r

pub record IsKeyed (s : Store) : Type 0 where
  pub keypackages : Distinct same_key s.keypackages
  pub account_bundles : Distinct same_account s.account_bundles
  pub account_logs : Distinct same_log s.account_logs

IsKey-same_key : IsKey same_key
IsKey-same_key = record {
  symm = λ x y h. ground (
    arith,
    eq_iff y.device_id x.device_id,
    eq_iff x.device_id y.device_id,
    eq_ℤ_iff y.received_at x.received_at,
    eq_ℤ_iff x.received_at y.received_at,
  );
  trans = λ x y z h k. ground (
    arith,
    eq_iff y.device_id x.device_id,
    eq_iff z.device_id y.device_id,
    eq_iff z.device_id x.device_id,
    eq_ℤ_iff y.received_at x.received_at,
    eq_ℤ_iff z.received_at y.received_at,
    eq_ℤ_iff z.received_at x.received_at,
  );
}

IsKey-same_account : IsKey same_account
IsKey-same_account = IsKey-text (λ r. r.account_pub)

IsKey-same_log : IsKey same_log
IsKey-same_log = IsKey-text (λ r. r.account_pub)

Change-IsKeyed : (crates : Crates) (s t : Store) → Change crates s t → IsKeyed s → IsKeyed t
Change-IsKeyed crates s t (writes (stays e)) h = subst IsKeyed (sym e) h
Change-IsKeyed crates s t (writes (adds_keypackage env b sized good free e)) h =
    subst IsKeyed (sym e) (record {
      keypackages =
          Distinct-append same_key IsKey-same_key s.keypackages _ (find-eq-none _ _ free)
            h.keypackages;
      account_bundles = h.account_bundles;
      account_logs = h.account_logs;
    })
Change-IsKeyed crates s t (writes (puts_account env b lamport sized good long new e)) h =
    subst IsKeyed (sym e) (record {
      keypackages = h.keypackages;
      account_bundles =
          Distinct-upsert same_account IsKey-same_account _ s.account_bundles h.account_bundles;
      account_logs = h.account_logs;
    })
Change-IsKeyed crates s t (writes (puts_log env addr signed candidate rec good w e)) h =
    subst IsKeyed (sym e) (record {
      keypackages = h.keypackages;
      account_bundles = h.account_bundles;
      account_logs = Distinct-upsert same_log IsKey-same_log _ s.account_logs h.account_logs;
    })
Change-IsKeyed crates s t (drops_keypackages p e) h = subst IsKeyed (sym e) (record {
  keypackages = Distinct-select same_key p s.keypackages h.keypackages;
  account_bundles = h.account_bundles;
  account_logs = h.account_logs;
})
Change-IsKeyed crates s t (drops_accounts p e) h = subst IsKeyed (sym e) (record {
  keypackages = h.keypackages;
  account_bundles = Distinct-select same_account p s.account_bundles h.account_bundles;
  account_logs = h.account_logs;
})

-- In every run from a store whose rows have distinct primary keys, they have distinct primary keys:
-- a device and a receipt time for keypackages, an account for account bundles and account logs.
pub run-IsKeyed :
    (crates : Crates) (cli : Cli) (inputs : List (Env × Input)) (s : Store)
    → IsKeyed s
    → IsKeyed (run crates cli inputs s)
run-IsKeyed crates cli = run_induction crates cli IsKeyed (Change-IsKeyed crates)

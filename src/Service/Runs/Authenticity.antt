-- ===== src/Service/Runs/Authenticity.antt =====
-- What the store may hold: only rows whose signature has been verified under the key, or the
-- account address, that the row is filed under.
use chat_store.Common.{
  ℕ, String, ◌≡◌, refl, sym, ap, subst, ◌∙◌, some, List, All, All-append, All-select, All-upsert,
}
use chat_store.Common.Exec.{ok}
use chat_store.Rust.Bytes.{Bytes}
use chat_store.Crates.{Crates}
use chat_store.Crates.Laws.{AccountLogLaws}
use chat_store.Store.{Store, Env, KeyPackageRow, AccountBundleRow, AccountLogRow}
use chat_store.Store.Lamport.{payload_lamport}
use chat_store.Store.Accounts
use chat_store.Store.AccountLogs
use chat_store.Store.Weighing.{weigh-signed_log}
use chat_store.Bundle.{Bundle, key_hex, verify}
use chat_store.Bundle.Cases.{IsSized}
use chat_store.Service.{Cli, Input, run}
use chat_store.Service.Transitions.{
  Change, writes, stays, adds_keypackage, puts_account, puts_log, drops_keypackages, drops_accounts,
}
use chat_store.Service.Runs.{run_induction}

module _ (crates : Crates) where
  -- A bundle of this payload and signature verifies under the key that `id` spells.
  pub record IsSigned (id : String) (payload signature : Bytes) : Type 0 where
    pub bundle : Bundle
    pub sized : IsSized bundle
    pub verified : verify crates bundle ≡ ok tt
    pub id_of_key : id ≡ key_hex crates bundle
    pub same_payload : payload ≡ bundle.payload
    pub same_signature : signature ≡ bundle.signature

  -- The account_log crate accepts the log under the address that `id` spells.
  pub record IsSignedLog (id : String) (artifact : Bytes) : Type 0 where
    pub addr : crates.AccountAddr
    pub log : crates.SignedAccountLog
    pub account : crates.AccountRecord
    pub verified : crates.record_new addr log ≡ ok account
    pub id_of_addr : id ≡ crates.addr_to_string addr
    pub same_artifact : artifact ≡ crates.log_to_bytes log

  abbrev pub SignedKeyPackage : KeyPackageRow → Type 0
  SignedKeyPackage r = IsSigned r.device_id r.payload r.signature

  -- An account bundle carries a lamport too.
  abbrev pub SignedAccount : AccountBundleRow → Type 0
  SignedAccount r =
      IsSigned r.account_pub r.payload r.signature
      × ((lamport : ℕ) × (payload_lamport r.payload ≡ some lamport))

  abbrev pub SignedLog : AccountLogRow → Type 0
  SignedLog r = IsSignedLog r.account_pub r.signed_log

  pub record IsAuthentic (s : Store) : Type 0 where
    pub keypackages : All SignedKeyPackage s.keypackages
    pub account_bundles : All SignedAccount s.account_bundles
    pub account_logs : All SignedLog s.account_logs

  IsSigned-of :
      (b : Bundle)
      → IsSized b
      → verify crates b ≡ ok tt
      → IsSigned (key_hex crates b) b.payload b.signature
  IsSigned-of b sized good = record {
    bundle = b;
    sized = sized;
    verified = good;
    id_of_key = refl;
    same_payload = refl;
    same_signature = refl;
  }

  module _ (laws : AccountLogLaws crates) where
    pub Change-IsAuthentic : (s t : Store) → Change crates s t → IsAuthentic s → IsAuthentic t
    Change-IsAuthentic s t (writes (stays e)) h = subst IsAuthentic (sym e) h
    Change-IsAuthentic s t (writes (adds_keypackage env b sized good free e)) h =
        subst IsAuthentic (sym e) (record {
          keypackages =
              All-append SignedKeyPackage s.keypackages _ h.keypackages
                (IsSigned-of b sized good, tt);
          account_bundles = h.account_bundles;
          account_logs = h.account_logs;
        })
    Change-IsAuthentic s t (writes (puts_account env b lamport sized good long new e)) h =
        subst IsAuthentic (sym e) (record {
          keypackages = h.keypackages;
          account_bundles =
              All-upsert SignedAccount (Accounts.of_account (key_hex crates b)) _ s.account_bundles
                h.account_bundles (IsSigned-of b sized good, (lamport, long));
          account_logs = h.account_logs;
        })
    Change-IsAuthentic s t (writes (puts_log env addr signed candidate rec good w e)) h =
        subst IsAuthentic (sym e) (record {
          keypackages = h.keypackages;
          account_bundles = h.account_bundles;
          account_logs =
              All-upsert SignedLog
                (AccountLogs.of_account (crates.addr_to_string (crates.record_addr candidate))) _
                s.account_logs h.account_logs
                (record {
                  addr = addr;
                  log = signed;
                  account = candidate;
                  verified = good;
                  id_of_addr = ap crates.addr_to_string (laws.new_addr addr signed candidate good);
                  same_artifact = ap crates.log_to_bytes (
                      weigh-signed_log crates laws candidate rec _ w
                      ∙ laws.new_signed_log addr signed candidate good);
                });
        })
    Change-IsAuthentic s t (drops_keypackages p e) h = subst IsAuthentic (sym e) (record {
      keypackages = All-select SignedKeyPackage p s.keypackages h.keypackages;
      account_bundles = h.account_bundles;
      account_logs = h.account_logs;
    })
    Change-IsAuthentic s t (drops_accounts p e) h = subst IsAuthentic (sym e) (record {
      keypackages = h.keypackages;
      account_bundles = All-select SignedAccount p s.account_bundles h.account_bundles;
      account_logs = h.account_logs;
    })

    -- In every run from a store of verified rows, whatever the requests, messages, clock and
    -- failures, every row stays verified: a keypackage or account bundle under the key that its
    -- id is the hex of, an account bundle with a lamport in its payload, and a log under its
    -- address. The account_log crate is assumed to keep its documented laws.
    pub run-IsAuthentic :
        (cli : Cli) (inputs : List (Env × Input)) (s : Store)
        → IsAuthentic s
        → IsAuthentic (run crates cli inputs s)
    run-IsAuthentic cli = run_induction crates cli IsAuthentic Change-IsAuthentic

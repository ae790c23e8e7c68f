-- ===== src/Handlers/Endpoints/States.antt =====
-- What each endpoint does to the store: the fetches nothing, the submissions what the `apply_*`
-- that they call does.
use chat_store.Common.{String, ◌≡◌, arith}
use chat_store.Common.Exec.{ok}
use chat_store.Rust.Bytes.{Bytes}
use chat_store.Crates.{Crates}
use chat_store.Store.{Store, Env}
use chat_store.Store.KeyPackages.{latest}
use chat_store.Store.Accounts.{get_account}
use chat_store.Store.AccountLogs.{get_account_log}
use chat_store.Bundle.{Bundle, apply_keypackage, apply_account, apply_account_log}
use chat_store.Bundle.Cases.{IsSized}
use chat_store.Handlers.Errors.{decode_bundle}
use chat_store.Handlers.Endpoints.{
  SubmitKeyPackageRequest, SubmitAccountRequest, parse_path_addr, submit_key_package,
  fetch_key_package, submit_account, fetch_account, submit_account_log, fetch_account_log,
}

module _ (crates : Crates) where
  pub decode_bundle-IsSized :
      (key payload signature : String) {b : Bundle}
      → decode_bundle crates key payload signature ≡ ok b
      → IsSized b
  unfolding decode_bundle
  decode_bundle-IsSized key payload signature h = ground arith

module _ (crates : Crates) (env : Env) (s : Store) where
  latest-state : (id : String) → (latest env id s).1 ≡ s
  unfolding latest
  latest-state id = ground arith

  pub fetch_key_package-state : (id : String) → (fetch_key_package crates env id s).1 ≡ s
  unfolding fetch_key_package latest
  fetch_key_package-state id = ground arith

  pub fetch_account-state : (id : String) → (fetch_account crates env id s).1 ≡ s
  unfolding fetch_account get_account
  fetch_account-state id = ground arith

  pub fetch_account_log-state : (addr : String) → (fetch_account_log crates env addr s).1 ≡ s
  unfolding fetch_account_log get_account_log
  fetch_account_log-state addr = ground arith

  pub submit_key_package-state :
      (req : SubmitKeyPackageRequest) (b : Bundle)
      → decode_bundle crates req.device_id req.payload req.signature ≡ ok b
      → (submit_key_package crates env req s).1 ≡ (apply_keypackage crates env b s).1
  unfolding submit_key_package
  submit_key_package-state req b good = ground arith

  pub submit_account-state :
      (req : SubmitAccountRequest) (b : Bundle)
      → decode_bundle crates req.account_pub req.payload req.signature ≡ ok b
      → (submit_account crates env req s).1 ≡ (apply_account crates env b s).1
  unfolding submit_account
  submit_account-state req b good = ground arith

  pub submit_account_log-state :
      (text : String) (body : Bytes) (addr : crates.AccountAddr) (signed : crates.SignedAccountLog)
      → parse_path_addr crates text ≡ ok addr
      → crates.log_from_bytes body ≡ ok signed
      → (submit_account_log crates env text body s).1
        ≡ (apply_account_log crates env addr signed s).1
  unfolding submit_account_log
  submit_account_log-state text body addr signed good parsed = ground arith

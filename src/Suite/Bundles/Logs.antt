-- ===== src/Suite/Bundles/Logs.antt =====
-- The tests of src/bundle.rs on account logs.
pub mod Passing
use chat_store.Common.{ℕ, String, Bool, true, false, Option, List, [], ◌∷◌, map}
use chat_store.Common.Exec.{Exec, Result, pure, lift, ◌>>=◌, ◌>>◌}
use chat_store.Rust.Bytes.{Bytes, eq_bytes}
use chat_store.Crates.{Crates}
use chat_store.Crates.Signing.{Signing}
use chat_store.Crates.Drafting.{Drafting, artifact}
use chat_store.Store.{Store, Env}
use chat_store.Store.AccountLogs.{get_account_log}
use chat_store.Bundle.{BundleError, Error, malformed_log, forked, apply_account_log}
use chat_store.Suite.{
  Panic, Check, Surroundings, assert, unwrap, unwrap_err, unwrap_some, unwrap_result,
}
use chat_store.Suite.Bundles.{
  is_invalid, is_stale_error, is_none, test_payload, test_key, key_bytes,
}

-- `matches!(err, BundleError::Forked)`
abbrev pub is_forked : {E : Type 0} → BundleError E → Bool
is_forked forked = true
is_forked _ = false

-- `matches!(err, BundleError::MalformedLog(AccountLogError::Malformed(_)))`; which errors are
-- `Malformed` is the crate's
abbrev pub is_malformed_log : {E : Type 0} → (E → Bool) → BundleError E → Bool
is_malformed_log is_malformed (malformed_log e) = is_malformed e
is_malformed_log is_malformed _ = false

module _ (crates : Crates) (signing : Signing crates) (drafting : Drafting crates signing) where
  open crates use {AccountAddr, SignedAccountLog, AccountLogError, log_from_bytes, log_to_bytes}
  open signing use {SigningKey}

  abbrev pub account_log : List ℕ → Result Panic Bytes
  account_log device_seeds = unwrap_some (
      drafting.encode_draft
        (map (λ seed. key_bytes crates signing (test_key crates signing seed)) device_seeds))

  abbrev pub signed_log : SigningKey → Bytes → Result Panic SignedAccountLog
  signed_log key payload = unwrap_result (log_from_bytes (artifact crates signing key payload))

  abbrev pub addr_of_key : SigningKey → Result Panic AccountAddr
  addr_of_key key = unwrap_some (drafting.addr_from_bytes (key_bytes crates signing key))

  -- The closure `log` of the first test.
  abbrev pub log_of_devices : SigningKey → List ℕ → Check SignedAccountLog
  log_of_devices key devices = do
    payload ← lift (account_log devices)
    lift (signed_log key payload)

  unfoldable pub account_log_must_extend_the_stored_one : Surroundings → Check (Unit {0})
  account_log_must_extend_the_stored_one env = do
    let key = test_key crates signing 4
    addr ← lift (addr_of_key key)
    none_yet ← log_of_devices key []
    unwrap (apply_account_log crates (env 0) addr none_yet)
    one ← log_of_devices key (1 ∷ [])
    unwrap (apply_account_log crates (env 1) addr one)
    retried ← log_of_devices key (1 ∷ [])
    unwrap (apply_account_log crates (env 2) addr retried)
    two ← log_of_devices key (1 ∷ 2 ∷ [])
    unwrap (apply_account_log crates (env 3) addr two)
    shorter ← log_of_devices key (1 ∷ [])
    e ← unwrap_err (apply_account_log crates (env 4) addr shorter)
    lift (assert (is_stale_error e))
    other ← log_of_devices key (3 ∷ 2 ∷ 1 ∷ [])
    f ← unwrap_err (apply_account_log crates (env 5) addr other)
    lift (assert (is_forked f))
    found ← unwrap (get_account_log crates (env 6) addr)
    stored ← lift (unwrap_some found)
    last ← log_of_devices key (1 ∷ 2 ∷ [])
    lift (assert (eq_bytes stored (log_to_bytes last)))
    never_published ← lift (addr_of_key (test_key crates signing 7))
    absent ← unwrap (get_account_log crates (env 7) never_published)
    lift (assert (is_none absent))

  unfoldable pub account_log_must_be_authentic_and_well_formed :
      (AccountLogError → Bool) → Surroundings → Check (Unit {0})
  account_log_must_be_authentic_and_well_formed is_malformed env = do
    let key = test_key crates signing 5
    payload ← lift (account_log (1 ∷ []))
    forged ← lift (signed_log (test_key crates signing 6) payload)
    addr ← lift (addr_of_key key)
    e ← unwrap_err (apply_account_log crates (env 0) addr forged)
    lift (assert (is_invalid "signature: verification failed" e))
    v0_bundle ← lift (signed_log key (test_payload 1))
    f ← unwrap_err (apply_account_log crates (env 1) addr v0_bundle)
    lift (assert (is_malformed_log is_malformed f))

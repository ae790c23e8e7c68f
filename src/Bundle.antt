-- ===== src/Bundle.antt =====
-- src/bundle.rs: a bundle off either wire, its verification, and the three `apply_*` operations
-- that both write paths end in.
pub mod Cases
pub mod Isolation
pub mod Devices
use chat_store.Common.{
  ℕ, String, Bool, true, false, Option, none, some, ◌++◌, length, beq, if◌then◌else◌,
}
use chat_store.Common.Int.{pos}
use chat_store.Common.Exec.{
  Result, ok, err, Exec, map_err, ok_or, and_then, pure, raise, lift, exec_map_err, ◌>>=◌, ◌>>◌,
}
use chat_store.Rust.Bytes.{Bytes}
use chat_store.Crates.{
  Crates, Outcome, updated, unchanged, other_outcome, identical, behind, diverged, other_freshness,
}
use chat_store.Store.{Store, StoreError, Env, unexpected_outcome}
use chat_store.Store.Lamport.{payload_lamport}
use chat_store.Store.KeyPackages.{insert}
use chat_store.Store.Accounts.{upsert_account}
use chat_store.Store.AccountLogs.{put_account_log}

-- `E` is the account_log crate's error.
pub data BundleError (E : Type 0) : Type 0 where
  invalid : String → BundleError E
  malformed_log : E → BundleError E
  stale : BundleError E
  forked : BundleError E
  internal : StoreError → BundleError E

pub record Bundle : Type 0 where
  pub key : Bytes
  pub payload : Bytes
  pub signature : Bytes

-- `<[u8; n]>::try_from(slice)`
abbrev pub to_array : ℕ → Bytes → Option Bytes
to_array n xs = if beq (length xs) n then some xs else none

module _ {E : Type 0} where
  unfoldable pub from_bytes : Bytes → Bytes → Bytes → Result (BundleError E) Bundle
  from_bytes key payload signature =
      and_then (ok_or (invalid "key: must be 32 bytes") (to_array 32 key)) λ k.
        and_then (ok_or (invalid "signature: must be 64 bytes") (to_array 64 signature))
          λ sig. ok (record { key = k; payload = payload; signature = sig })

module _ (crates : Crates) where
  open crates use {
    verifying_key_from_bytes, signature_from_bytes, verify_strict, hex_encode, AccountAddr,
    SignedAccountLog, AccountLogError, record_new, is_signature_invalid, outcome_debug,
  }

  abbrev pub Error : Type 0
  Error = BundleError AccountLogError

  unfoldable pub key_hex : Bundle → String
  key_hex bundle = hex_encode bundle.key

  unfoldable pub verify : Bundle → Result Error (Unit {0})
  verify bundle =
      and_then
        (ok_or (invalid "key: not a valid ed25519 key") (verifying_key_from_bytes bundle.key))
        λ verifying_key.
          if verify_strict verifying_key bundle.payload (signature_from_bytes bundle.signature)
          then ok tt
          else err (invalid "signature: verification failed")

  unfoldable pub apply_keypackage : Env → Bundle → Exec Store Error (Unit {0})
  apply_keypackage env bundle = do
    lift (verify bundle)
    exec_map_err internal (
        insert env (key_hex bundle)
          (record { payload = bundle.payload; signature = bundle.signature }))

  unfoldable pub apply_account : Env → Bundle → Exec Store Error (Unit {0})
  apply_account env bundle = do
    lift (verify bundle)
    lamport ← lift (
        ok_or (invalid "payload: too short to contain a lamport header")
          (payload_lamport bundle.payload))
    applied ← exec_map_err internal (
        upsert_account env (key_hex bundle) lamport
          (record { payload = bundle.payload; signature = bundle.signature; updated_at = pos 0 }))
    if applied then pure tt else raise stale

  abbrev pub refusal : AccountLogError → Error
  refusal e =
      if is_signature_invalid e then invalid "signature: verification failed" else malformed_log e

  abbrev pub verdict : Outcome → Result Error (Unit {0})
  verdict updated = ok tt
  verdict (unchanged identical) = ok tt
  verdict (unchanged behind) = err stale
  verdict (unchanged diverged) = err forked
  verdict other = err (internal (unexpected_outcome (outcome_debug other)))

  unfoldable pub apply_account_log :
      Env → AccountAddr → SignedAccountLog → Exec Store Error (Unit {0})
  apply_account_log env addr signed = do
    candidate ← lift (map_err refusal (record_new addr signed))
    outcome ← exec_map_err internal (put_account_log crates env candidate)
    lift (verdict outcome)

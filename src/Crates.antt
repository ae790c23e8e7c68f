-- ===== src/Crates.antt =====
-- The third-party crates that the source calls: ed25519_dalek, hex, base64, account_log, and the
-- protobuf messages of chat_proto as prost decodes them. They are parameters of the model.
pub mod Laws
pub mod Signing
pub mod Drafting
use chat_store.Common.{String, Bool, Option}
use chat_store.Common.Exec.{Result}
use chat_store.Rust.Bytes.{Bytes}

-- `account_log::LogFreshness`: the cases that the source names; `other_freshness` stands for the
-- rest, with the text that the source prints of them.
pub data LogFreshness : Type 0 where
  identical behind diverged : LogFreshness
  other_freshness : String → LogFreshness

-- `account_log::Outcome`, likewise.
pub data Outcome : Type 0 where
  updated : Outcome
  unchanged : LogFreshness → Outcome
  other_outcome : String → Outcome

-- The fields that both `KeyPackageSubmissionV1` and `AccountSubmissionV1` carry: the key is
-- `device_id` in the first and `account_pub` in the second.
pub record Submission : Type 0 where
  pub key : Bytes
  pub payload : Bytes
  pub signature : Bytes

pub record Crates : Type 1 where
  -- ed25519_dalek
  pub VerifyingKey : Type 0
  pub Signature : Type 0
  pub verifying_key_from_bytes : Bytes → Option VerifyingKey
  pub signature_from_bytes : Bytes → Signature
  pub verify_strict : VerifyingKey → Bytes → Signature → Bool
  -- hex and base64
  pub hex_encode : Bytes → String
  pub hex_decode : String → Option Bytes
  pub base64_encode : Bytes → String
  pub base64_decode : String → Option Bytes
  -- account_log
  pub AccountAddr : Type 0
  pub SignedAccountLog : Type 0
  pub AccountRecord : Type 0
  pub AccountLogError : Type 0
  pub parse_addr : String → Option AccountAddr
  pub addr_to_string : AccountAddr → String
  pub log_from_bytes : Bytes → Result AccountLogError SignedAccountLog
  pub log_to_bytes : SignedAccountLog → Bytes
  pub record_new : AccountAddr → SignedAccountLog → Result AccountLogError AccountRecord
  pub record_addr : AccountRecord → AccountAddr
  pub record_signed_log : AccountRecord → SignedAccountLog
  -- `AccountRecord::update`: the fields `outcome` and `record` of its result
  pub record_update : AccountRecord → SignedAccountLog → Outcome × AccountRecord
  pub outcome_debug : Outcome → String
  pub is_signature_invalid : AccountLogError → Bool
  pub log_error_to_string : AccountLogError → String
  -- prost
  pub decode_keypackage_submission : Bytes → Option Submission
  pub decode_account_submission : Bytes → Option Submission

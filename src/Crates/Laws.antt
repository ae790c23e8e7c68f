-- ===== src/Crates/Laws.antt =====
-- Documented behaviour of the account_log crate.
use chat_store.Common.{◌≡◌, ◌≢◌, [], ◌++◌, drop}
use chat_store.Common.Exec.{ok}
use chat_store.Rust.Bytes.{Bytes}
use chat_store.Crates.{Crates, updated, unchanged, identical}

-- The payload of an artifact `signature || payload`: what follows the 64 bytes of the signature.
abbrev pub log_payload : Bytes → Bytes
log_payload artifact = drop 64 artifact

-- A longer log that keeps every earlier byte.
abbrev pub StrictlyExtends : Bytes → Bytes → Type 0
StrictlyExtends old new = (tail : Bytes) × (tail ≢ []) × (new ≡ old ++ tail)

module _ (crates : Crates) where
  open crates use {
    AccountAddr, SignedAccountLog, AccountRecord, log_from_bytes, log_to_bytes, record_new,
    record_addr, record_signed_log, record_update,
  }

  pub record AccountLogLaws : Type 0 where
    -- A record is of the address and the log that it was made of.
    pub new_addr :
        (a : AccountAddr) (l : SignedAccountLog) (r : AccountRecord)
        → record_new a l ≡ ok r
        → record_addr r ≡ a
    pub new_signed_log :
        (a : AccountAddr) (l : SignedAccountLog) (r : AccountRecord)
        → record_new a l ≡ ok r
        → record_signed_log r ≡ l
    -- A log is read back from the artifact that it is transmitted as.
    pub from_bytes-to_bytes : (l : SignedAccountLog) → log_from_bytes (log_to_bytes l) ≡ ok l
    -- An update takes the new log, which strictly extends the old one.
    pub updated_takes :
        (r r' : AccountRecord) (l : SignedAccountLog)
        → record_update r l ≡ (updated, r')
        → record_signed_log r' ≡ l
    pub updated_extends :
        (r r' : AccountRecord) (l : SignedAccountLog)
        → record_update r l ≡ (updated, r')
        → StrictlyExtends
            (log_payload (log_to_bytes (record_signed_log r)))
            (log_payload (log_to_bytes l))
    -- The log that a record holds already is no update.
    pub update_self :
        (r : AccountRecord) → (record_update r (record_signed_log r)).0 ≡ unchanged identical

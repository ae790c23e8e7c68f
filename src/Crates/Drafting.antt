-- ===== src/Crates/Drafting.antt =====
-- The drafting side of account_log, which only clients use, and what the crate documents of it.
use chat_store.Common.{◌≡◌, Option, some, List, [], ◌∷◌, ◌++◌, if◌then◌else◌}
use chat_store.Common.Exec.{ok}
use chat_store.Rust.Bytes.{Bytes, eq_bytes}
use chat_store.Crates.{Crates, Outcome, updated, unchanged, identical, behind, diverged}
use chat_store.Crates.Signing.{Signing}

-- How a log of the devices `new` relates to one of the devices `old`.
unfoldable pub compare_devices : List Bytes → List Bytes → Outcome
compare_devices [] [] = unchanged identical
compare_devices [] (d ∷ new) = updated
compare_devices (d ∷ old) [] = unchanged behind
compare_devices (d ∷ old) (e ∷ new) =
    if eq_bytes d e then compare_devices old new else unchanged diverged

module _ (crates : Crates) (signing : Signing crates) where
  open crates use {
    AccountAddr, SignedAccountLog, AccountRecord, log_from_bytes, log_to_bytes, record_new,
    record_update,
  }
  open signing use {SigningKey, verifying_key, verifying_key_to_bytes, sign, signature_to_bytes}

  -- `signature || payload`, which the crate transmits
  abbrev pub artifact : SigningKey → Bytes → Bytes
  artifact key payload = signature_to_bytes (sign key payload) ++ payload

  pub record Drafting : Type 0 where
    -- `AccountAddr::try_from`
    pub addr_from_bytes : Bytes → Option AccountAddr
    -- a draft to which the devices are added in their order, and its log, encoded
    pub encode_draft : List Bytes → Option Bytes

  pub record DraftingLaws (drafting : Drafting) : Type 1 where
    -- Which devices the crate takes into one log, and what it makes of them.
    pub IsDraft : List Bytes → Type 0
    pub payload_of : List Bytes → Bytes
    pub addr_of : SigningKey → AccountAddr
    pub log_of : SigningKey → Bytes → SignedAccountLog
    pub record_of : SigningKey → List Bytes → AccountRecord
    pub addr_from_bytes-key :
        (key : SigningKey)
        → drafting.addr_from_bytes (verifying_key_to_bytes (verifying_key key)) ≡ some (addr_of key)
    pub encode_draft-payload_of :
        (devices : List Bytes)
        → IsDraft devices
        → drafting.encode_draft devices ≡ some (payload_of devices)
    -- A log is read from its artifact, and transmitted as it.
    pub log_from_bytes-artifact :
        (key : SigningKey) (payload : Bytes)
        → log_from_bytes (artifact key payload) ≡ ok (log_of key payload)
    pub log_to_bytes-log_of :
        (key : SigningKey) (payload : Bytes)
        → log_to_bytes (log_of key payload) ≡ artifact key payload
    -- The holder's own log verifies for the holder's address.
    pub record_new-log_of :
        (key : SigningKey) (devices : List Bytes)
        → IsDraft devices
        → record_new (addr_of key) (log_of key (payload_of devices)) ≡ ok (record_of key devices)
    -- An update is judged by the devices of the two logs.
    pub record_update-outcome :
        (key : SigningKey) (old new : List Bytes)
        → IsDraft old
        → IsDraft new
        → (record_update (record_of key old) (log_of key (payload_of new))).0
          ≡ compare_devices old new

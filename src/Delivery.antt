-- ===== src/Delivery.antt =====
-- src/delivery.rs: the logos-delivery write path. The node's events are filtered by content topic,
-- and an ingest thread handles what is left one by one.
pub mod Agreement
pub mod Filter
use chat_store.Common.{String, Option, none, some, List, [], ◌∷◌, ◌==◌, if◌then◌else◌}
use chat_store.Common.Exec.{Result, ok, err}
use chat_store.Rust.Bytes.{Bytes}
use chat_store.Crates.{Crates, Submission}
use chat_store.Store.{Store, Env}
use chat_store.Bundle.{Bundle, Error, from_bytes, key_hex, apply_keypackage, apply_account}

abbrev pub keypackage_submit_topic : String
keypackage_submit_topic = "/logos-chat/1/store-keypackage-v0/proto"

abbrev pub account_submit_topic : String
account_submit_topic = "/logos-chat/1/store-account-v0/proto"

-- An event of the node: a received message with its topic and payload, or anything else.
pub data Event : Type 0 where
  message : String → Option Bytes → Event
  other_event : Event

pub data Received : Type 0 where
  key_package : Bytes → Received
  account : Bytes → Received

abbrev wrap : String → Option (Bytes → Received)
wrap topic =
    if topic == keypackage_submit_topic
    then some key_package
    else if topic == account_submit_topic
    then some account
    else none

abbrev pub apply_wrap : Option (Bytes → Received) → Option Bytes → Option Received
apply_wrap (some f) (some payload) = some (f payload)
apply_wrap _ _ = none

-- The closure that `start` gives the node.
unfoldable pub filter_event : Event → Option Received
filter_event (message topic payload) = apply_wrap (wrap topic) payload
filter_event other_event = none

-- What an ingest function writes to the log. The device or account is named once it is known.
pub data Log (E : Type 0) : Type 0 where
  invalid_protobuf : Log E
  rejected : Option String → E → Log E
  stored : String → Log E

module _ (crates : Crates) where
  open crates use {decode_keypackage_submission, decode_account_submission}

  abbrev pub Line : Type 0
  Line = Log (Error crates)

  abbrev report : String → Result (Error crates) (Unit {0}) → Line
  report id (ok _) = stored id
  report id (err e) = rejected (some id) e

  -- The part after the decoding that both ingest functions share; `apply` is the call under
  -- `block_on`.
  abbrev pub ingest :
      (Bundle → Store → Result (Error crates) (Unit {0}) × Store)
      → Option Submission
      → Store
      → Line × Store
  ingest apply none s = (invalid_protobuf, s)
  ingest apply (some wire) s = elim (from_bytes {E = _} wire.key wire.payload wire.signature) [
    | err e ↦ (rejected none e, s)
    | ok bundle ↦ let (r, s') = apply bundle s in (report (key_hex crates bundle) r, s')
  ]

  unfoldable pub ingest_keypackage : Env → Bytes → Store → Line × Store
  unfolding from_bytes key_hex
  ingest_keypackage env bytes =
      ingest (apply_keypackage crates env) (decode_keypackage_submission bytes)

  unfoldable pub ingest_account : Env → Bytes → Store → Line × Store
  unfolding from_bytes key_hex
  ingest_account env bytes = ingest (apply_account crates env) (decode_account_submission bytes)

  unfoldable pub ingest_received : Env → Received → Store → Line × Store
  unfolding ingest_keypackage ingest_account
  ingest_received env (key_package bytes) = ingest_keypackage env bytes
  ingest_received env (account bytes) = ingest_account env bytes

  -- The thread's loop over the queue, with the surroundings of each round.
  unfoldable pub ingest_loop : List (Env × Received) → Store → List Line × Store
  ingest_loop [] s = ([], s)
  ingest_loop ((env, received) ∷ queue) s =
      let (line, s') = ingest_received env received s in
      let (lines, final) = ingest_loop queue s' in (line ∷ lines, final)

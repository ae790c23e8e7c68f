-- ===== src/Clients/DeliverySmokeTest.antt =====
-- examples/delivery_smoke_test.rs: a keypackage and an account bundle, published over the delivery
-- network, and awaited at the query API.
pub mod Delivered
pub mod Success
pub mod Polling
use chat_store.Common.{
  ℕ, zero, suc, ◌+◌, String, Bool, true, false, ◌&&◌, Option, none, some, List, [], ◌∷◌, ◌++◌, ltb,
  leb, replicate, if◌then◌else◌,
}
use Prim.Native.String
use chat_store.Common.Exec.{Result, ok, err, pure, ◌>>=◌, ◌>>◌}
use chat_store.Rust.Bytes.{Bytes, to_le_bytes}
use chat_store.Crates.{Crates, Submission}
use chat_store.Crates.Signing.{Signing, Encoding}
use chat_store.Store.{Store, Env}
use chat_store.Store.Lamport.{ascii}
use chat_store.Delivery.{Event, message, Received, filter_event, ingest_received}
use chat_store.Handlers.Endpoints.{Request, Response, get_keypackage, get_account_bundle}
use chat_store.Clients.Requests.{
  Exchange, ClientError, failed, did_not_appear, Client, status_number, send, pub_hex,
}
use chat_store.Clients.Benchmark.Waiting.{Poll}

-- The constants of this program, which has to agree with the service's.
abbrev pub keypackage_topic : String
keypackage_topic = "/logos-chat/1/store-keypackage-v0/proto"

abbrev pub account_topic : String
account_topic = "/logos-chat/1/store-account-v0/proto"

abbrev pub account_domain : Bytes
account_domain = ascii "libchat:account-device-bundle" ++ 0 ∷ []

-- `POLL_BUDGET`, in milliseconds
abbrev pub poll_budget : ℕ
poll_budget = 90000

abbrev pub derived_seed : ℕ → ℕ → Bytes
derived_seed seed_ms salt = to_le_bytes 8 seed_ms ++ replicate 24 salt

unfoldable pub timed_payload : ℕ → Bytes
timed_payload seed_ms = to_le_bytes 8 seed_ms ++ ascii "delivery-smoke-keypackage"

unfoldable pub devices_payload : Bytes
devices_payload = ((account_domain ++ 1 ∷ []) ++ to_le_bytes 8 1) ++ ascii "delivery-smoke-devices"

-- How a publication fares: the node refuses it, it does not reach the service's node, or it does, and
-- is handled in the given surroundings.
pub data Gossip : Type 0 where
  refused lost : Gossip
  delivered : Env → Gossip

-- The rounds of a poll end with the state that the server is in.
abbrev pub Polled : Type 0
Polled = Option (Result ClientError (Unit {0}) × Store)

abbrev pub is_success : ℕ → Bool
is_success status = leb 200 status && ltb status 300

abbrev pub then_poll : Polled → (Store → Polled) → Polled
then_poll (some (ok _, s)) next = next s
then_poll other next = other

module _ (crates : Crates) where
  -- What the closure of the service's node queues is ingested.
  abbrev pub arrive : Env → Option Received → Store → Store
  arrive env none s = s
  arrive env (some received) s = (ingest_received crates env received s).1

  unfoldable pub publish : Gossip → String → Bytes → Client (Unit {0})
  publish refused topic bytes s = (err (failed (String.◌++◌ "publish on " topic)), s)
  publish lost topic bytes s = (ok tt, s)
  publish (delivered env) topic bytes s =
      (ok tt, arrive env (filter_event (message topic (some bytes))) s)

  -- The rest of a round, with the answer to its request.
  abbrev pub settle : Result ClientError Response → ℕ → String → Store → Polled → Polled
  settle (err e) clock what s rest = some (err e, s)
  settle (ok response) clock what s rest =
      if is_success (status_number response.status)
      then some (ok tt, s)
      else if ltb poll_budget clock
      then some (err (did_not_appear what response.status), s)
      else rest

  -- The loop, on fuel: `none` where the fuel does not suffice. A round's clock is the time since the
  -- start in milliseconds.
  unfoldable pub poll_until_stored : ℕ → (ℕ → Poll) → ℕ → Request → String → Store → Polled
  poll_until_stored zero polls round request what s = none
  poll_until_stored (suc fuel) polls round request what s =
      let (r, s') = send crates (polls round).exchange request s in
      let rest = poll_until_stored fuel polls (round + 1) request what s' in
      settle r (polls round).clock what s' rest

  module _ (signing : Signing crates) (messages : Encoding crates) where
    open signing use {
      SigningKey, key_from_bytes, verifying_key, verifying_key_to_bytes, sign, signature_to_bytes,
    }

    abbrev pub derived_key : ℕ → ℕ → SigningKey
    derived_key seed_ms salt = key_from_bytes (derived_seed seed_ms salt)

    abbrev pub submission : SigningKey → Bytes → Submission
    submission key payload = record {
      key = verifying_key_to_bytes (verifying_key key);
      payload = payload;
      signature = signature_to_bytes (sign key payload);
    }

    unfoldable pub publish_both : Gossip → Gossip → ℕ → Client (Unit {0})
    publish_both on_keypackage on_account seed_ms = do
      publish on_keypackage keypackage_topic (
          messages.encode_keypackage_submission
            (submission (derived_key seed_ms 1) (timed_payload seed_ms)))
      publish on_account account_topic
          (messages.encode_account_submission (submission (derived_key seed_ms 2) devices_payload))

    -- Both submissions, and then both polls, each with so much fuel.
    unfoldable pub delivery_smoke_test :
        ℕ → Gossip → Gossip → (ℕ → Poll) → (ℕ → Poll) → ℕ → Store → Polled
    delivery_smoke_test fuel on_keypackage on_account keypackage_polls account_polls seed_ms s =
        then_poll (some (publish_both on_keypackage on_account seed_ms s)) λ s'.
          then_poll
            (poll_until_stored fuel keypackage_polls 0
              (get_keypackage (pub_hex crates signing (derived_key seed_ms 1))) "keypackage" s')
            (poll_until_stored fuel account_polls 0
              (get_account_bundle (pub_hex crates signing (derived_key seed_ms 2))) "account")

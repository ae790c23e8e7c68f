-- ===== src/Clients/DeliverySmokeTest/Success.antt =====
-- What was published over the delivery network is found at the query API: the run of
-- examples/delivery_smoke_test.rs passes.
use chat_store.Common.{ℕ, ◌≡◌, refl, String, none, some}
use chat_store.Common.Exec.{ok}
use chat_store.Crates.{Crates}
use chat_store.Crates.Signing.{Signing, SigningLaws, EncodingLaws, Encoding, MessageLaws}
use chat_store.Store.{Store, Env, StoredAccountBundle, StoredKeyPackageBundle}
use chat_store.Store.Accounts.{stored_lamport}
use chat_store.Store.Cases.{received, add_keypackage, put_account}
use chat_store.Bundle.Cases.{kept_keypackage, kept_account}
use chat_store.Handlers.Conflicts.{Healthy}
use chat_store.Handlers.Endpoints.{serve, keypackage_response, get_keypackage, get_account_bundle}
use chat_store.Clients.Requests.{answered}
use chat_store.Clients.Publishing.{public_key, signed}
use chat_store.Clients.Fetching.{
  Earlier, fetch_key_package-inserted, fetch_account-put, stored_lamport-add,
}
use chat_store.Clients.Benchmark.Waiting.{Poll}
use chat_store.Clients.DeliverySmokeTest.{
  delivered, publish_both, derived_key, timed_payload, devices_payload, delivery_smoke_test,
}
use chat_store.Clients.DeliverySmokeTest.Delivered.{
  IsBytes-timed_payload, IsBytes-devices_payload, lamport_of_devices, poll_until_stored-first,
  publish-keypackage, publish-account,
}

module _ (crates : Crates) (signing : Signing crates) (messages : Encoding crates)
    (laws : SigningLaws crates signing) (encoding : EncodingLaws crates)
    (parsing : MessageLaws crates messages) where
  open signing use {SigningKey, verifying_key}

  module _ (seed_ms : ℕ) (on_keypackage on_account : Env) (s : Store) where
    abbrev device : SigningKey
    device = derived_key crates signing messages seed_ms 1

    abbrev device_id : String
    device_id = public_key crates signing device

    abbrev owner : SigningKey
    owner = derived_key crates signing messages seed_ms 2

    abbrev account_pub : String
    account_pub = public_key crates signing owner

    abbrev device_bundle : StoredKeyPackageBundle
    device_bundle = kept_keypackage (signed crates signing device (timed_payload seed_ms))

    abbrev account_bundle : StoredAccountBundle
    account_bundle = kept_account (signed crates signing owner devices_payload)

    abbrev with_keypackage : Store
    with_keypackage = add_keypackage (received on_keypackage device_id device_bundle) s

    -- The store with both submissions.
    abbrev pub published : Store
    published = put_account on_account account_pub account_bundle with_keypackage

    publish_both_lem :
        Healthy on_keypackage
        → Healthy on_account
        → Earlier on_keypackage device_id s
        → stored_lamport account_pub s ≡ none
        → publish_both crates signing messages
            (delivered on_keypackage)
            (delivered on_account)
            seed_ms
            s
          ≡ (ok tt, published)
    unfolding publish_both
    publish_both_lem h k earlier unknown =
        let fresh : stored_lamport account_pub with_keypackage ≡ none =
          rw stored_lamport-add unknown in
        rw
          (
            publish-keypackage crates signing messages laws encoding parsing on_keypackage device
                (timed_payload seed_ms) s (IsBytes-timed_payload seed_ms) h earlier,
            publish-account crates signing messages laws encoding parsing on_account owner
                devices_payload 1 with_keypackage IsBytes-devices_payload k lamport_of_devices
                fresh,
          )
          refl

    -- Where both messages reach the service, the database answers every statement, the device's rows
    -- were all received before, nothing is on file for the account, and the first request of each
    -- poll is answered, the run passes, and both bundles are in the store.
    pub delivery_smoke_test_passes :
        (keypackage_polls account_polls : ℕ → Poll) (first first' : Env)
        → Healthy on_keypackage
        → Healthy on_account
        → Healthy first
        → Healthy first'
        → Earlier on_keypackage device_id s
        → stored_lamport account_pub s ≡ none
        → (keypackage_polls 0).exchange ≡ answered first
        → (account_polls 0).exchange ≡ answered first'
        → delivery_smoke_test crates signing messages 47
            (delivered on_keypackage)
            (delivered on_account)
            keypackage_polls
            account_polls
            seed_ms
            s
          ≡ some (ok tt, published)
    unfolding delivery_smoke_test
    delivery_smoke_test_passes keypackage_polls account_polls first first' h k f f' earlier unknown
          p q =
        let keypackage_found : serve crates first (get_keypackage device_id) published
            ≡ (keypackage_response crates device_bundle, published) =
          fetch_key_package-inserted crates on_keypackage device_id device_bundle
            (put_account on_account account_pub account_bundle s) first h f earlier in
        rw
          (
            publish_both_lem h k earlier unknown,
            poll_until_stored-first crates keypackage_polls (get_keypackage device_id) "keypackage"
                published first _ p keypackage_found refl,
            poll_until_stored-first crates account_polls (get_account_bundle account_pub) "account"
                published first' _ q
                (fetch_account-put crates on_account account_pub account_bundle with_keypackage
                  first' f')
                refl,
          )
          refl

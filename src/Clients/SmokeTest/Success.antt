-- ===== src/Clients/SmokeTest/Success.antt =====
-- The run of examples/smoke_test.rs gets the answers that it expects.
use chat_store.Common.{
  ℕ, ◌≡◌, refl, arith, String, none, some, List, [], ◌∷◌, ◌++◌, All, All-append, length,
}
use chat_store.Common.Exec.{ok}
use chat_store.Rust.{as_i64}
use chat_store.Rust.Bytes.{
  IsByte, IsBytes, to_le_bytes, IsBytes-to_le_bytes, strip_prefix, get_range, from_le_bytes,
}
use mathlib.Core.Option
use chat_store.Crates.{Crates}
use chat_store.Crates.Signing.{Signing, SigningLaws, EncodingLaws}
use chat_store.Store.{Store, Env, StoredAccountBundle, now_ms}
use chat_store.Store.Lamport.{ascii, payload_lamport}
use chat_store.Store.Accounts.{stored_lamport}
use chat_store.Handlers.Errors.{okay, no_content, conflict}
use chat_store.Handlers.Conflicts.{Healthy}
use chat_store.Handlers.Endpoints.{keypackage_response, account_response}
use chat_store.Clients.Requests.{status_number, answered}
use chat_store.Clients.Publishing.{
  public_key, signed, submit_key_package-signed, submit_account-signed, submit_account-stale,
}
use chat_store.Clients.Fetching.{
  Earlier, find-Earlier, fetch_key_package-inserted, fetch_account-put, send-answered,
  stored_lamport-add,
}
use chat_store.Store.Accounts.Reading.{stored_lamport-put}
use chat_store.Bundle.{Bundle}
use chat_store.Bundle.Cases.{kept_keypackage, kept_account}
use chat_store.Store.Cases.{received, add_keypackage, put_account}
use chat_store.Clients.SmokeTest.{
  Printed, prints, prints_body, domain, hello_payload, bundle_payload, fresh_key, test_keypackage,
  test_account, smoke_test,
}

-- The answer has the status that is expected of it.
abbrev pub IsExpected : Printed → Type 0
IsExpected (prints request status expected) = status_number status ≡ expected
IsExpected (prints_body request status expected body) = status_number status ≡ expected

hello_payload-IsBytes : IsBytes hello_payload
hello_payload-IsBytes =
    All-append IsByte (to_le_bytes 8 0) (ascii "hello-keypackage") (IsBytes-to_le_bytes 8 0)
      (ground arith)

bundle_payload-IsBytes : IsBytes bundle_payload
bundle_payload-IsBytes =
    All-append IsByte (domain ++ 1 ∷ []) (to_le_bytes 8 1) (ground arith) (IsBytes-to_le_bytes 8 1)

lamport_of_bundle : payload_lamport bundle_payload ≡ some 1
unfolding payload_lamport strip_prefix get_range from_le_bytes to_le_bytes Option.map Option.bind
lamport_of_bundle = refl

module _ (crates : Crates) (signing : Signing crates) (laws : SigningLaws crates signing)
    (encoding : EncodingLaws crates) (nanos nanos' : ℕ) where
  abbrev device : signing.SigningKey
  device = fresh_key crates signing nanos 1

  abbrev pub device_bundle : Bundle
  device_bundle = signed crates signing device hello_payload

  abbrev device_id : String
  device_id = public_key crates signing device

  abbrev account : signing.SigningKey
  account = fresh_key crates signing nanos' 2

  abbrev account_pub : String
  account_pub = public_key crates signing account

  abbrev account_bundle : StoredAccountBundle
  account_bundle = kept_account (signed crates signing account bundle_payload)

  abbrev keypackage_lines : List Printed
  keypackage_lines =
      prints "POST /v0/keypackage" no_content 204
      ∷ prints_body "GET /v0/keypackage/<id>" okay 200
          (keypackage_response crates (kept_keypackage device_bundle)).body
      ∷ []

  abbrev with_keypackage : Env → Store → Store
  with_keypackage env = add_keypackage (received env device_id (kept_keypackage device_bundle))

  test_keypackage_lem :
      (post get : Env) (s : Store)
      → Healthy post
      → Healthy get
      → Earlier post device_id s
      → test_keypackage crates signing (record { post = answered post; get = answered get }) nanos s
        ≡ (ok keypackage_lines, with_keypackage post s)
  unfolding test_keypackage
  test_keypackage_lem post get s fine fine' earlier =
      rw
        (
          send-answered crates post _ s _ _ (
              submit_key_package-signed crates signing laws encoding post device hello_payload s
                hello_payload-IsBytes fine
                (find-Earlier crates post device_id (kept_keypackage device_bundle) s earlier)),
          send-answered crates get _ (with_keypackage post s) _ _ (
              fetch_key_package-inserted crates post device_id (kept_keypackage device_bundle) s get
                fine fine' earlier),
        )
        refl

  abbrev account_lines : Env → List Printed
  account_lines env =
      prints "POST /v0/account" no_content 204
      ∷ prints_body "GET /v0/account/<id>" okay 200
          (account_response crates
            (record account_bundle { updated_at = as_i64 (now_ms env.since_epoch) })).body
      ∷ prints "POST /v0/account (replay)" conflict 409
      ∷ []

  test_account_lem :
      (post get replay : Env) (s : Store)
      → Healthy post
      → Healthy get
      → Healthy replay
      → stored_lamport account_pub s ≡ none
      → test_account crates signing
          (record { post = answered post; get = answered get; replay = answered replay })
          nanos'
          s
        ≡ (ok (account_lines post), put_account post account_pub account_bundle s)
  unfolding test_account
  test_account_lem post get replay s fine fine' fine'' unknown =
      let stored = put_account post account_pub account_bundle s in
      let on_file = stored_lamport-put post account_pub account_bundle s 1 lamport_of_bundle in
      rw
        (
          send-answered crates post _ s _ _ (
              submit_account-signed crates signing laws encoding post account bundle_payload 1 s
                bundle_payload-IsBytes fine lamport_of_bundle (rw unknown refl)),
          send-answered crates get _ stored _ _
              (fetch_account-put crates post account_pub account_bundle s get fine'),
          send-answered crates replay _ stored _ _ (
              submit_account-stale crates signing laws encoding replay account bundle_payload 1
                stored bundle_payload-IsBytes fine'' lamport_of_bundle (rw on_file refl)),
        )
        refl

  -- Where the database answers every statement, the device's rows were all received before, and
  -- nothing is on file for the account, every line shows the status that is expected in it: 204 and
  -- 200, then 204, 200, and 409 for the replay.
  pub smoke_test-IsExpected :
      (post get post' get' replay : Env) (s : Store)
      → Healthy post
      → Healthy get
      → Healthy post'
      → Healthy get'
      → Healthy replay
      → Earlier post device_id s
      → stored_lamport account_pub s ≡ none
      → (lines : List Printed) × ((smoke_test crates signing
            (record { post = answered post; get = answered get })
            (record { post = answered post'; get = answered get'; replay = answered replay })
            nanos
            nanos'
            s).0
          ≡ ok lines)
        × (length lines ≡ 5)
        × All IsExpected lines
  unfolding smoke_test
  smoke_test-IsExpected post get post' get' replay s h i j k l earlier unknown =
      let fresh : stored_lamport account_pub (with_keypackage post s) ≡ none =
        rw stored_lamport-add unknown in
      (
        keypackage_lines ++ account_lines post',
        rw
            (
              test_keypackage_lem post get s h i earlier,
              test_account_lem post' get' replay (with_keypackage post s) j k l fresh,
            )
            refl,
        refl,
        (refl, (refl, (refl, (refl, (refl, tt))))),
      )

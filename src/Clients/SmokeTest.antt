-- ===== src/Clients/SmokeTest.antt =====
-- examples/smoke_test.rs: one keypackage and one account bundle, published and fetched, with the
-- status of each answer printed next to the one that is expected.
pub mod Success
use Prim.Native.Nat.{bit_xor}
use chat_store.Common.{
  ℕ, ◌+◌, ◌%◌, ◌≡◌, refl, arith, String, none, some, List, [], ◌∷◌, ◌++◌, All, All-append, length,
}
use chat_store.Common.Exec.{ok, pure, ◌>>=◌}
use chat_store.Rust.{as_i64}
use chat_store.Rust.Bytes.{
  Bytes, IsByte, IsBytes, to_le_bytes, IsBytes-to_le_bytes, strip_prefix, get_range, from_le_bytes,
}
use mathlib.Core.Option
use chat_store.Crates.{Crates}
use chat_store.Crates.Signing.{Signing, SigningLaws, EncodingLaws}
use chat_store.Store.{Store, Env, StoredAccountBundle, now_ms}
use chat_store.Store.Lamport.{ascii, payload_lamport}
use chat_store.Store.Accounts.{stored_lamport}
use chat_store.Handlers.Errors.{StatusCode, okay, no_content, conflict}
use chat_store.Handlers.Conflicts.{Healthy}
use chat_store.Handlers.Endpoints.{
  Body, SubmitAccountRequest, keypackage_response, account_response, post_keypackage,
  get_keypackage, post_account, get_account_bundle,
}
use chat_store.Clients.Requests.{
  Exchange, Client, send, pub_hex, signature_text, status_number, answered,
}
use chat_store.Clients.Publishing.{
  public_key, signed, submit_key_package-signed, submit_account-signed, submit_account-stale,
}
use chat_store.Clients.Fetching.{
  Earlier, find-Earlier, fetch_key_package-inserted, fetch_account-put, send-answered,
  stored_lamport-add,
}
use chat_store.Bundle.{Bundle}
use chat_store.Bundle.Cases.{kept_keypackage, kept_account}
use chat_store.Store.Cases.{received, add_keypackage, put_account}

-- A printed line: the request, the status of the answer and the one that is expected, and the body
-- where the line shows it.
pub data Printed : Type 0 where
  prints : String → StatusCode → ℕ → Printed
  prints_body : String → StatusCode → ℕ → Body → Printed

-- `nanos[i % nanos.len()] ^ salt ^ (i as u8)` for the 32 bytes of a seed: the 16 bytes of the time
-- in nanoseconds, twice over.
abbrev salted : ℕ → ℕ → Bytes → Bytes
salted salt i [] = []
salted salt i (b ∷ bs) = bit_xor (bit_xor b salt) (i % 256) ∷ salted salt (i + 1) bs

unfoldable pub fresh_seed : ℕ → ℕ → Bytes
fresh_seed nanos salt = let bytes = to_le_bytes 16 nanos in salted salt 0 (bytes ++ bytes)

abbrev pub hello_payload : Bytes
hello_payload = to_le_bytes 8 0 ++ ascii "hello-keypackage"

abbrev pub domain : Bytes
domain = ascii "libchat:account-device-bundle" ++ 0 ∷ []

abbrev pub bundle_payload : Bytes
bundle_payload = (domain ++ 1 ∷ []) ++ to_le_bytes 8 1

-- The exchanges of the two functions.
pub record KeypackageExchanges : Type 0 where
  pub post : Exchange
  pub get : Exchange

pub record AccountExchanges : Type 0 where
  pub post : Exchange
  pub get : Exchange
  pub replay : Exchange

module _ (crates : Crates) (signing : Signing crates) where
  -- The key of a salt, made at the given time.
  abbrev pub fresh_key : ℕ → ℕ → signing.SigningKey
  fresh_key nanos salt = signing.key_from_bytes (fresh_seed nanos salt)

  unfoldable pub test_keypackage : KeypackageExchanges → ℕ → Client (List Printed)
  test_keypackage on nanos = do
    let key = fresh_key nanos 1
    let device_id = pub_hex crates signing key
    posted ← send crates on.post (
        post_keypackage (record {
          device_id = device_id;
          payload = crates.base64_encode hello_payload;
          signature = signature_text crates signing key hello_payload;
        }))
    got ← send crates on.get (get_keypackage device_id)
    pure (
        prints "POST /v0/keypackage" posted.status 204
        ∷ prints_body "GET /v0/keypackage/<id>" got.status 200 got.body
        ∷ [])

  unfoldable pub test_account : AccountExchanges → ℕ → Client (List Printed)
  test_account on nanos = do
    let key = fresh_key nanos 2
    let account_pub = pub_hex crates signing key
    let body : SubmitAccountRequest = record {
      account_pub = account_pub;
      payload = crates.base64_encode bundle_payload;
      signature = signature_text crates signing key bundle_payload;
    }
    posted ← send crates on.post (post_account body)
    got ← send crates on.get (get_account_bundle account_pub)
    replayed ← send crates on.replay (post_account body)
    pure (
        prints "POST /v0/account" posted.status 204
        ∷ prints_body "GET /v0/account/<id>" got.status 200 got.body
        ∷ prints "POST /v0/account (replay)" replayed.status 409
        ∷ [])

  unfoldable pub smoke_test : KeypackageExchanges → AccountExchanges → ℕ → ℕ → Client (List Printed)
  smoke_test on_keypackage on_account nanos nanos' = do
    keypackage ← test_keypackage on_keypackage nanos
    account ← test_account on_account nanos'
    pure (keypackage ++ account)

-- ===== src/Handlers/RoundTrips.antt =====
-- What a submission that was answered 204 makes a later GET answer.
use mathlib.Core.Option
use chat_store.Common.{
  String, ◌≡◌, ◌≢◌, refl, inl, inr, eq_refl, true, none, some, arith, All, select,
}
use chat_store.Common.Int.{lt_ℤ}
use chat_store.Common.Exec.{ok, Result-cases}
use chat_store.Rust.{as_i64}
use chat_store.Crates.{Crates}
use chat_store.Store.{Store, Env, StoredKeyPackageBundle, fetch, now_ms}
use chat_store.Store.KeyPackages.{of_device, insert, latest}
use chat_store.Store.KeyPackages.Latest.{latest-insert}
use chat_store.Store.Accounts.{get_account}
use chat_store.Store.Accounts.Reading.{find-put_account}
use chat_store.Store.Cases.{put_account, insert-cases}
use chat_store.Bundle.{Bundle, Error, internal, key_hex, verify, apply_keypackage}
use chat_store.Bundle.Cases.{kept_keypackage, kept_account, apply_account-cases}
use chat_store.Handlers.Errors.{okay, no_content, decode_bundle, to_api_error}
use chat_store.Handlers.Endpoints.{
  SubmitKeyPackageRequest, SubmitAccountRequest, post_keypackage, get_keypackage,
  keypackage_response, post_account, get_account_bundle, keypackage_body, account_body,
  submit_key_package, fetch_key_package, submit_account, fetch_account, handle, serve,
}

module _ (crates : Crates) where
  to_api_error_refuses : (e : Error crates) → (to_api_error crates e).status ≢ no_content
  unfolding to_api_error
  to_api_error_refuses e h = ground arith

  found_keypackage :
      (env : Env) (id : String) (b : StoredKeyPackageBundle) (s : Store)
      → latest env id s ≡ (ok (some b), s)
      → (serve crates env (get_keypackage id) s).0 ≡ keypackage_response crates b
  unfolding serve handle fetch_key_package
  found_keypackage env id b s found = rw found refl

  module _ (env env' : Env) (s : Store) (b : Bundle) where
    account_state :
        (req : SubmitAccountRequest)
        → decode_bundle crates req.account_pub req.payload req.signature ≡ ok b
        → (serve crates env (post_account req) s).0.status ≡ no_content
        → (serve crates env (post_account req) s).1
          ≡ put_account env (key_hex crates b) (kept_account b) s
    unfolding serve handle submit_account
    account_state req decoded accepted = elim (apply_account-cases crates env s b) [
      | inl (e, refused) ↦ absurd (to_api_error_refuses e (rw (decoded, refused) at accepted))
      | inr (lamport, good, long, new, done) ↦ rw (decoded, done) refl
    ]

    -- After an account bundle was answered 204, a GET of its account that the database answers has
    -- the bundle's payload and signature in base64, and the time of the submission.
    pub post-get_account :
        (req : SubmitAccountRequest)
        → decode_bundle crates req.account_pub req.payload req.signature ≡ ok b
        → (serve crates env (post_account req) s).0.status ≡ no_content
        → env'.fault fetch ≡ none
        → (serve crates env'
            (get_account_bundle (key_hex crates b))
            (serve crates env (post_account req) s).1).0
          ≡ record {
            status = okay;
            body = account_body (record {
              payload = crates.base64_encode b.payload;
              signature = crates.base64_encode b.signature;
              updated_at = as_i64 (now_ms env.since_epoch);
            });
          }
    post-get_account req decoded accepted fine = rw (account_state req decoded accepted) (
        unfold serve handle fetch_account get_account Option.map in
        rw (fine, find-put_account, eq_refl (key_hex crates b)) refl)

    keypackage_state :
        (req : SubmitKeyPackageRequest)
        → decode_bundle crates req.device_id req.payload req.signature ≡ ok b
        → (serve crates env (post_keypackage req) s).0.status ≡ no_content
        → insert env (key_hex crates b) (kept_keypackage b) s
          ≡ (ok tt, (serve crates env (post_keypackage req) s).1)
    unfolding serve handle submit_key_package apply_keypackage
    keypackage_state req decoded accepted = elim (Result-cases (verify crates b)) [
      | inr (e, bad) ↦ absurd (to_api_error_refuses e (rw (decoded, bad) at accepted))
      | inl (_, good) ↦ elim (insert-cases env (key_hex crates b) (kept_keypackage b) s) [
        | inl (e, refused) ↦
            absurd (to_api_error_refuses (internal e) (rw (decoded, good, refused) at accepted))
        | inr (free, done) ↦ rw (decoded, good, done) refl
      ]
    ]

    -- After a keypackage was answered 204, where the rows of its device were all received before
    -- that, a GET of the device that the database answers has the payload and signature in base64.
    pub post-get_keypackage :
        (req : SubmitKeyPackageRequest)
        → decode_bundle crates req.device_id req.payload req.signature ≡ ok b
        → (serve crates env (post_keypackage req) s).0.status ≡ no_content
        → All
            (λ r. lt_ℤ r.received_at (as_i64 (now_ms env.since_epoch)) ≡ true)
            (select (of_device (key_hex crates b)) s.keypackages)
        → env'.fault fetch ≡ none
        → (serve crates env'
            (get_keypackage (key_hex crates b))
            (serve crates env (post_keypackage req) s).1).0
          ≡ record {
            status = okay;
            body = keypackage_body (record {
              payload = crates.base64_encode b.payload;
              signature = crates.base64_encode b.signature;
            });
          }
    post-get_keypackage req decoded accepted earlier fine =
        let served =
          latest-insert env env' (key_hex crates b) (kept_keypackage b) s
            (serve crates env (post_keypackage req) s).1 earlier
            (keypackage_state req decoded accepted) fine in
        found_keypackage env' (key_hex crates b) (kept_keypackage b) _ served

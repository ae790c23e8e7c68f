-- ===== src/Tests/RoundTrips.antt =====
-- The round trips over HTTP, and the conflict of logs, at concrete inputs.
use chat_store.Common.{
  ◌≡◌, ◌↔◌, ◌⊎◌, ◌++◌, refl, true, [], ◌∷◌, String, replicate, select, All, arith,
}
use chat_store.Common.Exec.{ok}
use chat_store.Common.Int.{lt_ℤ}
use chat_store.Rust.{as_i64}
use chat_store.Rust.Bytes.{Bytes}
use chat_store.Store.{now_ms}
use chat_store.Store.KeyPackages.{of_device}
use chat_store.Bundle.{key_hex}
use chat_store.Handlers.Errors.{okay, no_content, bad_request, conflict, decode_bundle}
use chat_store.Handlers.Endpoints.{
  SubmitAccountRequest, SubmitKeyPackageRequest, get_keypackage, get_account_bundle, post_account,
  post_keypackage, post_account_log, keypackage_body, account_body, serve,
}
use chat_store.Handlers.RoundTrips.{post-get_account, post-get_keypackage}
use chat_store.Handlers.Acceptance.{IsFresh, post_account-answers}
use chat_store.Handlers.LogConflicts.{IsRefusedLog, log_conflict_iff}
use chat_store.Tests.Fixtures.{demo, at, payload_at, signed_by, text_of}
use chat_store.Tests.Traffic.{after, executable}

abbrev key_7 : String
key_7 = text_of (replicate 32 7)

abbrev publish : SubmitAccountRequest
publish = record {
  account_pub = key_7;
  payload = text_of (payload_at 8);
  signature = text_of (replicate 64 7);
}

publish-decodes :
    decode_bundle demo publish.account_pub publish.payload publish.signature
    ≡ ok (signed_by 7 (payload_at 8))
unfolding executable
publish-decodes = refl

published : (serve demo (at 19) (post_account publish) after).0.status ≡ no_content
unfolding executable
published = refl

post-get_account_example :
    (serve demo
      (at 20)
      (get_account_bundle (key_hex demo (signed_by 7 (payload_at 8))))
      (serve demo (at 19) (post_account publish) after).1).0
    ≡ record {
      status = okay;
      body = account_body (record {
        payload = demo.base64_encode (payload_at 8);
        signature = demo.base64_encode (replicate 64 7);
        updated_at = as_i64 (now_ms (at 19).since_epoch);
      });
    }
post-get_account_example =
    post-get_account demo (at 19) (at 20) after (signed_by 7 (payload_at 8)) publish publish-decodes
      published refl

abbrev offer : SubmitKeyPackageRequest
offer = record {
  device_id = key_7;
  payload = text_of (3 ∷ []);
  signature = text_of (replicate 64 7);
}

offer-decodes :
    decode_bundle demo offer.device_id offer.payload offer.signature ≡ ok (signed_by 7 (3 ∷ []))
unfolding executable
offer-decodes = refl

offered : (serve demo (at 19) (post_keypackage offer) after).0.status ≡ no_content
unfolding executable
offered = refl

after-earlier :
    All
      (λ r. lt_ℤ r.received_at (as_i64 (now_ms (at 19).since_epoch)) ≡ true)
      (select (of_device (key_hex demo (signed_by 7 (3 ∷ [])))) after.keypackages)
unfolding executable
after-earlier = ground arith

post-get_keypackage_example :
    (serve demo
      (at 20)
      (get_keypackage (key_hex demo (signed_by 7 (3 ∷ []))))
      (serve demo (at 19) (post_keypackage offer) after).1).0
    ≡ record {
      status = okay;
      body = keypackage_body (record {
        payload = demo.base64_encode (3 ∷ []);
        signature = demo.base64_encode (replicate 64 7);
      });
    }
post-get_keypackage_example =
    post-get_keypackage demo (at 19) (at 20) after (signed_by 7 (3 ∷ [])) offer offer-decodes
      offered after-earlier refl

-- A log that diverges from the one on file.
abbrev fork : Bytes
fork = replicate 64 9 ++ 3 ∷ []

forks : (serve demo (at 19) (post_account_log "alice" fork) after).0.status ≡ conflict
unfolding executable
forks = refl

log_conflict_iff_example :
    ((serve demo (at 19) (post_account_log "alice" fork) after).0.status ≡ conflict)
    ↔ IsRefusedLog demo (at 19) after "alice" fork
log_conflict_iff_example = log_conflict_iff demo (at 19) after "alice" fork (λ c. refl)

post_account-answers_example :
    (IsFresh demo (at 19) after publish
      × ((serve demo (at 19) (post_account publish) after).0.status ≡ no_content))
    ⊎ ((serve demo (at 19) (post_account publish) after).0.status ≡ bad_request)
    ⊎ ((serve demo (at 19) (post_account publish) after).0.status ≡ conflict)
post_account-answers_example = post_account-answers demo (at 19) after publish (λ c. refl)

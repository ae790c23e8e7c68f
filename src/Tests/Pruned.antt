-- ===== src/Tests/Pruned.antt =====
-- The theorems about pruning and about the two write paths, at concrete inputs.
use mathlib.Core.List.{Memᴰ}
use chat_store.Common.{
  none, ℕ, ◌≤◌, ◌<◌, ◌^◌, ◌*◌, ◌≡◌, refl, String, true, false, Distinct, some, [], ◌∷◌, arith,
  replicate, count,
}
use chat_store.Common.Int.{pos, lt_ℤ}
use chat_store.Common.Exec.{ok}
use chat_store.Rust.{from_secs, as_millis}
use chat_store.Rust.Bytes.{Bytes}
use chat_store.Crates.{Submission}
use chat_store.Store.{Store, Env, empty, KeyPackageRow, retention_cutoff}
use chat_store.Store.KeyPackages.{of_device, same_key, drop_expired, prune_key_packages}
use chat_store.Store.KeyPackages.Pruning.{prune-bounded, prune-newest_first, prune_overflow}
use chat_store.Handlers.Endpoints.{
  SubmitKeyPackageRequest, SubmitAccountRequest, post_keypackage, post_account, serve,
}
use chat_store.Delivery.{key_package, account, ingest_received, ingest_loop}
use chat_store.Delivery.Agreement.{http-delivery_keypackage, http-delivery_account}
use chat_store.Service.{default_cli, run, request}
use chat_store.Service.Runs.Queue.{
  Spells, posts_keypackage, posts_account, junk_keypackage, reposts_none, reposts, drops,
  ingest_loop-posts,
}
use chat_store.Tests.Fixtures.{demo, at, payload_at, signed_by, text_of, wire_of}
use chat_store.Tests.Traffic.{executable}

abbrev row : ℕ → KeyPackageRow
row n = record {
  device_id = "alice";
  received_at = pos (n * 1000);
  payload = n ∷ [];
  signature = replicate 64 n;
}

abbrev history : Store
history = record empty { keypackages = row 10 ∷ row 12 ∷ row 11 ∷ row 1 ∷ [] }

-- The row of second 1 is too old, and of the others the two newest stay.
abbrev pruned : Store
pruned = (prune_key_packages (at 20) 2 (from_secs 15) history).1

prunes : prune_key_packages (at 20) 2 (from_secs 15) history ≡ (ok tt, pruned)
unfolding executable
prunes = refl

pruned_rows : pruned.keypackages ≡ row 12 ∷ row 11 ∷ []
unfolding executable
pruned_rows = refl

history-Distinct : Distinct same_key history.keypackages
unfolding executable
history-Distinct = ground arith

prune-bounded_example : count (of_device "alice") pruned.keypackages ≤ 2
prune-bounded_example =
    prune-bounded (at 20) 2 (from_secs 15) history pruned prunes (omega arith) history-Distinct
      "alice"

left_11 : Memᴰ (row 11) pruned.keypackages
unfolding executable
left_11 = Memᴰ.tail (Memᴰ.head refl)

later_12 : lt_ℤ (row 11).received_at (row 12).received_at ≡ true
unfolding executable
later_12 = refl

prune-newest_first_example : Memᴰ (row 12) pruned.keypackages
prune-newest_first_example =
    prune-newest_first (at 20) 2 (from_secs 15) history pruned prunes (omega arith) (row 11)
      (row 12) left_11 (Memᴰ.tail (Memᴰ.head refl)) refl later_12

abbrev roomy : Store
roomy = (prune_key_packages (at 20) 3 (from_secs 15) history).1

prunes_roomy : prune_key_packages (at 20) 3 (from_secs 15) history ≡ (ok tt, roomy)
unfolding executable
prunes_roomy = refl

room : count (of_device "alice") (drop_expired (at 20) (from_secs 15) history.keypackages) ≤ 3
unfolding executable
room = omega arith

young_10 : lt_ℤ (row 10).received_at (retention_cutoff (at 20) (from_secs 15)) ≡ false
unfolding executable
young_10 = refl

abbrev emptied : Store
emptied = (prune_key_packages (at 20) 9223372036854775808 (from_secs 15) history).1

prunes_all :
    prune_key_packages (at 20) 9223372036854775808 (from_secs 15) history ≡ (ok tt, emptied)
unfolding executable
prunes_all = refl

prune_overflow_example : emptied.keypackages ≡ []
prune_overflow_example =
    prune_overflow (at 20) 9223372036854775808 (from_secs 15) history emptied prunes_all
      (omega arith) (omega arith)

-- Every statement fails.
abbrev broken : Env
broken = record (at 20) { fault = λ _. some "database is locked" }

small_clock : as_millis (from_secs 3000000) < 2 ^ 63
unfolding executable
small_clock = omega arith

abbrev wire : Submission
wire = record { key = replicate 32 7; payload = payload_at 5; signature = replicate 64 7 }

abbrev submission : Bytes
submission = wire_of (signed_by 7 (payload_at 5))

abbrev hex_key : String
hex_key = text_of (replicate 32 7)

parsed_keypackage : demo.decode_keypackage_submission submission ≡ some wire
unfolding executable
parsed_keypackage = refl

decoded_key : demo.hex_decode hex_key ≡ some (replicate 32 7)
decoded_key = refl

decoded_payload : demo.base64_decode (text_of (payload_at 5)) ≡ some (payload_at 5)
unfolding executable
decoded_payload = refl

decoded_signature : demo.base64_decode (text_of (replicate 64 7)) ≡ some (replicate 64 7)
decoded_signature = refl

abbrev keypackage_request : SubmitKeyPackageRequest
keypackage_request = record {
  device_id = hex_key;
  payload = text_of (payload_at 5);
  signature = text_of (replicate 64 7);
}

abbrev account_request : SubmitAccountRequest
account_request = record {
  account_pub = hex_key;
  payload = text_of (payload_at 5);
  signature = text_of (replicate 64 7);
}

http-delivery_keypackage_example :
    (ingest_received demo (at 10) (key_package submission) empty).1
    ≡ (serve demo (at 10) (post_keypackage keypackage_request) empty).1
http-delivery_keypackage_example =
    http-delivery_keypackage demo empty wire (at 10) submission keypackage_request parsed_keypackage
      decoded_key decoded_payload decoded_signature

http-delivery_account_example :
    (ingest_received demo (at 10) (account submission) empty).1
    ≡ (serve demo (at 10) (post_account account_request) empty).1
http-delivery_account_example =
    http-delivery_account demo empty wire (at 10) submission account_request parsed_keypackage
      decoded_key decoded_payload decoded_signature

nothing_parsed : demo.decode_keypackage_submission [] ≡ none
nothing_parsed = refl

spelt :
    Spells demo wire account_request.account_pub account_request.payload account_request.signature
spelt = record {
  spells_key = decoded_key;
  spells_payload = decoded_payload;
  spells_signature = decoded_signature;
}

ingest_loop-posts_example :
    (ingest_loop demo
      ((at 9, key_package []) ∷ (at 10, account submission) ∷ (at 11, key_package submission) ∷ [])
      empty).1
    ≡ run demo default_cli
        ((at 10, request (post_account account_request))
          ∷ (at 11, request (post_keypackage keypackage_request))
          ∷ [])
        empty
ingest_loop-posts_example = ingest_loop-posts demo default_cli _ _ empty (
    drops (at 9) (key_package []) _ _ (junk_keypackage [] nothing_parsed) (
      reposts (at 10) (account submission) (post_account account_request) _ _
        (posts_account submission wire account_request parsed_keypackage spelt)
        (reposts (at 11) (key_package submission) (post_keypackage keypackage_request) _ _
          (posts_keypackage submission wire keypackage_request parsed_keypackage spelt)
          reposts_none)))

-- ===== src/Suite/Bundles/Passing.antt =====
-- The tests of src/bundle.rs on keypackages and account bundles, for any crates that keep their
-- documented laws, any clock and a database that answers.
use mathlib.Core.Option
use chat_store.Common.{
  ℕ, ◌<◌, ◌^◌, String, ◌≡◌, refl, ap, true, false, some, none, eq_refl, arith, find, select,
}
use chat_store.Common.Exec.{ok, err}
use chat_store.Rust.Bytes.{Bytes, IsBytes, eq_bytes_refl}
use chat_store.Crates.{Crates}
use chat_store.Crates.Signing.{Signing, SigningLaws, EncodingLaws, Encoding, MessageLaws}
use chat_store.Store.{Store, Env, empty, fetch}
use chat_store.Store.Lamport.{ascii}
use chat_store.Store.KeyPackages.{newest, latest}
use chat_store.Store.KeyPackages.Latest.{latest-insert}
use chat_store.Store.Cases.{received, add_keypackage, put_account}
use chat_store.Bundle.{Bundle, stale, from_bytes, key_hex, verify, apply_keypackage, apply_account}
use chat_store.Bundle.Cases.{kept_keypackage, kept_account}
use chat_store.Handlers.Conflicts.{Healthy}
use chat_store.Clients.Fetching.{insert-free}
use chat_store.Clients.Publishing.{signed, decode-signed, verify-signed}
use chat_store.Suite.{Surroundings}
use chat_store.Store.Accounts.{stored_lamport, is_stale}
use chat_store.Store.Accounts.Reading.{stored_lamport-put}
use chat_store.Suite.Stores.Passing.{
  payload_lamport-payload_with_lamport, upsert_account-newer, upsert_account-stale, nothing_on_file,
}
use chat_store.Suite.Bundles.{
  sample, short_key_is_rejected, test_key, test_payload, key_bytes, keypackage_submission_proto,
  proto_and_json_keypackage_wires_agree, wire_proto_keypackage_is_parsed_verified_and_stored,
  tampered_keypackage_bundle_is_rejected, account_bundle_upserts_and_rejects_stale_replay,
}

-- `short_key_is_rejected`
short_key : (E : Type 0) (s : Store) → short_key_is_rejected E s ≡ (ok tt, s)
unfolding short_key_is_rejected from_bytes
short_key E s = refl

IsBytes-sample : IsBytes sample
IsBytes-sample = ground arith

nothing_latest : (env : Env) → Healthy env → (id : String) → latest env id empty ≡ (ok none, empty)
unfolding latest select newest Option.map
nothing_latest env fine id = rw (fine fetch) refl

module _ (crates : Crates) (signing : Signing crates) (laws : SigningLaws crates signing) where
  open signing use {SigningKey, verifying_key, verifying_key_to_bytes, sign, signature_to_bytes}

  from_bytes-signed :
      {E : Type 0} (key : SigningKey) (payload : Bytes) (m : Bytes)
      → from_bytes {E = E} (key_bytes crates signing key) payload (signature_to_bytes (sign key m))
        ≡ ok (record {
          key = key_bytes crates signing key;
          payload = payload;
          signature = signature_to_bytes (sign key m);
        })
  unfolding from_bytes
  from_bytes-signed key payload m =
      rw (laws.length-key (verifying_key key), laws.length-signature key m) refl

  module _ (encoding : EncodingLaws crates) (messages : Encoding crates)
      (message_laws : MessageLaws crates messages) where
    decoded_wire :
        (key : SigningKey) (payload : Bytes)
        → IsBytes payload
        → crates.decode_keypackage_submission
            (keypackage_submission_proto crates signing messages key payload)
          ≡ some (record {
            key = key_bytes crates signing key;
            payload = payload;
            signature = signature_to_bytes (sign key payload);
          })
    decoded_wire key payload h =
        message_laws.keypackage_decode-encode _ (laws.IsBytes-key (verifying_key key)) h
          (laws.IsBytes-signature key payload)

    wires_agree :
        (s : Store) → proto_and_json_keypackage_wires_agree crates signing messages s ≡ (ok tt, s)
    unfolding proto_and_json_keypackage_wires_agree
    wires_agree s =
        let key = test_key crates signing 1 in
        rw
          (
            decoded_wire key sample IsBytes-sample,
            from_bytes-signed {E = crates.AccountLogError} key sample sample,
            decode-signed crates signing laws encoding key sample IsBytes-sample,
            eq_refl (key_hex crates (signed crates signing key sample)),
            eq_bytes_refl sample,
            eq_bytes_refl (signature_to_bytes (sign key sample)),
          )
          refl

    module _ (env : Surroundings) (fine : (n : ℕ) → Healthy (env n)) where
      stored_from_wire :
          wire_proto_keypackage_is_parsed_verified_and_stored crates signing messages env empty ≡ (
            ok tt,
            add_keypackage
                (received
                  (env 0)
                  (key_hex crates (signed crates signing (test_key crates signing 1) sample))
                  (kept_keypackage (signed crates signing (test_key crates signing 1) sample)))
                empty,
          )
      unfolding wire_proto_keypackage_is_parsed_verified_and_stored apply_keypackage
      stored_from_wire =
          let key = test_key crates signing 1 in
          let b = signed crates signing key sample in
          let inserted =
            insert-free (env 0) (key_hex crates b) (kept_keypackage b) empty (fine 0)
              (unfold find in refl) in
          rw
            (
              decoded_wire key sample IsBytes-sample,
              from_bytes-signed {E = crates.AccountLogError} key sample sample,
              verify-signed crates signing laws encoding key sample,
              inserted,
              latest-insert (env 0) (env 1) (key_hex crates b) (kept_keypackage b) empty _
                  (unfold select in tt) inserted (fine 1 fetch),
              eq_bytes_refl sample,
            )
            refl

      -- A signature of one payload is no signature of the other.
      tampered_rejected :
          crates.verify_strict
              (signing.verifying_key (test_key crates signing 2))
              (ascii "tampered")
              (signing.sign (test_key crates signing 2) (ascii "original"))
            ≡ false
          → tampered_keypackage_bundle_is_rejected crates signing messages env empty
            ≡ (ok tt, empty)
      unfolding tampered_keypackage_bundle_is_rejected apply_keypackage verify
      tampered_rejected forged =
          let key = test_key crates signing 2 in
          rw
            (
              decoded_wire key (ascii "original") (ground arith),
              from_bytes-signed {E = crates.AccountLogError} key (ascii "tampered")
                  (ascii "original"),
              laws.from_bytes-to_bytes key,
              laws.signature_from_bytes-to_bytes key (ascii "original"),
              forged,
              nothing_latest (env 1) (fine 1) _,
            )
            refl

      abbrev version : ℕ → Bundle
      version lamport = signed crates signing (test_key crates signing 3) (test_payload lamport)

      abbrev account : String
      account = key_hex crates (version 1)

      abbrev published : ℕ → ℕ → Store → Store
      published n lamport s = put_account (env n) account (kept_account (version lamport)) s

      on_file :
          (n lamport : ℕ) (s : Store)
          → lamport < 2 ^ 64
          → stored_lamport account (published n lamport s) ≡ some lamport
      on_file n lamport s small =
          stored_lamport-put (env n) account (kept_account (version lamport)) s lamport
            (payload_lamport-payload_with_lamport lamport small)

      apply_account-newer :
          (n lamport : ℕ) (s : Store)
          → lamport < 2 ^ 64
          → is_stale lamport (stored_lamport account s) ≡ false
          → apply_account crates (env n) (version lamport) s ≡ (ok tt, published n lamport s)
      unfolding apply_account key_hex
      apply_account-newer n lamport s small newer =
          rw
            (
              verify-signed crates signing laws encoding (test_key crates signing 3)
                  (test_payload lamport),
              payload_lamport-payload_with_lamport lamport small,
              upsert_account-newer (env n) (fine n) account s (kept_account (version lamport))
                  lamport newer,
            )
            refl

      apply_account-stale :
          (n lamport : ℕ) (s : Store)
          → lamport < 2 ^ 64
          → is_stale lamport (stored_lamport account s) ≡ true
          → apply_account crates (env n) (version lamport) s ≡ (err stale, s)
      unfolding apply_account key_hex
      apply_account-stale n lamport s small old =
          rw
            (
              verify-signed crates signing laws encoding (test_key crates signing 3)
                  (test_payload lamport),
              payload_lamport-payload_with_lamport lamport small,
              upsert_account-stale (env n) (fine n) account s (kept_account (version lamport))
                  lamport old,
            )
            refl

      stale_replay_rejected :
          account_bundle_upserts_and_rejects_stale_replay crates signing env empty
          ≡ (ok tt, published 1 2 (published 0 1 empty))
      unfolding account_bundle_upserts_and_rejects_stale_replay
      stale_replay_rejected =
          let key = test_key crates signing 3 in
          rw
            (
              from_bytes-signed {E = crates.AccountLogError} key (test_payload 1) (test_payload 1),
              from_bytes-signed {E = crates.AccountLogError} key (test_payload 2) (test_payload 2),
              apply_account-newer 0 1 empty (omega arith)
                  (ap (is_stale 1) (nothing_on_file account)),
              apply_account-newer 1 2 (published 0 1 empty) (omega arith)
                  (ap (is_stale 2) (on_file 0 1 empty (omega arith))),
              apply_account-stale 2 2 (published 1 2 (published 0 1 empty)) (omega arith)
                  (ap (is_stale 2) (on_file 1 2 (published 0 1 empty) (omega arith))),
            )
            refl

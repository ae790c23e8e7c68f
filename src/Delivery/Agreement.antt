-- ===== src/Delivery/Agreement.antt =====
-- The two write paths agree: a message of the delivery queue and a request over HTTP that carry
-- the same three byte strings do the same to the store.
use chat_store.Common.{String, ◌≡◌, refl, sym, ◌∙◌, some, inl, inr}
use chat_store.Common.Exec.{Result, ok, err, Result-cases}
use chat_store.Rust.Bytes.{Bytes}
use chat_store.Crates.{Crates, Submission}
use chat_store.Store.{Store, Env}
use chat_store.Bundle.{Bundle, Error, from_bytes, apply_keypackage, apply_account}
use chat_store.Handlers.Errors.{decode_bundle}
use chat_store.Handlers.Endpoints.{
  SubmitKeyPackageRequest, SubmitAccountRequest, post_keypackage, post_account, submit_key_package,
  submit_account, handle, serve,
}
use chat_store.Delivery.{
  key_package, account, ingest, ingest_keypackage, ingest_account, ingest_received,
}

module _ (crates : Crates) (s : Store) (wire : Submission) where
  module _ (apply : Bundle → Store → Result (Error crates) (Unit {0}) × Store) where
    ingest-ok :
        (b : Bundle)
        → from_bytes {E = crates.AccountLogError} wire.key wire.payload wire.signature ≡ ok b
        → (ingest crates apply (some wire) s).1 ≡ (apply b s).1
    ingest-ok b good = rw (ingest, good) refl

    ingest-err :
        (e : Error crates)
        → from_bytes {E = crates.AccountLogError} wire.key wire.payload wire.signature ≡ err e
        → (ingest crates apply (some wire) s).1 ≡ s
    ingest-err e bad = rw (ingest, bad) refl

  decoded :
      (key payload signature : String)
      → crates.hex_decode key ≡ some wire.key
      → crates.base64_decode payload ≡ some wire.payload
      → crates.base64_decode signature ≡ some wire.signature
      → decode_bundle crates key payload signature ≡ from_bytes wire.key wire.payload wire.signature
  unfolding decode_bundle
  decoded key payload signature k p g = rw (k, p, g) refl

  module _ (env : Env) where
    submit_key_package-ok :
        (req : SubmitKeyPackageRequest) (b : Bundle)
        → decode_bundle crates req.device_id req.payload req.signature ≡ ok b
        → (serve crates env (post_keypackage req) s).1 ≡ (apply_keypackage crates env b s).1
    unfolding serve handle submit_key_package
    submit_key_package-ok req b good = elim (Result-cases (apply_keypackage crates env b s).0) [
      | inl (_, done) ↦ rw (good, done) refl
      | inr (e, refused) ↦ rw (good, refused) refl
    ]

    submit_key_package-err :
        (req : SubmitKeyPackageRequest) (e : Error crates)
        → decode_bundle crates req.device_id req.payload req.signature ≡ err e
        → (serve crates env (post_keypackage req) s).1 ≡ s
    unfolding serve handle submit_key_package
    submit_key_package-err req e bad = rw bad refl

    -- A keypackage message whose protobuf decodes leaves the store as a POST does whose hex key and
    -- base64 payload and signature decode to the message's fields, whether it is accepted or not.
    pub http-delivery_keypackage :
        (bytes : Bytes) (req : SubmitKeyPackageRequest)
        → crates.decode_keypackage_submission bytes ≡ some wire
        → crates.hex_decode req.device_id ≡ some wire.key
        → crates.base64_decode req.payload ≡ some wire.payload
        → crates.base64_decode req.signature ≡ some wire.signature
        → (ingest_received crates env (key_package bytes) s).1
          ≡ (serve crates env (post_keypackage req) s).1
    unfolding ingest_received ingest_keypackage
    http-delivery_keypackage bytes req parsed key payload signature =
        elim (Result-cases
          (from_bytes {E = crates.AccountLogError} wire.key wire.payload wire.signature)) [
            | inl (b, good) ↦ rw parsed (
                ingest-ok (apply_keypackage crates env) b good
                ∙ sym (
                    submit_key_package-ok req b (
                      decoded req.device_id req.payload req.signature key payload signature
                      ∙ good)))
            | inr (e, bad) ↦ rw parsed (
                ingest-err (apply_keypackage crates env) e bad
                ∙ sym (
                    submit_key_package-err req e (
                      decoded req.device_id req.payload req.signature key payload signature ∙ bad)))
          ]

    submit_account-ok :
        (req : SubmitAccountRequest) (b : Bundle)
        → decode_bundle crates req.account_pub req.payload req.signature ≡ ok b
        → (serve crates env (post_account req) s).1 ≡ (apply_account crates env b s).1
    unfolding serve handle submit_account
    submit_account-ok req b good = elim (Result-cases (apply_account crates env b s).0) [
      | inl (_, done) ↦ rw (good, done) refl
      | inr (e, refused) ↦ rw (good, refused) refl
    ]

    submit_account-err :
        (req : SubmitAccountRequest) (e : Error crates)
        → decode_bundle crates req.account_pub req.payload req.signature ≡ err e
        → (serve crates env (post_account req) s).1 ≡ s
    unfolding serve handle submit_account
    submit_account-err req e bad = rw bad refl

    -- An account message whose protobuf decodes leaves the store as a POST of an account bundle does
    -- whose hex key and base64 payload and signature decode to the message's fields, whether it is
    -- accepted or not.
    pub http-delivery_account :
        (bytes : Bytes) (req : SubmitAccountRequest)
        → crates.decode_account_submission bytes ≡ some wire
        → crates.hex_decode req.account_pub ≡ some wire.key
        → crates.base64_decode req.payload ≡ some wire.payload
        → crates.base64_decode req.signature ≡ some wire.signature
        → (ingest_received crates env (account bytes) s).1
          ≡ (serve crates env (post_account req) s).1
    unfolding ingest_received ingest_account
    http-delivery_account bytes req parsed key payload signature =
        elim (Result-cases
          (from_bytes {E = crates.AccountLogError} wire.key wire.payload wire.signature)) [
            | inl (b, good) ↦ rw parsed (
                ingest-ok (apply_account crates env) b good
                ∙ sym (
                    submit_account-ok req b (
                      decoded req.account_pub req.payload req.signature key payload signature
                      ∙ good)))
            | inr (e, bad) ↦ rw parsed (
                ingest-err (apply_account crates env) e bad
                ∙ sym (
                    submit_account-err req e (
                      decoded req.account_pub req.payload req.signature key payload signature
                      ∙ bad)))
          ]

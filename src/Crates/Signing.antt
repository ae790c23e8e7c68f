-- ===== src/Crates/Signing.antt =====
-- The signing side of ed25519_dalek and the encoding side of prost, which only the client programs
-- use, and what ed25519_dalek, hex, base64 and prost document of them.
use chat_store.Common.{true, ◌≡◌, some, length}
use chat_store.Rust.Bytes.{Bytes, IsBytes}
use chat_store.Crates.{Crates, Submission}

module _ (crates : Crates) where
  open crates use {
    VerifyingKey, Signature, verifying_key_from_bytes, signature_from_bytes, verify_strict,
    hex_encode, hex_decode, base64_encode, base64_decode, decode_keypackage_submission,
    decode_account_submission,
  }

  pub record Signing : Type 1 where
    pub SigningKey : Type 0
    -- `SigningKey::from_bytes`, of 32 bytes
    pub key_from_bytes : Bytes → SigningKey
    pub verifying_key : SigningKey → VerifyingKey
    pub verifying_key_to_bytes : VerifyingKey → Bytes
    pub sign : SigningKey → Bytes → Signature
    pub signature_to_bytes : Signature → Bytes

  pub record SigningLaws (signing : Signing) : Type 0 where
    pub from_bytes-to_bytes :
        (k : signing.SigningKey)
        → verifying_key_from_bytes (signing.verifying_key_to_bytes (signing.verifying_key k))
          ≡ some (signing.verifying_key k)
    pub length-key : (v : VerifyingKey) → length (signing.verifying_key_to_bytes v) ≡ 32
    pub IsBytes-key : (v : VerifyingKey) → IsBytes (signing.verifying_key_to_bytes v)
    pub signature_from_bytes-to_bytes :
        (k : signing.SigningKey) (m : Bytes)
        → signature_from_bytes (signing.signature_to_bytes (signing.sign k m)) ≡ signing.sign k m
    pub length-signature :
        (k : signing.SigningKey) (m : Bytes)
        → length (signing.signature_to_bytes (signing.sign k m)) ≡ 64
    pub IsBytes-signature :
        (k : signing.SigningKey) (m : Bytes)
        → IsBytes (signing.signature_to_bytes (signing.sign k m))
    -- A signature verifies, also by the strict rules, under the key that made it.
    pub verify_strict-sign :
        (k : signing.SigningKey) (m : Bytes)
        → verify_strict (signing.verifying_key k) m (signing.sign k m) ≡ true

  -- Both encoders are undone by their decoders.
  pub record EncodingLaws : Type 0 where
    pub hex_decode-encode : (b : Bytes) → IsBytes b → hex_decode (hex_encode b) ≡ some b
    pub base64_decode-encode : (b : Bytes) → IsBytes b → base64_decode (base64_encode b) ≡ some b

  -- prost's `encode_to_vec` of the two messages.
  pub record Encoding : Type 0 where
    pub encode_keypackage_submission : Submission → Bytes
    pub encode_account_submission : Submission → Bytes

  -- A message is decoded from what it is encoded as.
  pub record MessageLaws (messages : Encoding) : Type 0 where
    pub keypackage_decode-encode :
        (m : Submission)
        → IsBytes m.key
        → IsBytes m.payload
        → IsBytes m.signature
        → decode_keypackage_submission (messages.encode_keypackage_submission m) ≡ some m
    pub account_decode-encode :
        (m : Submission)
        → IsBytes m.key
        → IsBytes m.payload
        → IsBytes m.signature
        → decode_account_submission (messages.encode_account_submission m) ≡ some m

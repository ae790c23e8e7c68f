-- ===== src/Clients/Benchmark/Payloads.antt =====
-- The keys and payloads of examples/benchmark.rs.
use Prim.Native.Nat.{bit_or}
use mathlib.Core.List.{append_assoc}
use chat_store.Common.{
  ℕ, zero, suc, ◌+◌, ◌<◌, ◌≡◌, some, arith, All-append, ◌*◌, ◌%◌, ◌^◌, [], ◌∷◌, ◌++◌, length,
  replicate,
}
use chat_store.Rust.{as_u64}
use chat_store.Rust.Bytes.{Bytes, IsByte, IsBytes, to_le_bytes, IsBytes-to_le_bytes}
use chat_store.Crates.{Crates}
use chat_store.Crates.Signing.{Signing}
use chat_store.Store.Lamport.{ascii, payload_lamport}
use chat_store.Store.Lamport.Layout.{payload_lamport-header}
use chat_store.Clients.Requests.{resize, resize-length, IsBytes-resize}

abbrev pub account_bundle_domain : Bytes
account_bundle_domain = ascii "libchat:account-device-bundle" ++ 0 ∷ []

-- The domain, the version and the lamport.
abbrev pub account_header : ℕ → Bytes
account_header lamport = account_bundle_domain ++ 1 ∷ to_le_bytes 8 lamport

unfoldable pub account_payload : ℕ → ℕ → Bytes
account_payload lamport payload_bytes =
    let payload = account_header lamport in resize (length payload + payload_bytes) b'a' payload

unfoldable pub keypackage_payload : ℕ → ℕ → Bytes
keypackage_payload sequence payload_bytes = resize (8 + payload_bytes) b'k' (to_le_bytes 8 sequence)

-- `(worker as u64) << 32 | operation as u64`
unfoldable pub sequence_of : ℕ → ℕ → ℕ
sequence_of worker operation = bit_or (as_u64 (as_u64 worker * 2 ^ 32)) (as_u64 operation)

-- `(index as u8).wrapping_mul(37).wrapping_add(11)` for so many indices from the given one on
unfoldable pub filler : ℕ → ℕ → Bytes
filler zero index = []
filler (suc n) index = ((index % 256 * 37 % 256 + 11) % 256) ∷ filler n (index + 1)

unfoldable pub seed : ℕ → Bytes
seed sequence = to_le_bytes 8 sequence ++ filler 24 0

-- A flow has the key of a device and that of an account, each made from a number of its own, in a
-- release build, where `*` and `+` wrap.
pub data Role : Type 0 where
  as_device as_account : Role

abbrev pub key_number : Role → ℕ → ℕ
key_number as_device sequence = as_u64 (sequence * 2)
key_number as_account sequence = as_u64 (as_u64 (sequence * 2) + 1)

abbrev pub signing_key : (crates : Crates) (signing : Signing crates) → ℕ → signing.SigningKey
signing_key crates signing sequence = signing.key_from_bytes (seed sequence)

pub IsBytes-keypackage_payload : (sequence n : ℕ) → IsBytes (keypackage_payload sequence n)
unfolding keypackage_payload
IsBytes-keypackage_payload sequence n =
    IsBytes-resize (8 + n) b'k' (to_le_bytes 8 sequence) (omega arith)
      (IsBytes-to_le_bytes 8 sequence)

IsBytes-account_header : (lamport : ℕ) → IsBytes (account_header lamport)
IsBytes-account_header lamport =
    All-append IsByte account_bundle_domain (1 ∷ to_le_bytes 8 lamport) (ground arith)
      (omega arith, IsBytes-to_le_bytes 8 lamport)

pub IsBytes-account_payload : (lamport n : ℕ) → IsBytes (account_payload lamport n)
unfolding account_payload
IsBytes-account_payload lamport n =
    IsBytes-resize (length (account_header lamport) + n) b'a' (account_header lamport) (omega arith)
      (IsBytes-account_header lamport)

-- The payload has the layout that the service reads the lamport by.
pub payload_lamport-account_payload :
    (lamport n : ℕ) → lamport < 2 ^ 64 → payload_lamport (account_payload lamport n) ≡ some lamport
unfolding account_payload
payload_lamport-account_payload lamport n small =
    rw
      (
        resize-length (account_header lamport) n b'a',
        append_assoc account_bundle_domain (1 ∷ to_le_bytes 8 lamport) (replicate n b'a'),
      )
      (payload_lamport-header 1 lamport (replicate n b'a') small)

-- ===== src/Store/Lamport.antt =====
-- `payload_lamport` of src/store.rs: the version that an account bundle's payload carries.
pub mod Layout
use Prim.Native.Char.{code}
use Prim.Native.String
use mathlib.Core.Option
use chat_store.Common.{ℕ, String, Option, List, [], ◌∷◌, ◌++◌}
use chat_store.Rust.Bytes.{Bytes, strip_prefix, get_range, from_le_bytes}

-- The bytes of an ASCII text.
abbrev pub ascii : String → Bytes
ascii String.[] = []
ascii (String.◌∷◌ c s) = code c ∷ ascii s

-- `BUNDLE_DOMAIN`
abbrev pub bundle_domain : Bytes
bundle_domain = ascii "libchat:account-device-bundle" ++ 0 ∷ []

unfoldable pub payload_lamport : Bytes → Option ℕ
payload_lamport payload =
    Option.map from_le_bytes (Option.bind (strip_prefix payload bundle_domain) (get_range 1 9))

-- ===== src/Store/Lamport/Layout.antt =====
-- Which payloads have a lamport: `domain | version:u8 | lamport:u64 LE | …`.
use mathlib.Core.Option
use mathlib.Core.Path.{ap₂}
use chat_store.Common.{
  ℕ, ◌<◌, ◌^◌, ◌≡◌, sym, ap, subst, ◌∙◌, All-of-append, some, [], ◌∷◌, ◌++◌, arith, length,
}
use chat_store.Rust.Bytes.{
  Bytes, IsByte, IsBytes, range, strip_prefix-append, strip_prefix-eq-some, get_range,
  from_le_bytes, to_le_bytes, from_le_bytes-to_le_bytes, to_le_bytes-from_le_bytes,
  from_le_bytes-lt,
}
use chat_store.Store.Lamport.{bundle_domain, payload_lamport}

-- The payload after its domain: a version byte, the eight bytes of the lamport, and the rest.
abbrev pub header : ℕ → ℕ → Bytes → Bytes
header version lamport rest = version ∷ to_le_bytes 8 lamport ++ rest

-- The bytes 1..9 of a header are those of its lamport.
get_range-header :
    (v n : ℕ) (rest : Bytes) → get_range 1 9 (header v n rest) ≡ some (to_le_bytes 8 n)
unfolding get_range to_le_bytes
get_range-header v n rest = ground arith

get_range-eq-some :
    (xs bytes : Bytes)
    → get_range 1 9 xs ≡ some bytes
    → (v : ℕ) × (rest : Bytes) × (xs ≡ v ∷ bytes ++ rest) × (length bytes ≡ 8)
unfolding get_range
get_range-eq-some (v ∷ a ∷ b ∷ c ∷ d ∷ e ∷ f ∷ g ∷ i ∷ rest) bytes h =
    let same : a ∷ b ∷ c ∷ d ∷ e ∷ f ∷ g ∷ i ∷ [] ≡ bytes = ground arith in
    (v, rest, ap (λ bs. v ∷ bs ++ rest) same, sym (ap length same))
get_range-eq-some _ bytes h = ground arith

-- A payload of the layout has the lamport that its header carries, whatever the version byte and
-- whatever follows the header.
pub payload_lamport-header :
    (version lamport : ℕ) (rest : Bytes)
    → lamport < 2 ^ 64
    → payload_lamport (bundle_domain ++ header version lamport rest) ≡ some lamport
unfolding payload_lamport Option.map Option.bind
payload_lamport-header version lamport rest h =
    rw
      (
        strip_prefix-append bundle_domain (header version lamport rest),
        get_range-header version lamport rest,
      )
      (ap some (from_le_bytes-to_le_bytes 8 lamport h))

-- Only a payload of the layout has a lamport, and it is a `u64`.
pub payload_lamport-eq-some :
    (payload : Bytes) (lamport : ℕ)
    → IsBytes payload
    → payload_lamport payload ≡ some lamport
    → (version : ℕ) × (rest : Bytes) × (payload ≡ bundle_domain ++ header version lamport rest)
      × (lamport < 2 ^ 64)
unfolding payload_lamport
payload_lamport-eq-some payload lamport h e =
    let (bytes, found, value) = (Option.map-eq-some_iff _ _).0 e in
    let (body, stripped, ranged) = (Option.bind-eq-some_iff _ _).0 found in
    let split = strip_prefix-eq-some bundle_domain payload stripped in
    let (v, rest, at, eight) = get_range-eq-some body bytes ranged in
    let in_body = (All-of-append IsByte bundle_domain body (subst IsBytes split h)).1 in
    let small = (All-of-append IsByte bytes rest (subst IsBytes at in_body).1).0 in
    let same : to_le_bytes 8 lamport ≡ bytes =
      ap₂ to_le_bytes (sym eight) (sym value) ∙ to_le_bytes-from_le_bytes bytes small in
    let bound : from_le_bytes bytes < range 8 =
      subst (λ w. from_le_bytes bytes < range w) eight (from_le_bytes-lt bytes small) in
    (
      v,
      rest,
      split ∙ ap (λ b. bundle_domain ++ b) (at ∙ ap (λ bs. v ∷ bs ++ rest) (sym same)),
      subst (λ n. n < 2 ^ 64) value bound,
    )

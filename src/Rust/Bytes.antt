-- ===== src/Rust/Bytes.antt =====
-- Byte slices: `strip_prefix`, `get(lo..hi)` and little-endian integers.
use chat_store.Common.{
  ℕ, zero, suc, ◌+◌, ◌-◌, ◌*◌, ◌/◌, ◌%◌, ◌<◌, ◌≡◌, refl, ap, Bool, true, false, ◌&&◌, Option, none,
  some, List, [], ◌∷◌, ◌++◌, arith, leb, beq, beq_iff, Bool-cases, inl, inr, if◌then◌else◌, length,
  take, drop, All,
}

abbrev pub Bytes : Type 0
Bytes = List ℕ

abbrev pub IsByte : ℕ → Type 0
IsByte b = b < 256

abbrev pub IsBytes : Bytes → Type 0
IsBytes = All IsByte

-- `==` of byte slices
unfoldable pub eq_bytes : Bytes → Bytes → Bool
eq_bytes [] [] = true
eq_bytes (x ∷ xs) (y ∷ ys) = beq x y && eq_bytes xs ys
eq_bytes _ _ = false

-- `slice.strip_prefix(prefix)`
unfoldable pub strip_prefix : Bytes → Bytes → Option Bytes
strip_prefix xs [] = some xs
strip_prefix [] (p ∷ ps) = none
strip_prefix (x ∷ xs) (p ∷ ps) = if beq x p then strip_prefix xs ps else none

-- `slice.get(lo..hi)`: `None` where the range does not lie in the slice.
unfoldable pub get_range : ℕ → ℕ → Bytes → Option Bytes
get_range lo hi xs =
    if leb lo hi && leb hi (length xs) then some (take (hi - lo) (drop lo xs)) else none

-- `u64::from_le_bytes`
unfoldable pub from_le_bytes : Bytes → ℕ
from_le_bytes [] = 0
from_le_bytes (b ∷ bs) = b + 256 * from_le_bytes bs

-- `n.to_le_bytes()` of an integer of `w` bytes
unfoldable pub to_le_bytes : ℕ → ℕ → Bytes
to_le_bytes zero n = []
to_le_bytes (suc w) n = (n % 256) ∷ to_le_bytes w (n / 256)

pub strip_prefix-append : (ps xs : Bytes) → strip_prefix (ps ++ xs) ps ≡ some xs
unfolding strip_prefix
strip_prefix-append [] xs = refl
strip_prefix-append (p ∷ ps) xs = ground (arith, strip_prefix-append ps xs)

pub strip_prefix-eq-some :
    (ps xs : Bytes) {rest : Bytes} → strip_prefix xs ps ≡ some rest → xs ≡ ps ++ rest
unfolding strip_prefix
strip_prefix-eq-some [] xs h = cc
strip_prefix-eq-some (p ∷ ps) [] h = cc
strip_prefix-eq-some (p ∷ ps) (x ∷ xs) {rest} h = elim (Bool-cases (beq x p)) [
  | inl same ↦ cc (strip_prefix-eq-some ps xs (rw same at h), (beq_iff x p).0 same)
  | inr other ↦ ground (arith, h)
]

pub length-to_le_bytes : (w n : ℕ) → length (to_le_bytes w n) ≡ w
unfolding to_le_bytes
length-to_le_bytes zero n = refl
length-to_le_bytes (suc w) n = ap suc (length-to_le_bytes w (n / 256))

pub IsBytes-to_le_bytes : (w n : ℕ) → IsBytes (to_le_bytes w n)
unfolding to_le_bytes
IsBytes-to_le_bytes zero n = tt
IsBytes-to_le_bytes (suc w) n = (omega arith, IsBytes-to_le_bytes w (n / 256))

-- The integers of `w` bytes, `256 ^ w`.
abbrev pub range : ℕ → ℕ
range zero = 1
range (suc w) = 256 * range w

pub from_le_bytes-to_le_bytes : (w n : ℕ) → n < range w → from_le_bytes (to_le_bytes w n) ≡ n
unfolding from_le_bytes to_le_bytes
from_le_bytes-to_le_bytes zero n h = omega arith
from_le_bytes-to_le_bytes (suc w) n h =
    omega (arith, from_le_bytes-to_le_bytes w (n / 256) (omega arith))

pub from_le_bytes-lt : (bs : Bytes) → IsBytes bs → from_le_bytes bs < range (length bs)
unfolding from_le_bytes
from_le_bytes-lt [] h = omega arith
from_le_bytes-lt (b ∷ bs) (h, hs) = omega (arith, from_le_bytes-lt bs hs)

pub to_le_bytes-from_le_bytes :
    (bs : Bytes) → IsBytes bs → to_le_bytes (length bs) (from_le_bytes bs) ≡ bs
unfolding from_le_bytes to_le_bytes
to_le_bytes-from_le_bytes [] h = refl
to_le_bytes-from_le_bytes (b ∷ bs) (h, hs) =
    let n = from_le_bytes bs in
    let low : (b + 256 * n) % 256 ≡ b = omega arith in
    let high : (b + 256 * n) / 256 ≡ n = omega arith in
    rw (low, high) (ap (λ r. b ∷ r) (to_le_bytes-from_le_bytes bs hs))

pub eq_bytes_refl : (xs : Bytes) → eq_bytes xs xs ≡ true
unfolding eq_bytes
eq_bytes_refl [] = refl
eq_bytes_refl (x ∷ xs) = ground (arith, eq_bytes_refl xs)

pub eq_bytes_comm : (xs ys : Bytes) → eq_bytes xs ys ≡ eq_bytes ys xs
unfolding eq_bytes
eq_bytes_comm [] [] = refl
eq_bytes_comm [] (y ∷ ys) = refl
eq_bytes_comm (x ∷ xs) [] = refl
eq_bytes_comm (x ∷ xs) (y ∷ ys) = ground (arith, eq_bytes_comm xs ys)

-- Slices that compare equal are equal.
pub eq_bytes_sound : (xs ys : Bytes) → eq_bytes xs ys ≡ true → xs ≡ ys
unfolding eq_bytes
eq_bytes_sound [] [] h = refl
eq_bytes_sound [] (y ∷ ys) h = cc
eq_bytes_sound (x ∷ xs) [] h = cc
eq_bytes_sound (x ∷ xs) (y ∷ ys) h = ground (arith, eq_bytes_sound xs ys, beq_iff x y, h)

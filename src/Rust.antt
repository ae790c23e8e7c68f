-- ===== src/Rust.antt =====
-- What the source uses of Rust itself: fixed-width casts, `Duration`, byte slices.
pub mod Bytes
use chat_store.Common.{ℕ, ◌+◌, ◌-◌, ◌*◌, ◌/◌, ◌%◌, ◌^◌, ltb, if◌then◌else◌}
use chat_store.Common.Int.{ℤ, pos, negsuc}

-- `n as u64`
unfoldable pub as_u64 : ℕ → ℕ
as_u64 n = n % 2 ^ 64

-- `n as i64` of a `u64` or `usize`: the same 64 bits, read as two's complement.
unfoldable pub as_i64 : ℕ → ℤ
as_i64 n = if ltb n (2 ^ 63) then pos n else negsuc (2 ^ 64 - n - 1)

-- `u64::saturating_sub`: subtraction on ℕ stops at 0.
abbrev pub saturating_sub : ℕ → ℕ → ℕ
saturating_sub a b = a - b

pub record Duration : Type 0 where
  pub secs : ℕ
  pub nanos : ℕ

abbrev pub from_secs : ℕ → Duration
from_secs secs = record { secs = secs; nanos = 0 }

-- `Duration::as_millis`, a `u128`
unfoldable pub as_millis : Duration → ℕ
as_millis d = d.secs * 1000 + d.nanos / 1000000

-- ===== src/Common/Int.antt =====
-- Signed integers over the native numbers, with the order that SQL compares INTEGER columns by.
use Prim.Native.Nat.{ℕ, suc, ◌+◌}
use mathlib.Core.Path.{◌≡◌}
use mathlib.Core.Logic.{◌↔◌}
use mathlib.Core.Bool.{Bool, true, false}
use native.Mathlib.Omega.{arith}
use chat_store.Common.Tests.{ltb, beq}

-- `negsuc n` is -(n + 1).
pub data ℤ : Type 0 where
  pos : ℕ → ℤ
  negsuc : ℕ → ℤ

abbrev pub pos_part : ℤ → ℕ
pos_part (pos n) = n
pos_part (negsuc n) = 0

abbrev pub neg_part : ℤ → ℕ
neg_part (pos n) = 0
neg_part (negsuc n) = suc n

unfoldable pub lt_ℤ : ℤ → ℤ → Bool
lt_ℤ a b = ltb (pos_part a + neg_part b) (pos_part b + neg_part a)

unfoldable pub eq_ℤ : ℤ → ℤ → Bool
eq_ℤ a b = beq (pos_part a + neg_part b) (pos_part b + neg_part a)

pub eq_ℤ_iff : (a b : ℤ) → (eq_ℤ a b ≡ true) ↔ (a ≡ b)
unfolding eq_ℤ
eq_ℤ_iff a b = ground arith

pub lt_ℤ-irrefl : (a : ℤ) → lt_ℤ a a ≡ false
unfolding lt_ℤ
lt_ℤ-irrefl a = ground arith

pub lt_ℤ-asymm : (a b : ℤ) → lt_ℤ a b ≡ true → lt_ℤ b a ≡ false
unfolding lt_ℤ
lt_ℤ-asymm a b h = ground arith

pub lt_ℤ-trans : (a b c : ℤ) → lt_ℤ a b ≡ true → lt_ℤ b c ≡ true → lt_ℤ a c ≡ true
unfolding lt_ℤ
lt_ℤ-trans a b c h k = ground arith

-- The order read the other way round: `a ≥ b ≥ c`.
pub not-lt_ℤ-trans : (a b c : ℤ) → lt_ℤ a b ≡ false → lt_ℤ b c ≡ false → lt_ℤ a c ≡ false
unfolding lt_ℤ
not-lt_ℤ-trans a b c h k = ground arith

-- `a ≥ c > b`
pub not-lt_ℤ-of_lt : (a b c : ℤ) → lt_ℤ b c ≡ true → lt_ℤ a c ≡ false → lt_ℤ a b ≡ false
unfolding lt_ℤ
not-lt_ℤ-of_lt a b c h k = ground arith

-- `a > b ≥ c`
pub not-lt_ℤ-after : (a b c : ℤ) → lt_ℤ b a ≡ true → lt_ℤ b c ≡ false → lt_ℤ a c ≡ false
unfolding lt_ℤ
not-lt_ℤ-after a b c h k = ground arith

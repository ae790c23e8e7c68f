-- ===== src/Clients/Benchmark/Seeds.antt =====
-- The seeds of the keys of a benchmark run: no two flows share one.
use Prim.Native.Nat.{max, digits, bit_or-bitwise}
use native.Mathlib.Nat.{pow-suc}
use chat_store.Common.{
  ℕ, zero, suc, ◌+◌, ◌*◌, ◌/◌, ◌^◌, ◌≤◌, ◌<◌, ◌≡◌, refl, sym, ap, ◌∙◌, arith, take,
}
use chat_store.Rust.{as_u64}
use chat_store.Rust.Bytes.{to_le_bytes, from_le_bytes, from_le_bytes-to_le_bytes}
use chat_store.Clients.Benchmark.Payloads.{
  sequence_of, seed, Role, as_device, as_account, key_number,
}

-- `|` digit by digit, with as many digits to go as the first number says.
abbrev or_digits : ℕ → ℕ → ℕ → ℕ
or_digits n a b = digits (λ d. d) max n a b

or_digits-empty : (n b : ℕ) → or_digits n 0 b ≡ b
or_digits-empty zero b = refl
or_digits-empty (suc n) b = refl

or_digits-zero : (n a : ℕ) → a ≤ n → or_digits n a 0 ≡ a
or_digits-zero n zero h = or_digits-empty n 0
or_digits-zero zero (suc a) h = absurd (omega arith)
or_digits-zero (suc n) (suc a) h = omega (arith, or_digits-zero n (suc a / 2) (omega arith))

-- Where the second number fits the zeros at the end of the first, the digits are added.
or_digits-add : (n k q a b : ℕ) → a ≡ q * 2 ^ k → b < 2 ^ k → a ≤ n → or_digits n a b ≡ a + b
or_digits-add n zero q a b e small h =
    let none_left : b ≡ 0 = omega arith in rw none_left (omega (arith, or_digits-zero n a h))
or_digits-add n (suc k) q zero b e small h = omega (arith, or_digits-empty n b)
or_digits-add zero (suc k) q (suc a) b e small h = absurd (omega arith)
or_digits-add (suc n) (suc k) q (suc a) b e small h =
    let double : 2 ^ suc k ≡ 2 * 2 ^ k = omega (arith, pow-suc 2 k) in
    let even : suc a ≡ 2 * (q * 2 ^ k) = omega (arith, e, ap (λ p. q * p) double) in
    let half : b / 2 < 2 ^ k = omega arith in
    omega (
      arith,
      double,
      even,
      or_digits-add n k q (suc a / 2) (b / 2) (omega arith) half (omega arith),
    )

sequence_of_lem :
    (worker operation : ℕ)
    → worker < 2 ^ 32
    → operation < 2 ^ 32
    → sequence_of worker operation ≡ worker * 2 ^ 32 + operation
unfolding sequence_of as_u64
sequence_of_lem worker operation h k =
    let shifted : as_u64 (as_u64 worker * 2 ^ 32) ≡ worker * 2 ^ 32 = omega arith in
    let kept : as_u64 operation ≡ operation = omega arith in
    rw (shifted, kept)
      (bit_or-bitwise (worker * 2 ^ 32) operation
        ∙ or_digits-add (worker * 2 ^ 32) 32 worker (worker * 2 ^ 32) operation refl k
            (omega arith))

-- The first eight bytes of a seed are its number.
seed-injective : (m n : ℕ) → m < 2 ^ 64 → n < 2 ^ 64 → seed m ≡ seed n → m ≡ n
unfolding seed to_le_bytes
seed-injective m n h k same =
    sym (from_le_bytes-to_le_bytes 8 m h)
    ∙ ap (λ s. from_le_bytes (take 8 s)) same
    ∙ from_le_bytes-to_le_bytes 8 n k

abbrev role_bit : Role → ℕ
role_bit as_device = 0
role_bit as_account = 1

role_bit-injective : (r r' : Role) → role_bit r ≡ role_bit r' → r ≡ r'
role_bit-injective r r' h = ground arith

key_number_lem :
    (role : Role) (worker operation : ℕ)
    → worker < 2 ^ 31
    → operation < 2 ^ 32
    → key_number role (sequence_of worker operation)
      ≡ worker * 2 ^ 33 + operation * 2 + role_bit role
unfolding as_u64
key_number_lem as_device worker operation h k =
    omega (arith, sequence_of_lem worker operation (omega arith) k)
key_number_lem as_account worker operation h k =
    omega (arith, sequence_of_lem worker operation (omega arith) k)

role_bit-lt : (r : Role) → role_bit r < 2
role_bit-lt as_device = omega arith
role_bit-lt as_account = omega arith

-- With fewer than 2^31 workers and 2^32 operations of each, a seed belongs to one key of one flow:
-- two keys with the same seed have the same role, worker and operation.
pub seed_unique :
    (role role' : Role) (worker operation worker' operation' : ℕ)
    → worker < 2 ^ 31
    → operation < 2 ^ 32
    → worker' < 2 ^ 31
    → operation' < 2 ^ 32
    → seed (key_number role (sequence_of worker operation))
      ≡ seed (key_number role' (sequence_of worker' operation'))
    → (role ≡ role') × (worker ≡ worker') × (operation ≡ operation')
seed_unique role role' worker operation worker' operation' w o w' o' same =
    let n = key_number_lem role worker operation w o in
    let n' = key_number_lem role' worker' operation' w' o' in
    let b = role_bit-lt role in
    let b' = role_bit-lt role' in
    let e = seed-injective _ _ (omega arith) (omega arith) same in
    (role_bit-injective role role' (omega arith), omega arith, omega arith)

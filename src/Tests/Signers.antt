-- ===== src/Tests/Signers.antt =====
-- Stand-ins for the crates whose laws for signers can be proved: a text encoding that counts, a
-- signature that is a sum, and messages with the lengths of their parts.
use Prim.Native.Char.{code}
use mathlib.Core.Option
use native.Mathlib.Nat.{mod-lt}
use chat_store.Common.{
  ◌++◌, take, drop, ap, ℕ, zero, suc, ◌+◌, ◌%◌, ◌≡◌, ◌<◌, sym, subst, ◌∙◌, some-injective,
  All-append, refl, String, true, false, Option, none, some, [], ◌∷◌, arith, beq, if◌then◌else◌,
  length, replicate,
}
use chat_store.Rust.Bytes.{
  Bytes, IsByte, IsBytes, range, from_le_bytes, to_le_bytes, length-to_le_bytes,
  IsBytes-to_le_bytes, from_le_bytes-to_le_bytes, from_le_bytes-lt, to_le_bytes-from_le_bytes,
}
use chat_store.Crates.{Crates, Submission}
use chat_store.Crates.Signing.{Signing, SigningLaws, EncodingLaws, Encoding, MessageLaws}
use chat_store.Clients.Requests.{IsBytes-replicate, length-replicate}
use chat_store.Clients.Benchmark.Work.{sum}
use chat_store.Clients.Benchmark.Payloads.{filler, seed}
use chat_store.Clients.Benchmark.Workers.{AreDistinct}
use chat_store.Tests.Fixtures.{demo}

-- A byte as so many ones and a zero. Any other text is refused.
abbrev ones : ℕ → String → String
ones zero s = String.◌∷◌ "0" s
ones (suc n) s = String.◌∷◌ "1" (ones n s)

abbrev encode : Bytes → String
encode [] = String.[]
encode (b ∷ bs) = ones b (encode bs)

abbrev decode_from : ℕ → String → Option Bytes
decode_from n String.[] = if beq n 0 then some [] else none
decode_from n (String.◌∷◌ c s) = elim (beq (code c) b'1') [
  | true ↦ decode_from (suc n) s
  | false ↦ elim (beq (code c) b'0') [
    | true ↦ Option.map (λ bs. n ∷ bs) (decode_from 0 s)
    | false ↦ none
  ]
]

decode_from-ones :
    (n m : ℕ) (s : String)
    → decode_from m (ones n s) ≡ Option.map (λ bs. (n + m) ∷ bs) (decode_from 0 s)
decode_from-ones zero m s = let none_yet : 0 + m ≡ m = omega arith in rw none_yet refl
decode_from-ones (suc n) m s =
    let count : n + suc m ≡ suc n + m = omega arith in rw (← count) (decode_from-ones n (suc m) s)

decode-encode : (bs : Bytes) → decode_from 0 (encode bs) ≡ some bs
decode-encode [] = refl
decode-encode (b ∷ bs) =
    let count : b + 0 ≡ b = omega arith in
    rw (decode_from-ones b 0 (encode bs), decode-encode bs, count) refl

abbrev head_or_zero : Bytes → ℕ
head_or_zero [] = 0
head_or_zero (b ∷ bs) = b

-- A message is the lengths of the key and the signature, and the three parts.
abbrev join_message : Submission → Bytes
join_message m = length m.key ∷ length m.signature ∷ m.key ++ (m.signature ++ m.payload)

abbrev split_message : Bytes → Option Submission
split_message (k ∷ g ∷ rest) =
    some (record {
      key = take k rest;
      payload = drop g (drop k rest);
      signature = take g (drop k rest);
    })
split_message _ = none

take-append : (xs ys : Bytes) → take (length xs) (xs ++ ys) ≡ xs
take-append [] ys = refl
take-append (x ∷ xs) ys = ap (λ r. x ∷ r) (take-append xs ys)

drop-append : (xs ys : Bytes) → drop (length xs) (xs ++ ys) ≡ ys
drop-append [] ys = refl
drop-append (x ∷ xs) ys = drop-append xs ys

split-join : (m : Submission) → split_message (join_message m) ≡ some m
split-join m =
    rw
      (
        take-append m.key (m.signature ++ m.payload),
        drop-append m.key (m.signature ++ m.payload),
        take-append m.signature m.payload,
        drop-append m.signature m.payload,
      )
      refl

-- A key is a number of 32 bytes, and a signature the sum of the key and the message.
abbrev pub summing : Crates
summing = record demo {
  VerifyingKey = ℕ;
  Signature = ℕ;
  verifying_key_from_bytes = λ bytes. some (from_le_bytes bytes);
  signature_from_bytes = head_or_zero;
  verify_strict = λ key payload signature. beq ((key + sum payload) % 256) signature;
  hex_encode = encode;
  hex_decode = decode_from 0;
  base64_encode = encode;
  base64_decode = decode_from 0;
  decode_keypackage_submission = split_message;
  decode_account_submission = split_message;
}

abbrev pub joining : Encoding summing
joining = record {
  encode_keypackage_submission = join_message;
  encode_account_submission = join_message;
}

pub joining-MessageLaws : MessageLaws summing joining
joining-MessageLaws = record {
  keypackage_decode-encode = λ m _ _ _. split-join m;
  account_decode-encode = λ m _ _ _. split-join m;
}

abbrev pub adder : Signing summing
adder = record {
  SigningKey = ℕ;
  key_from_bytes = from_le_bytes;
  verifying_key = λ key. key % range 32;
  verifying_key_to_bytes = λ key. to_le_bytes 32 key;
  sign = λ key payload. (key % range 32 + sum payload) % 256;
  signature_to_bytes = λ signature. replicate 64 (signature % 256);
}

pub adder-SigningLaws : SigningLaws summing adder
adder-SigningLaws = record {
  from_bytes-to_bytes =
      λ k. ap some (from_le_bytes-to_le_bytes 32 (k % range 32) (mod-lt k (omega arith)));
  length-key = λ v. length-to_le_bytes 32 v;
  IsBytes-key = λ v. IsBytes-to_le_bytes 32 v;
  signature_from_bytes-to_bytes = λ k m.
      let once : (k % range 32 + sum m) % 256 % 256 ≡ (k % range 32 + sum m) % 256 = omega arith in
      once;
  length-signature = λ k m. length-replicate 64 ((k % range 32 + sum m) % 256 % 256);
  IsBytes-signature =
      λ k m. IsBytes-replicate 64 ((k % range 32 + sum m) % 256 % 256) (omega arith);
  verify_strict-sign = λ k m. ground arith;
}

IsBytes-seed : (n : ℕ) → IsBytes (seed n)
unfolding seed filler
IsBytes-seed n =
    All-append IsByte (to_le_bytes 8 n) (filler 24 0) (IsBytes-to_le_bytes 8 n) (ground arith)

length-seed : (n : ℕ) → length (seed n) ≡ 32
unfolding seed filler to_le_bytes
length-seed n = refl

-- The key of a seed, as bytes, is the seed.
key-seed : (n : ℕ) → to_le_bytes 32 (from_le_bytes (seed n) % range 32) ≡ seed n
key-seed n =
    let small : from_le_bytes (seed n) < range 32 =
      subst (λ w. from_le_bytes (seed n) < range w) (length-seed n)
        (from_le_bytes-lt (seed n) (IsBytes-seed n)) in
    let kept : from_le_bytes (seed n) % range 32 ≡ from_le_bytes (seed n) = omega arith in
    rw kept (
      subst (λ w. to_le_bytes w (from_le_bytes (seed n)) ≡ seed n) (length-seed n)
        (to_le_bytes-from_le_bytes (seed n) (IsBytes-seed n)))

pub adder-AreDistinct : AreDistinct summing adder
adder-AreDistinct m n same =
    let decoded = sym (decode-encode _) ∙ ap (decode_from 0) same ∙ decode-encode _ in
    sym (key-seed m) ∙ some-injective _ _ decoded ∙ key-seed n

pub counting-EncodingLaws : EncodingLaws summing
counting-EncodingLaws = record {
  hex_decode-encode = λ b _. decode-encode b;
  base64_decode-encode = λ b _. decode-encode b;
}

-- ===== src/Tests/Drafts.antt =====
-- Stand-ins for the drafting side of the account_log crate: a log is the devices' keys one after
-- another.
use chat_store.Common.{
  ◌≡◌, refl, sym, ◌∙◌, none, some, List, [], ◌∷◌, ◌++◌, All, arith, length, Bool-cases, inl, inr,
  if◌then◌else◌,
}
use chat_store.Rust.Bytes.{Bytes, eq_bytes, eq_bytes_comm, strip_prefix}
use chat_store.Crates.Laws.{AccountLogLaws}
use chat_store.Crates.Drafting.{Drafting, DraftingLaws, artifact, compare_devices}
use chat_store.Tests.Fixtures.{demo-AccountLogLaws, weigh_payloads}
use chat_store.Tests.Signers.{summing, adder}

pub summing-AccountLogLaws : AccountLogLaws summing
summing-AccountLogLaws = record {
  new_addr = demo-AccountLogLaws.new_addr;
  new_signed_log = demo-AccountLogLaws.new_signed_log;
  from_bytes-to_bytes = demo-AccountLogLaws.from_bytes-to_bytes;
  updated_takes = demo-AccountLogLaws.updated_takes;
  updated_extends = demo-AccountLogLaws.updated_extends;
  update_self = demo-AccountLogLaws.update_self;
}

abbrev pub joined : List Bytes → Bytes
joined [] = []
joined (d ∷ ds) = d ++ joined ds

-- A device's key has 32 bytes.
abbrev pub AreKeys : List Bytes → Type 0
AreKeys = All (λ d. length d ≡ 32)

abbrev pub appending : Drafting summing adder
appending = record {
  addr_from_bytes = λ bytes. some (summing.hex_encode bytes);
  encode_draft = λ devices. some (joined devices);
}

strip_chunk :
    (d e xs ys : Bytes)
    → length d ≡ length e
    → strip_prefix (e ++ ys) (d ++ xs) ≡ (if eq_bytes d e then strip_prefix ys xs else none)
unfolding strip_prefix eq_bytes
strip_chunk [] [] xs ys h = refl
strip_chunk [] (y ∷ e) xs ys h = cc
strip_chunk (x ∷ d) [] xs ys h = cc
strip_chunk (x ∷ d) (y ∷ e) xs ys h =
    let rest : length d ≡ length e = omega (arith, h) in ground (arith, strip_chunk d e xs ys rest)

pub weigh-compare :
    (old new : List Bytes)
    → AreKeys old
    → AreKeys new
    → weigh_payloads
        (strip_prefix (joined new) (joined old))
        (strip_prefix (joined old) (joined new))
      ≡ compare_devices old new
unfolding compare_devices strip_prefix
weigh-compare [] [] h k = refl
weigh-compare [] ([] ∷ new) h k = cc
weigh-compare [] ((x ∷ d) ∷ new) h k = refl
weigh-compare ([] ∷ old) [] h k = cc
weigh-compare ((x ∷ d) ∷ old) [] h k = refl
weigh-compare (d ∷ old) (e ∷ new) (hd, h) (he, k) =
    rw
      (
        strip_chunk d e (joined old) (joined new) (hd ∙ sym he),
        strip_chunk e d (joined new) (joined old) (he ∙ sym hd),
        eq_bytes_comm e d,
      )
      (elim (Bool-cases (eq_bytes d e)) [
        | inl same ↦ rw same (weigh-compare old new h k)
        | inr other ↦ rw other refl
      ])

abbrev pub appending-DraftingLaws : DraftingLaws summing adder appending
appending-DraftingLaws = record {
  IsDraft = AreKeys;
  payload_of = joined;
  addr_of = λ key. summing.hex_encode (adder.verifying_key_to_bytes (adder.verifying_key key));
  log_of = λ key payload. artifact summing adder key payload;
  record_of = λ key devices. (
    summing.hex_encode (adder.verifying_key_to_bytes (adder.verifying_key key)),
    artifact summing adder key (joined devices),
  );
  addr_from_bytes-key = λ key. refl;
  encode_draft-payload_of = λ devices draft. refl;
  log_from_bytes-artifact = λ key payload. refl;
  log_to_bytes-log_of = λ key payload. refl;
  record_new-log_of = λ key devices draft. refl;
  record_update-outcome = λ key old new h k. weigh-compare old new h k;
}

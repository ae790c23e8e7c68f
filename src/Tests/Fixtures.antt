-- ===== src/Tests/Fixtures.antt =====
-- Stand-ins for the crates that can be evaluated, and inputs. A key is its own verifying key, and
-- a signature is valid where it is the key twice; a log is its artifact, and one log updates
-- another where its payload is longer and begins with the other's.
use Prim.Native.Char.{code}
use Prim.Native.String
use mathlib.Core.List.{append-nil}
use chat_store.Common.{
  ℕ, zero, suc, ◌+◌, ◌-◌, ◌*◌, ◌/◌, ◌%◌, ◌≡◌, refl, sym, ap, ◌∙◌, String, Bool, true, false, ◌&&◌,
  Option, none, some, List, [], ◌∷◌, ◌++◌, leb, beq, if◌then◌else◌, take, drop, replicate,
}
use chat_store.Common.Exec.{ok}
use chat_store.Rust.Bytes.{
  Bytes, strip_prefix, strip_prefix-append, strip_prefix-eq-some, to_le_bytes,
}
use chat_store.Crates.{Crates, Outcome, updated, unchanged, identical, behind, diverged, Submission}
use chat_store.Crates.Laws.{AccountLogLaws, log_payload}
use chat_store.Store.{Env}
use chat_store.Store.Lamport.{bundle_domain}
use chat_store.Bundle.{Bundle}

abbrev same_bytes : Bytes → Bytes → Bool
same_bytes [] [] = true
same_bytes (x ∷ xs) (y ∷ ys) = beq x y && same_bytes xs ys
same_bytes _ _ = false

abbrev pub nth : List String → ℕ → String
nth [] n = ""
nth (s ∷ ss) zero = s
nth (s ∷ ss) (suc n) = nth ss n

abbrev pub digits : List String
digits =
    "0" ∷ "1" ∷ "2" ∷ "3" ∷ "4" ∷ "5" ∷ "6" ∷ "7" ∷ "8" ∷ "9" ∷ "a" ∷ "b" ∷ "c" ∷ "d" ∷ "e" ∷ "f"
    ∷ []

abbrev pub hex_digit : ℕ → String
hex_digit n = nth digits n

abbrev pub encode_hex : Bytes → String
encode_hex [] = ""
encode_hex (b ∷ bs) =
    String.◌++◌ (hex_digit (b / 16)) (String.◌++◌ (hex_digit (b % 16)) (encode_hex bs))

-- Either case is read.
abbrev digit_value : ℕ → Option ℕ
digit_value c =
    if leb 48 c && leb c 57
    then some (c - 48)
    else if leb 97 c && leb c 102
    then some (c - 87)
    else if leb 65 c && leb c 70
    then some (c - 55)
    else none

abbrev joined : Option ℕ → Option ℕ → Option Bytes → Option Bytes
joined (some h) (some l) (some bs) = some ((h * 16 + l) ∷ bs)
joined _ _ _ = none

abbrev decode_hex : String → Option Bytes
decode_hex String.[] = some []
decode_hex (String.◌∷◌ h String.[]) = none
decode_hex (String.◌∷◌ h (String.◌∷◌ l s)) =
    joined (digit_value (code h)) (digit_value (code l)) (decode_hex s)

abbrev pub weigh_payloads : Option Bytes → Option Bytes → Outcome
weigh_payloads (some []) _ = unchanged identical
weigh_payloads (some (b ∷ bs)) _ = updated
weigh_payloads none (some _) = unchanged behind
weigh_payloads none none = unchanged diverged

abbrev chosen : Outcome → String × Bytes → Bytes → String × Bytes
chosen updated r new = (r.0, new)
chosen _ r new = r

abbrev update_log : String × Bytes → Bytes → Outcome × (String × Bytes)
update_log r new =
    let o : Outcome =
      weigh_payloads (strip_prefix (log_payload new) (log_payload r.1))
        (strip_prefix (log_payload r.1) (log_payload new)) in
    (o, chosen o r new)

-- A message whose first 32 bytes are the key and next 64 the signature.
abbrev parse_submission : Bytes → Option Submission
parse_submission [] = none
parse_submission bytes =
    some
      (record { key = take 32 bytes; signature = take 64 (drop 32 bytes); payload = drop 96 bytes })

abbrev pub demo : Crates
demo = record {
  VerifyingKey = Bytes;
  Signature = Bytes;
  verifying_key_from_bytes = λ key. some key;
  signature_from_bytes = λ sig. sig;
  verify_strict = λ key payload sig. same_bytes (take 32 sig) key && same_bytes (drop 32 sig) key;
  hex_encode = encode_hex;
  hex_decode = decode_hex;
  base64_encode = encode_hex;
  base64_decode = decode_hex;
  AccountAddr = String;
  SignedAccountLog = Bytes;
  AccountRecord = String × Bytes;
  AccountLogError = Unit;
  parse_addr = λ text. some text;
  addr_to_string = λ addr. addr;
  log_from_bytes = λ bytes. ok bytes;
  log_to_bytes = λ log. log;
  record_new = λ addr log. ok (addr, log);
  record_addr = λ r. r.0;
  record_signed_log = λ r. r.1;
  record_update = update_log;
  outcome_debug = λ o. "outcome";
  is_signature_invalid = λ e. false;
  log_error_to_string = λ e. "malformed";
  decode_keypackage_submission = parse_submission;
  decode_account_submission = parse_submission;
}

strip_prefix_self : (xs : Bytes) → strip_prefix xs xs ≡ some []
strip_prefix_self xs =
    ap (λ ys. strip_prefix ys xs) (sym (append-nil xs)) ∙ strip_prefix-append xs []

weigh_payloads-updated :
    (a b : Option Bytes)
    → weigh_payloads a b ≡ updated
    → (x : ℕ) × (xs : Bytes) × (a ≡ some (x ∷ xs))
weigh_payloads-updated (some []) b h = cc
weigh_payloads-updated (some (x ∷ xs)) b h = (x, xs, refl)
weigh_payloads-updated none (some _) h = cc
weigh_payloads-updated none none h = cc

chosen-updated :
    (o : Outcome) (r : String × Bytes) (new : Bytes) → o ≡ updated → (chosen o r new).1 ≡ new
chosen-updated o r new h = rw h refl

pub demo-AccountLogLaws : AccountLogLaws demo
demo-AccountLogLaws = record {
  new_addr = λ a l r h. cc;
  new_signed_log = λ a l r h. cc;
  from_bytes-to_bytes = λ l. refl;
  updated_takes = λ r r' l h. ap (λ u. u.1.1) (sym h) ∙ chosen-updated _ r l (ap (λ u. u.0) h);
  updated_extends = λ r r' l h.
      let (x, xs, e) = weigh_payloads-updated _ _ (ap (λ u. u.0) h) in
      (x ∷ xs, (λ p. cc), strip_prefix-eq-some (log_payload r.1) (log_payload l) e);
  update_self = λ r. rw strip_prefix_self refl;
}

abbrev pub at : ℕ → Env
at secs = record {
  since_epoch = some (record { secs = secs; nanos = 0 });
  fault = λ _. none;
  duplicate = "UNIQUE constraint failed";
}

abbrev pub payload_at : ℕ → Bytes
payload_at lamport = bundle_domain ++ 1 ∷ to_le_bytes 8 lamport

abbrev pub signed_by : ℕ → Bytes → Bundle
signed_by k payload = record { key = replicate 32 k; payload = payload; signature = replicate 64 k }

abbrev pub text_of : Bytes → String
text_of = encode_hex

abbrev pub wire_of : Bundle → Bytes
wire_of b = b.key ++ (b.signature ++ b.payload)

-- ===== src/Tests/Isolation.antt =====
-- The theorems on ids that do not meet, at runs over the stand-in crates.
use chat_store.Common.{
  ℕ, String, Bool, some, arith, List, [], ◌∷◌, All, ◌≡◌, refl, ◌==◌, eq_refl, replicate,
}
use chat_store.Rust.Bytes.{to_le_bytes, IsBytes-to_le_bytes}
use chat_store.Handlers.Errors.{no_content, conflict}
use chat_store.Delivery.{account}
use chat_store.Clients.Versions.{
  Turn, publishes, others, expected, answers, IsFair, answers-expected,
}
use chat_store.Tests.Drafts.{summing-AccountLogLaws}
use chat_store.Tests.Signers.{summing, joining, adder, adder-SigningLaws, counting-EncodingLaws}
use chat_store.Store.{empty}
use chat_store.Store.Lamport.{payload_lamport}
use chat_store.Store.Isolation.{only}
use chat_store.Handlers.Endpoints.{get_account_bundle, serve}
use chat_store.Handlers.Isolation.{key_of}
use chat_store.Service.{default_cli, Input, delivery, run}
use chat_store.Service.Isolation.{input_key, about, answer-isolated}
use chat_store.Tests.Fixtures.{demo, demo-AccountLogLaws, at, text_of, payload_at}
use chat_store.Tests.Traffic.{traffic, executable}

abbrev seven : String
seven = text_of (replicate 32 7)

abbrev is_seven : String → Bool
is_seven id = id == seven

answer-isolated_example :
    (serve demo (at 40) (get_account_bundle seven) (run demo default_cli traffic empty)).0
    ≡ (serve demo
        (at 40)
        (get_account_bundle seven)
        (run demo default_cli (about demo is_seven traffic) (only is_seven empty))).0
answer-isolated_example =
    answer-isolated demo is_seven demo-AccountLogLaws default_cli traffic (at 40)
      (get_account_bundle seven) empty (unfold key_of in eq_refl seven)

abbrev version : ℕ → ℕ → Turn
version secs lamport = publishes (at secs) lamport (payload_at lamport)

-- Key 1 publishes over the delivery network.
abbrev foreign : Input
foreign = delivery (
    account (
      joining.encode_account_submission
        (record { key = to_le_bytes 32 1; payload = payload_at 9; signature = replicate 64 0 })))

abbrev turns : List Turn
turns = version 1 5 ∷ others (at 2) foreign ∷ version 3 4 ∷ version 4 6 ∷ version 5 6 ∷ []

publishes-IsFair :
    (secs lamport : ℕ)
    → payload_lamport (payload_at lamport) ≡ some lamport
    → IsFair summing adder default_cli 0 (version secs lamport)
publishes-IsFair secs lamport h =
    let bytes = IsBytes-to_le_bytes 8 lamport in (h, ground arith, λ c. refl)

turns-IsFair : All (IsFair summing adder default_cli 0) turns
unfolding executable input_key
turns-IsFair = (
  publishes-IsFair 1 5 refl,
  (refl, (publishes-IsFair 3 4 refl, (publishes-IsFair 4 6 refl, (publishes-IsFair 5 6 refl, tt)))),
)

answers-expected_example :
    answers summing adder default_cli 0 turns empty
    ≡ no_content ∷ conflict ∷ no_content ∷ conflict ∷ []
unfolding expected
answers-expected_example =
    answers-expected summing adder default_cli 0 adder-SigningLaws counting-EncodingLaws
      summing-AccountLogLaws turns empty turns-IsFair (unfold executable in refl)

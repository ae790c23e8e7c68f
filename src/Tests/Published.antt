-- ===== src/Tests/Published.antt =====
-- The theorems on logs that follow one another and on concurrent publications, at the stand-in
-- crates.
use mathlib.Core.Option
use chat_store.Common.{
  ℕ, ◌≡◌, refl, none, some, List, [], ◌∷◌, ◌++◌, All, map, replicate, find, arith,
}
use chat_store.Common.Exec.{ok, err}
use chat_store.Rust.Bytes.{Bytes, eq_bytes}
use chat_store.Store.{Env, empty}
use chat_store.Store.Accounts.{stored_lamport}
use chat_store.Store.AccountLogs.{stored_log}
use chat_store.Store.Locking.Machine.{nobody, Event, acquires, interleave, start}
use chat_store.Store.Locking.Serial.{calls}
use chat_store.Store.Locking.Progress.{turns}
use chat_store.Bundle.{stale, forked}
use chat_store.Bundle.Devices.{apply_logs, HasOnFile, apply_logs-verdicts}
use chat_store.Bundle.Devices.Verdicts.{begins, replaced, answer, answers, finally}
use chat_store.Handlers.Conflicts.{Healthy}
use chat_store.Suite.Stores.{bundle, account_name, indices, concurrent_account_publishes_succeed}
use chat_store.Suite.Stores.Concurrent.{
  Publication, AreDifferent, IsFirst, call_of, accepted_call, concurrent-accepted,
}
use chat_store.Tests.Fixtures.{demo, at}
use chat_store.Tests.Locking.{scheduled}
use chat_store.Tests.Signers.{summing, adder}
use chat_store.Tests.Drafts.{AreKeys, summing-AccountLogLaws, appending, appending-DraftingLaws}

abbrev device : ℕ → Bytes
device n = replicate 32 n

abbrev two : List Bytes
two = device 1 ∷ device 2 ∷ []

abbrev logs : List (Env × List Bytes)
logs =
    (at 1, [])
    ∷ (at 2, device 1 ∷ [])
    ∷ (at 3, device 1 ∷ [])
    ∷ (at 4, two)
    ∷ (at 5, device 1 ∷ [])
    ∷ (at 6, device 3 ∷ [])
    ∷ []

calm : (n : ℕ) → Healthy (at n)
calm n c = refl

logs-AreKeys : All (λ p. Healthy p.0 × AreKeys p.1) logs
logs-AreKeys = (
  (calm 1, tt),
  (
    (calm 2, (refl, tt)),
    (
      (calm 3, (refl, tt)),
      ((calm 4, (refl, (refl, tt))), ((calm 5, (refl, tt)), ((calm 6, (refl, tt)), tt))),
    ),
  ),
)

apply_logs-verdicts_example :
    ((apply_logs summing summing-AccountLogLaws adder appending appending-DraftingLaws 4 logs
        empty).0
      ≡ ok tt ∷ ok tt ∷ ok tt ∷ ok tt ∷ err stale ∷ err forked ∷ [])
    × HasOnFile summing summing-AccountLogLaws adder appending appending-DraftingLaws 4
        (some two)
        (apply_logs summing summing-AccountLogLaws adder appending appending-DraftingLaws 4 logs
          empty).1
unfolding answer answers finally replaced begins eq_bytes
apply_logs-verdicts_example =
    apply_logs-verdicts summing summing-AccountLogLaws adder appending appending-DraftingLaws 4 logs
      none empty logs-AreKeys (unfold stored_log find Option.map in refl) tt

-- The sixteen tasks of the test, one at a time in the order in which they were spawned.
abbrev publication : ℕ → Publication
publication n = record {
  surroundings = at n;
  account = account_name n;
  lamport = 1;
  bundle = bundle 1;
}

abbrev publications : List Publication
publications = map publication (indices 16)

abbrev in_turn : List Publication → List (Event demo)
in_turn [] = []
in_turn (p ∷ ps) = acquires (call_of demo p) ∷ turns demo "busy" 5 ++ in_turn ps

publications-AreDifferent : AreDifferent publications
publications-AreDifferent = ground arith

all-IsFirst : (ns : List ℕ) → All (IsFirst empty) (map publication ns)
unfolding stored_lamport find Option.bind
all-IsFirst [] = tt
all-IsFirst (n ∷ ns) = ((calm n, refl), all-IsFirst ns)

spawned_free : (interleave demo "busy" (in_turn publications) (start demo empty)).lock ≡ nobody
unfolding scheduled
spawned_free = refl

spawned_over :
    calls demo (interleave demo "busy" (in_turn publications) (start demo empty))
    ≡ concurrent_account_publishes_succeed demo at
unfolding scheduled concurrent_account_publishes_succeed
spawned_over = refl

concurrent-accepted_example :
    (interleave demo "busy" (in_turn publications) (start demo empty)).replies
    ≡ map (accepted_call demo) publications
unfolding concurrent_account_publishes_succeed
concurrent-accepted_example =
    concurrent-accepted demo "busy" (in_turn publications) publications empty spawned_free
      spawned_over publications-AreDifferent (all-IsFirst (indices 16))

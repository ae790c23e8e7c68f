-- ===== src/Tests/Runs.antt =====
-- The theorems about runs, at a run over the stand-in crates.
use chat_store.Common.{◌≡◌, refl, some, [], ◌∷◌, ◌++◌, arith, take, drop, replicate}
use chat_store.Store.{empty}
use chat_store.Store.Accounts.{stored_lamport}
use chat_store.Store.AccountLogs.{stored_log}
use chat_store.Service.{default_cli, step}
use chat_store.Service.Transitions.{Change}
use chat_store.Service.Transitions.Steps.{step-Change}
use chat_store.Service.Runs.Keys.{IsKeyed, run-IsKeyed}
use chat_store.Service.Runs.Authenticity.{IsAuthentic, run-IsAuthentic}
use chat_store.Service.Runs.Lamports.{stored_bundle, Supersedes, run-Supersedes}
use chat_store.Service.Runs.Logs.{Keeps, run-Keeps}
use chat_store.Tests.Fixtures.{demo, demo-AccountLogLaws, at, text_of}
use chat_store.Tests.Traffic.{log_text, traffic, early, midway, late, after, executable}

after_lamport : stored_lamport (text_of (replicate 32 7)) after ≡ some 6
unfolding executable
after_lamport = refl

after_log : stored_log "alice" after ≡ some (replicate 64 9 ++ 1 ∷ 2 ∷ [])
unfolding executable
after_log = refl

IsKeyed-empty : IsKeyed empty
IsKeyed-empty = record { keypackages = tt; account_bundles = tt; account_logs = tt }

IsAuthentic-empty : IsAuthentic demo empty
IsAuthentic-empty = record { keypackages = tt; account_bundles = tt; account_logs = tt }

step-Change_example : Change demo empty (step demo default_cli (at 14) (log_text (1 ∷ [])) empty)
step-Change_example = step-Change demo (at 14) empty default_cli (log_text (1 ∷ []))

run-IsKeyed_example : IsKeyed after
run-IsKeyed_example = run-IsKeyed demo default_cli traffic empty IsKeyed-empty

run-IsAuthentic_example : IsAuthentic demo after
run-IsAuthentic_example =
    run-IsAuthentic demo demo-AccountLogLaws default_cli traffic empty IsAuthentic-empty

early_bundle : stored_lamport (text_of (replicate 32 7)) early ≡ some 5
unfolding executable
early_bundle = refl

midway_bundle : stored_lamport (text_of (replicate 32 7)) midway ≡ some 6
unfolding executable
midway_bundle = refl

IsAuthentic-early : IsAuthentic demo early
IsAuthentic-early =
    run-IsAuthentic demo demo-AccountLogLaws default_cli (take 2 traffic) empty IsAuthentic-empty

IsAuthentic-midway : IsAuthentic demo midway
IsAuthentic-midway =
    run-IsAuthentic demo demo-AccountLogLaws default_cli (take 3 (drop 2 traffic)) early
      IsAuthentic-early

run-Supersedes_example :
    Supersedes
      (stored_bundle (text_of (replicate 32 7)) midway)
      (stored_bundle (text_of (replicate 32 7)) early)
run-Supersedes_example =
    run-Supersedes demo (text_of (replicate 32 7)) default_cli (take 3 (drop 2 traffic)) early
      (ground arith)

run-Keeps_example : Keeps (stored_log "alice" midway) (stored_log "alice" late)
run-Keeps_example =
    run-Keeps demo demo-AccountLogLaws default_cli "alice" (drop 5 traffic) midway
      IsAuthentic-midway

-- ===== src/Tests/Workers.antt =====
-- The theorem on a worker among others, at the stand-in crates.
use chat_store.Common.{ℕ, ◌≡◌, ◌≢◌, false, List, [], ◌∷◌, All, arith}
use chat_store.Common.Exec.{ok}
use chat_store.Handlers.Endpoints.{post_account, get_keypackage}
use chat_store.Handlers.Isolation
use chat_store.Store.{empty}
use chat_store.Service.{default_cli, request}
use chat_store.Service.Isolation.{input_key}
use chat_store.Clients.Publishing.{account_request}
use chat_store.Clients.Threads.{finished, Occurrence, own_turn, elsewhere, IsElsewhere, meanwhile}
use chat_store.Clients.Benchmark.Payloads.{
  Role, as_device, as_account, key_number, sequence_of, signing_key, account_payload,
  IsBytes-account_payload,
}
use chat_store.Clients.Benchmark.Accepted.{all_answered}
use chat_store.Clients.Benchmark.Requests.{worker_thread}
use chat_store.Clients.Benchmark.Workers.{key_of}
use chat_store.Clients.Benchmark.Keys.{is_own, OwnsFlows-is_own, is_own-other_worker}
use chat_store.Clients.Benchmark.Together.{account_about, worker-finishes}
use chat_store.Tests.Fixtures.{at}
use chat_store.Tests.Signers.{
  summing, adder, adder-SigningLaws, counting-EncodingLaws, adder-AreDistinct,
}
use chat_store.Tests.Drafts.{summing-AccountLogLaws}
use chat_store.Tests.Clients.{calm, calm-AreHealthy, clock_past_epoch, unknown_keys}

-- Worker 2 fetches its keypackage and publishes its account between the requests of worker 1.
abbrev other_key : ℕ
other_key = signing_key summing adder (key_number as_account (sequence_of 2 0))

abbrev events : List Occurrence
events =
    elsewhere (at 3) (request (get_keypackage (key_of summing adder 2 as_device 0)))
    ∷ own_turn
    ∷ own_turn
    ∷ own_turn
    ∷ elsewhere (at 4)
        (request (post_account (account_request summing adder other_key (account_payload 1 4))))
    ∷ own_turn
    ∷ own_turn
    ∷ own_turn
    ∷ own_turn
    ∷ []

one-ne-two : ◌≢◌ {A = ℕ} 1 2
one-ne-two = ground arith

other-foreign : (role : Role) → is_own summing adder 1 1 (key_of summing adder 2 role 0) ≡ false
other-foreign role =
    is_own-other_worker summing adder 1 1 2 role 0 adder-AreDistinct (omega arith) (omega arith)
      one-ne-two (omega arith) (omega arith)

events-IsElsewhere : All (IsElsewhere summing (is_own summing adder 1 1)) events
unfolding input_key
events-IsElsewhere = (
  unfold Isolation.key_of in other-foreign as_device,
  (
    tt,
    (
      tt,
      (
        tt,
        (
          account_about summing adder adder-SigningLaws counting-EncodingLaws
              (is_own summing adder 1 1) other_key (account_payload 1 4) false
              (IsBytes-account_payload 1 4) (other-foreign as_account),
          (tt, (tt, (tt, (tt, tt)))),
        ),
      ),
    ),
  ),
)

worker-finishes_example :
    (meanwhile summing default_cli
      (worker_thread summing adder (λ i. all_answered calm) 1 1 4)
      events
      empty).0
    ≡ finished (ok 1)
worker-finishes_example =
    worker-finishes summing adder adder-SigningLaws counting-EncodingLaws (is_own summing adder 1 1)
      summing-AccountLogLaws default_cli (λ i. calm) 1 1 4 events empty
      (OwnsFlows-is_own summing adder 1 1) (omega arith) events-IsElsewhere adder-AreDistinct
      (omega arith) (omega arith) unknown_keys (λ i. calm-AreHealthy) (λ i. clock_past_epoch)

-- ===== src/Clients/DeliverySmokeTest/Polling.antt =====
-- A poll of examples/delivery_smoke_test.rs comes to an end.
use chat_store.Common.{
  ℕ, zero, suc, ◌+◌, ◌*◌, ◌≤◌, ◌<◌, ◌≡◌, refl, String, some, inl, inr, arith, ltb, Bool-cases,
}
use chat_store.Common.Exec.{Result, ok, err}
use chat_store.Crates.{Crates}
use chat_store.Store.{Store}
use chat_store.Handlers.Endpoints.{Request, Response}
use chat_store.Clients.Requests.{ClientError, did_not_appear, status_number, send}
use chat_store.Clients.Benchmark.Waiting.{Poll}
use chat_store.Clients.DeliverySmokeTest.{
  Polled, is_success, poll_budget, settle, poll_until_stored,
}

-- A decided poll.
abbrev pub Decided : Polled → Type 0
Decided p = (r : Result ClientError (Unit {0}) × Store) × (p ≡ some r)

settle-Decided :
    (crates : Crates) (r : Result ClientError Response) (clock : ℕ) (what : String) (s : Store)
    (rest : Polled)
    → (clock ≤ poll_budget → Decided rest)
    → Decided (settle crates r clock what s rest)
settle-Decided crates (err e) clock what s rest further = ((err e, s), refl)
settle-Decided crates (ok response) clock what s rest further =
    elim (Bool-cases (is_success (status_number response.status))) [
      | inl success ↦ ((ok tt, s), rw success refl)
      | inr failure ↦ elim (Bool-cases (ltb poll_budget clock)) [
        | inl late ↦ ((err (did_not_appear what response.status), s), rw (failure, late) refl)
        | inr early ↦ rw (failure, early) (further (ground arith))
      ]
    ]

module _ (crates : Crates) (polls : ℕ → Poll) (slow : (i : ℕ) → 2000 * i ≤ (polls i).clock) where
  decided :
      (fuel round : ℕ) (request : Request) (what : String) (s : Store)
      → 47 ≤ fuel + round
      → 0 < fuel
      → Decided (poll_until_stored crates fuel polls round request what s)
  unfolding poll_until_stored
  decided zero round request what s enough more = absurd (omega arith)
  decided (suc fuel) round request what s enough more =
      let out = send crates (polls round).exchange request s in
      settle-Decided crates out.0 (polls round).clock what out.1 _ λ early.
        decided fuel (round + 1) request what out.1 (omega arith) (omega (arith, slow round))

  -- Where each round takes at least the two seconds that the loop sleeps, 47 rounds decide: the
  -- bundle is found, or the poll ends with an error.
  poll_until_stored-Decided :
      (request : Request) (what : String) (s : Store)
      → Decided (poll_until_stored crates 47 polls 0 request what s)
  poll_until_stored-Decided request what s = decided 47 0 request what s (omega arith) (omega arith)

-- ===== src/Clients/Benchmark/Waiting.antt =====
-- `wait_until_ready` of examples/benchmark.rs.
use chat_store.Common.{
  ℕ, zero, suc, ◌+◌, ◌*◌, ◌≤◌, ◌<◌, ◌≡◌, refl, inl, inr, Bool, false, Option, none, some, arith,
  beq, leb, if◌then◌else◌, Bool-cases,
}
use chat_store.Common.Exec.{Result, ok, err}
use chat_store.Crates.{Crates}
use chat_store.Store.{Store}
use chat_store.Handlers.Errors.{not_found}
use chat_store.Handlers.Endpoints.{get_keypackage, Response}
use chat_store.Clients.Requests.{Exchange, ClientError, failed, status_number, send}

-- One round: how its request fares, and what the clock says after it, in milliseconds since the
-- start.
pub record Poll : Type 0 where
  pub exchange : Exchange
  pub clock : ℕ

abbrev pub is_ready : Result ClientError Response → Bool
is_ready (ok response) = beq (status_number response.status) (status_number not_found)
is_ready (err e) = false

abbrev pub deadline : ℕ
deadline = 5000

module _ (crates : Crates) where
  -- The loop, on fuel: `none` where the fuel does not suffice.
  unfoldable pub wait_until_ready :
      ℕ → (ℕ → Poll) → ℕ → Store → Option (Result ClientError (Unit {0}))
  wait_until_ready zero polls round s = none
  wait_until_ready (suc fuel) polls round s =
      let (r, s') = send crates (polls round).exchange (get_keypackage "unknown") s in
      let rest = wait_until_ready fuel polls (round + 1) s' in
      if is_ready r
      then some (ok tt)
      else if leb deadline (polls round).clock
      then some (err (failed "local server did not become ready within 5 seconds"))
      else rest

  decided :
      (fuel : ℕ) (polls : ℕ → Poll) (round : ℕ) (s : Store)
      → ((i : ℕ) → 25 * i ≤ (polls i).clock)
      → 201 ≤ fuel + round
      → 0 < fuel
      → (r : Result ClientError (Unit {0})) × (wait_until_ready fuel polls round s ≡ some r)
  unfolding wait_until_ready
  decided zero polls round s slow enough more = absurd (omega arith)
  decided (suc fuel) polls round s slow enough more =
      let out = send crates (polls round).exchange (get_keypackage "unknown") s in
      elim (Bool-cases (is_ready out.0)) [
        | inl ready ↦ (ok tt, rw ready refl)
        | inr not_yet ↦ elim (Bool-cases (leb deadline (polls round).clock)) [
          | inl late ↦ (
            err (failed "local server did not become ready within 5 seconds"),
            rw (not_yet, late) refl,
          )
          | inr early ↦
              let more_fuel : 0 < fuel = ground (arith, slow round) in
              let (r, e) = decided fuel polls (round + 1) out.1 slow (omega arith) more_fuel in
              (r, rw (not_yet, early) e)
        ]
      ]

  -- Where each round takes at least the 25 ms that the loop sleeps, 201 rounds decide: the server is
  -- found ready, or the wait ends with an error.
  pub wait_until_ready-decides :
      (polls : ℕ → Poll) (s : Store)
      → ((i : ℕ) → 25 * i ≤ (polls i).clock)
      → (r : Result ClientError (Unit {0})) × (wait_until_ready 201 polls 0 s ≡ some r)
  wait_until_ready-decides polls s slow = decided 201 polls 0 s slow (omega arith) (omega arith)

-- ===== src/Clients/Benchmark/Work.antt =====
-- How examples/benchmark.rs shares its operations out among the worker threads.
use native.Mathlib.Nat.{div-add-mod, mod-lt}
use chat_store.Common.{
  ℕ, zero, suc, ◌+◌, ◌*◌, ◌/◌, ◌%◌, ◌≤◌, ◌<◌, ◌≡◌, refl, Bool, true, false, ltb, if◌then◌else◌,
  List, [], ◌∷◌, arith, length, All,
}

-- `usize::from(bool)`
abbrev from_bool : Bool → ℕ
from_bool true = 1
from_bool false = 0

-- `(0..workers).map(…)`, for so many workers from the given one on, where each gets `each`, and the
-- first `left_over` one more.
unfoldable pub shares : ℕ → ℕ → ℕ → ℕ → List ℕ
shares each left_over zero worker = []
shares each left_over (suc n) worker =
    (each + from_bool (ltb worker left_over)) ∷ shares each left_over n (worker + 1)

unfoldable pub split_work : ℕ → ℕ → List ℕ
unfolding shares
split_work operations workers = shares (operations / workers) (operations % workers) workers 0

-- `config.concurrency.min(config.operations)`
abbrev pub workers_of : ℕ → ℕ → ℕ
workers_of concurrency operations = if ltb operations concurrency then operations else concurrency

abbrev pub sum : List ℕ → ℕ
sum [] = 0
sum (x ∷ xs) = x + sum xs

abbrev smaller : ℕ → ℕ → ℕ
smaller a b = if ltb a b then a else b

sum-shares : (q r n i : ℕ) → sum (shares q r n i) + smaller i r ≡ n * q + smaller (i + n) r
unfolding shares
sum-shares q r zero i = ground arith
sum-shares q r (suc n) i = ground (arith, sum-shares q r n (i + 1))

length-shares : (q r n i : ℕ) → length (shares q r n i) ≡ n
unfolding shares
length-shares q r zero i = refl
length-shares q r (suc n) i = omega (arith, length-shares q r n (i + 1))

shares-even : (q r n i : ℕ) → All (λ x. (q ≤ x) × (x ≤ q + 1)) (shares q r n i)
unfolding shares
shares-even q r zero i = tt
shares-even q r (suc n) i = (ground arith, shares-even q r n (i + 1))

-- For any positive number of workers there is one share for each, the shares add up to the
-- operations, and each is the quotient or one more: no operation is lost, and no worker gets two
-- more than another.
pub split_work_lem :
    (operations workers : ℕ)
    → 0 < workers
    → (length (split_work operations workers) ≡ workers)
      × (sum (split_work operations workers) ≡ operations)
      × All
          (λ n. (operations / workers ≤ n) × (n ≤ operations / workers + 1))
          (split_work operations workers)
unfolding split_work
split_work_lem operations workers h =
    let q = operations / workers in
    let r = operations % workers in
    (
      length-shares q r workers 0,
      ground (arith, sum-shares q r workers 0, div-add-mod operations workers, mod-lt operations h),
      shares-even q r workers 0,
    )

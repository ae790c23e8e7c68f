-- ===== src/Clients/Benchmark/Keys.antt =====
-- The keys of the flows of a worker of examples/benchmark.rs, as ids of the service.
use chat_store.Common.{
  ℕ, zero, suc, ◌+◌, ◌^◌, ◌≤◌, ◌<◌, String, Bool, true, false, ◌||◌, ◌≡◌, ◌≢◌, ◌==◌, eq_refl, refl,
  sym, inl, inr, arith, beq, beq_iff, Bool-cases,
}
use chat_store.Crates.{Crates}
use chat_store.Crates.Signing.{Signing}
use chat_store.Clients.Benchmark.Payloads.{Role, as_device, as_account}
use chat_store.Clients.Benchmark.Seeds.{seed_unique}
use chat_store.Clients.Benchmark.Workers.{AreDistinct, key_of, ne→==}

module _ (crates : Crates) (signing : Signing crates) (owned : String → Bool) where
  -- The ids own the keys of the flows from the given one on, for so many flows.
  abbrev pub OwnsFlows : ℕ → ℕ → ℕ → Type 0
  OwnsFlows worker operation left =
      (i : ℕ)
      → operation ≤ i
      → i < operation + left
      → (owned (key_of crates signing worker as_device i) ≡ true)
        × (owned (key_of crates signing worker as_account i) ≡ true)

module _ (crates : Crates) (signing : Signing crates) (worker : ℕ) where
  -- The ids that are keys of the first flows of the worker.
  abbrev pub is_own : ℕ → String → Bool
  is_own zero id = false
  is_own (suc n) id =
      (id == key_of crates signing worker as_device n)
      || ((id == key_of crates signing worker as_account n) || is_own n id)

  latest : (role : Role) (n : ℕ) → is_own (suc n) (key_of crates signing worker role n) ≡ true
  latest as_device n = rw (eq_refl (key_of crates signing worker as_device n)) refl
  latest as_account n =
      let own = eq_refl (key_of crates signing worker as_account n) in ground (arith, own)

  is_own-own :
      (n : ℕ) (role : Role) (i : ℕ) → i < n → is_own n (key_of crates signing worker role i) ≡ true
  is_own-own zero role i below = absurd (omega arith)
  is_own-own (suc n) role i below = elim (Bool-cases (beq i n)) [
    | inl last ↦ let at : i ≡ n = (beq_iff i n).0 last in rw at (latest role n)
    | inr before ↦ let rest = is_own-own n role i (ground arith) in ground (arith, rest)
  ]

  -- They own the flows.
  pub OwnsFlows-is_own :
      (operations : ℕ) → OwnsFlows crates signing (is_own operations) worker 0 operations
  OwnsFlows-is_own operations i low high = (
    is_own-own operations as_device i (omega arith),
    is_own-own operations as_account i (omega arith),
  )

  is_own-other :
      (n : ℕ) (id : String)
      → ((role : Role) (i : ℕ) → i < n → id ≢ key_of crates signing worker role i)
      → is_own n id ≡ false
  is_own-other zero id h = refl
  is_own-other (suc n) id h =
      let rest = is_own-other n id (λ role i below. h role i (omega arith)) in
      rw
        (
          ne→== id (key_of crates signing worker as_device n) (h as_device n (omega arith)),
          ne→== id (key_of crates signing worker as_account n) (h as_account n (omega arith)),
          rest,
        )
        refl

  -- Another worker's keys are none of them.
  pub is_own-other_worker :
      (operations other : ℕ) (role : Role) (i : ℕ)
      → AreDistinct crates signing
      → worker < 2 ^ 31
      → other < 2 ^ 31
      → worker ≢ other
      → operations ≤ 2 ^ 32
      → i < 2 ^ 32
      → is_own operations (key_of crates signing other role i) ≡ false
  is_own-other_worker operations other role i distinct few few' apart bounded small =
      is_own-other operations (key_of crates signing other role i) λ role' j below same.
        let (r, w, o) =
          seed_unique role role' other i worker j few' small few (omega arith)
            (distinct _ _ same) in
        apart (sym w)

-- ===== src/Clients/Benchmark/Workers.antt =====
-- A worker of examples/benchmark.rs, which runs its flows one after another.
use chat_store.Common.{
  ℕ, zero, suc, ◌+◌, ◌^◌, ◌≤◌, ◌<◌, ◌≡◌, ◌≢◌, refl, ◌==◌, eq_iff, String, true, false, none, arith,
  [], ◌∷◌, select, select-append, find, Bool-false,
}
use chat_store.Common.Int.{pos, lt_ℤ}
use chat_store.Common.Exec.{ok}
use chat_store.Rust.{as_i64}
use chat_store.Crates.{Crates}
use chat_store.Crates.Signing.{Signing, SigningLaws, EncodingLaws}
use chat_store.Store.{Store, Env, KeyPackageRow, StoredAccountBundle, now_ms}
use chat_store.Store.KeyPackages.{of_device}
use chat_store.Store.Accounts.{of_account, stored_lamport}
use chat_store.Store.Accounts.Reading.{find-put_account}
use chat_store.Store.Cases.{add_keypackage, put_account}
use chat_store.Clients.Publishing.{public_key, signed}
use chat_store.Bundle.Cases.{kept_account}
use chat_store.Clients.Fetching.{Earlier}
use chat_store.Clients.Benchmark.Payloads.{
  Role, as_device, as_account, key_number, sequence_of, seed, signing_key, account_payload,
}
use chat_store.Clients.Benchmark.Seeds.{seed_unique}
use chat_store.Clients.Benchmark.Accepted.{FlowEnvs, all_answered, AreHealthy}
use chat_store.Clients.Benchmark.Flow.{run_flows, run_worker}
use chat_store.Clients.Benchmark.Success.{exercise_business_flow_passes, published, flowed}

-- Nothing is stored under these keys.
abbrev pub IsUnknown : String → String → Store → Type 0
IsUnknown device_id account_pub s =
    (select (of_device device_id) s.keypackages ≡ [])
    × (find (of_account account_pub) s.account_bundles ≡ none)

pub ne→== : (a b : String) → a ≢ b → (a == b) ≡ false
ne→== a b h = Bool-false (a == b) (λ e. h ((eq_iff a b).0 e))

select-other :
    (id : String) (row : KeyPackageRow) → row.device_id ≢ id → select (of_device id) (row ∷ []) ≡ []
unfolding select
select-other id row h = rw (ne→== row.device_id id h) refl

pub IsUnknown-add :
    (id pub_key : String) (row : KeyPackageRow) (s : Store)
    → row.device_id ≢ id
    → IsUnknown id pub_key s
    → IsUnknown id pub_key (add_keypackage row s)
IsUnknown-add id pub_key row s h (no_rows, no_account) =
    (rw (select-append, no_rows, select-other id row h) refl, no_account)

pub IsUnknown-put :
    (env : Env) (account_pub id pub_key : String) (bundle : StoredAccountBundle) (s : Store)
    → account_pub ≢ pub_key
    → IsUnknown id pub_key s
    → IsUnknown id pub_key (put_account env account_pub bundle s)
IsUnknown-put env account_pub id pub_key bundle s h (no_rows, no_account) = (
  no_rows,
  rw (find-put_account env account_pub pub_key bundle s, ne→== account_pub pub_key h) no_account,
)

module _ (crates : Crates) (signing : Signing crates) where
  -- Different seeds give different keys.
  abbrev pub AreDistinct : Type 0
  AreDistinct =
      (m n : ℕ)
      → public_key crates signing (signing_key crates signing m)
        ≡ public_key crates signing (signing_key crates signing n)
      → seed m ≡ seed n

module _ (crates : Crates) (signing : Signing crates) (worker : ℕ) where
  -- The public key of a role in a flow of the worker.
  abbrev pub key_of : Role → ℕ → String
  key_of role operation =
      public_key crates signing
        (signing_key crates signing (key_number role (sequence_of worker operation)))

  -- Nothing is stored under the keys of the flows from the given one on.
  abbrev pub AreUnknown : ℕ → Store → Type 0
  AreUnknown operation s =
      (later : ℕ)
      → operation ≤ later
      → later < 2 ^ 32
      → IsUnknown (key_of as_device later) (key_of as_account later) s

  key_of-ne :
      (role : Role) (operation later : ℕ)
      → AreDistinct crates signing
      → worker < 2 ^ 31
      → operation < later
      → later < 2 ^ 32
      → key_of role operation ≢ key_of role later
  key_of-ne role operation later distinct few before small same =
      let (r, w, o) =
        seed_unique role role worker operation worker later few (omega arith) few small
          (distinct _ _ same) in
      omega arith

module _ (crates : Crates) (signing : Signing crates) (laws : SigningLaws crates signing)
    (encoding : EncodingLaws crates) (worker payload_bytes : ℕ) (on : ℕ → FlowEnvs) where
  abbrev pub after_flow : ℕ → Store → Store
  after_flow operation s =
      flowed crates signing laws encoding (on operation) (sequence_of worker operation)
        payload_bytes s

  -- A version of the account bundle of a flow.
  abbrev pub version : ℕ → ℕ → StoredAccountBundle
  version operation lamport = kept_account (
      signed crates signing
        (signing_key crates signing (key_number as_account (sequence_of worker operation)))
        (account_payload lamport payload_bytes))

  pub AreUnknown-after_flow :
      (operation : ℕ) (s : Store)
      → AreDistinct crates signing
      → worker < 2 ^ 31
      → AreUnknown crates signing worker operation s
      → AreUnknown crates signing worker (operation + 1) (after_flow operation s)
  AreUnknown-after_flow operation s distinct few unknown later h small =
      let ne : (role : Role)
          → key_of crates signing worker role operation ≢ key_of crates signing worker role later =
        λ role.
          key_of-ne crates signing worker role operation later distinct few (omega arith) small in
      let after_keypackage =
        published crates signing laws encoding (on operation) (sequence_of worker operation)
          payload_bytes s in
      IsUnknown-put (on operation).publish_second _ _ _ (version operation 2)
        (put_account (on operation).publish_first
          (key_of crates signing worker as_account operation) (version operation 1)
          after_keypackage)
        (ne as_account)
        (IsUnknown-put (on operation).publish_first _ _ _ (version operation 1) after_keypackage
          (ne as_account)
          (IsUnknown-add _ _ _ s (ne as_device) (unknown later (omega arith) small)))

  pub Earlier-unknown :
      (env : Env) (id pub_key : String) (s : Store) → IsUnknown id pub_key s → Earlier env id s
  Earlier-unknown env id pub_key s (no_rows, no_account) = rw no_rows tt

  pub stored_lamport-unknown :
      (id pub_key : String) (s : Store) → IsUnknown id pub_key s → stored_lamport pub_key s ≡ none
  unfolding stored_lamport
  stored_lamport-unknown id pub_key s (no_rows, no_account) = rw no_account refl

  pub run_flows_passes :
      (left operation : ℕ) (s : Store)
      → AreDistinct crates signing
      → worker < 2 ^ 31
      → operation + left ≤ 2 ^ 32
      → AreUnknown crates signing worker operation s
      → ((i : ℕ) → AreHealthy (on i))
      → ((i : ℕ) → lt_ℤ (pos 0) (as_i64 (now_ms (on i).publish_first.since_epoch)) ≡ true)
      → (run_flows crates signing
          (λ i. all_answered (on i))
          worker
          operation
          left
          payload_bytes
          s).0
        ≡ ok tt
  unfolding run_flows
  run_flows_passes zero operation s distinct few enough unknown healthy late = refl
  run_flows_passes (suc left) operation s distinct few enough unknown healthy late =
      let now = unknown operation (omega arith) (omega arith) in
      let passed =
        exercise_business_flow_passes crates signing laws encoding (on operation)
          (sequence_of worker operation) payload_bytes s (healthy operation)
          (Earlier-unknown (on operation).publish_keypackage _ _ s now)
          (stored_lamport-unknown _ _ s now) (late operation) in
      rw passed (
        run_flows_passes left (operation + 1) (after_flow operation s) distinct few (omega arith)
          (AreUnknown-after_flow operation s distinct few unknown) healthy late)

  -- The flows of a worker all pass, one after another, and it reports all its operations, where
  -- different seeds give different keys, nothing is stored under the keys of its flows, the
  -- database answers every statement, and the clock is past the epoch, for worker numbers below
  -- 2^31 and at most 2^32 operations.
  pub run_worker_passes :
      (operations : ℕ) (s : Store)
      → AreDistinct crates signing
      → worker < 2 ^ 31
      → operations ≤ 2 ^ 32
      → AreUnknown crates signing worker 0 s
      → ((i : ℕ) → AreHealthy (on i))
      → ((i : ℕ) → lt_ℤ (pos 0) (as_i64 (now_ms (on i).publish_first.since_epoch)) ≡ true)
      → (run_worker crates signing (λ i. all_answered (on i)) worker operations payload_bytes s).0
        ≡ ok operations
  unfolding run_worker
  run_worker_passes operations s distinct few enough unknown healthy late =
      rw (run_flows_passes operations 0 s distinct few (omega arith) unknown healthy late) refl

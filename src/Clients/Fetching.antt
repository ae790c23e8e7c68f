-- ===== src/Clients/Fetching.antt =====
-- What the service serves of the keypackage or the account bundle that was just stored.
use mathlib.Core.Option
use chat_store.Common.{
  ◌≡◌, ◌==◌, refl, String, true, false, none, eq_refl, arith, select, find, [], Bool-cases, inl,
  inr, List, ◌∷◌, All,
}
use chat_store.Common.Int.{ℤ, lt_ℤ, eq_ℤ}
use chat_store.Common.Exec.{ok}
use chat_store.Rust.{as_i64}
use chat_store.Crates.{Crates}
use chat_store.Store.{
  KeyPackageRow, Store, Env, fetch, write, StoredKeyPackageBundle, StoredAccountBundle, now_ms,
}
use chat_store.Store.KeyPackages.{of_device, same_key, insert}
use chat_store.Store.KeyPackages.Latest.{latest-insert}
use chat_store.Store.Accounts.{stored_lamport, get_account}
use chat_store.Store.Accounts.Reading.{find-put_account}
use chat_store.Store.Cases.{received, add_keypackage, put_account}
use chat_store.Handlers.Conflicts.{Healthy}
use chat_store.Handlers.Endpoints.{
  Request, Response, get_keypackage, keypackage_response, fetch_key_package, get_account_bundle,
  account_response, fetch_account, handle, serve,
}
use chat_store.Clients.Requests.{answered, send}

lt_ℤ-ne : (a b : ℤ) → lt_ℤ a b ≡ true → eq_ℤ a b ≡ false
unfolding lt_ℤ eq_ℤ
lt_ℤ-ne a b h = ground arith

-- A primary key whose device has only older rows is free.
unkeyed :
    (row : KeyPackageRow) (rows : List KeyPackageRow)
    → All (λ r. lt_ℤ r.received_at row.received_at ≡ true) (select (of_device row.device_id) rows)
    → find (same_key row) rows ≡ none
unfolding find select
unkeyed row [] h = refl
unkeyed row (r ∷ rows) h = elim (Bool-cases (r.device_id == row.device_id)) [
  | inr other ↦ rw other (unkeyed row rows (rw other at h))
  | inl same ↦
      let (first, others) = rw same at h in
      rw (same, lt_ℤ-ne r.received_at row.received_at first) (unkeyed row rows others)
]

pub send-answered :
    (crates : Crates) (env : Env) (req : Request) (s t : Store) (response : Response)
    → serve crates env req s ≡ (response, t)
    → send crates (answered env) req s ≡ (ok response, t)
unfolding send
send-answered crates env req s t response served = rw served refl

pub stored_lamport-add :
    (id : String) (row : KeyPackageRow) (s : Store)
    → stored_lamport id (add_keypackage row s) ≡ stored_lamport id s
unfolding stored_lamport
stored_lamport-add id row s = refl

pub insert-free :
    (env : Env) (id : String) (bundle : StoredKeyPackageBundle) (s : Store)
    → Healthy env
    → find (same_key (received env id bundle)) s.keypackages ≡ none
    → insert env id bundle s ≡ (ok tt, add_keypackage (received env id bundle) s)
unfolding insert
insert-free env id bundle s fine free = let answered = fine write in ground arith

-- The rows of the device were all received before the clock of `env`.
abbrev pub Earlier : Env → String → Store → Type 0
Earlier env id s =
    All (λ r. lt_ℤ r.received_at (as_i64 (now_ms env.since_epoch)) ≡ true)
      (select (of_device id) s.keypackages)

module _ (crates : Crates) (env : Env) (id : String) (bundle : StoredKeyPackageBundle)
    (s : Store) where
  pub find-Earlier :
      Earlier env id s → find (same_key (received env id bundle)) s.keypackages ≡ none
  find-Earlier = unkeyed (received env id bundle) s.keypackages

  -- The keypackage that was stored is served, where it is the newest of its device.
  pub fetch_key_package-inserted :
      (env' : Env)
      → Healthy env
      → Healthy env'
      → Earlier env id s
      → serve crates env' (get_keypackage id) (add_keypackage (received env id bundle) s)
        ≡ (keypackage_response crates bundle, add_keypackage (received env id bundle) s)
  unfolding serve handle fetch_key_package
  fetch_key_package-inserted env' fine fine' earlier =
      rw
        (latest-insert env env' id bundle s (add_keypackage (received env id bundle) s) earlier
          (insert-free env id bundle s fine (find-Earlier earlier)) (fine' fetch))
        refl

-- The account that was stored is served, and its lamport is on file.
module _ (crates : Crates) (env : Env) (id : String) (bundle : StoredAccountBundle)
    (s : Store) where
  pub fetch_account-put :
      (env' : Env)
      → Healthy env'
      → serve crates env' (get_account_bundle id) (put_account env id bundle s) ≡ (
        account_response crates (record {
          payload = bundle.payload;
          signature = bundle.signature;
          updated_at = as_i64 (now_ms env.since_epoch);
        }),
        put_account env id bundle s,
      )
  unfolding serve handle fetch_account get_account Option.map
  fetch_account-put env' fine =
      rw (fine fetch, find-put_account env id id bundle s, eq_refl id) refl

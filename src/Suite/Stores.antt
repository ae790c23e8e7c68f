-- ===== src/Suite/Stores.antt =====
-- The tests of src/store.rs.
pub mod Passing
pub mod Concurrent
use Prim.Native.String
use Prim.Native.String.{char_at}
use mathlib.Core.Option
use chat_store.Common.{
  ℕ, zero, suc, ◌+◌, ◌/◌, ◌%◌, String, Bool, false, not, ◌&&◌, Option, none, some, List, [], ◌∷◌,
  ◌++◌, ltb, if◌then◌else◌, replicate, map,
}
use chat_store.Common.Int.{pos, eq_ℤ}
use chat_store.Common.Exec.{ok, pure, lift, ◌>>=◌, ◌>>◌}
use chat_store.Rust.Bytes.{Bytes, to_le_bytes}
use chat_store.Crates.{Crates}
use chat_store.Store.{Store, Env, StoredAccountBundle}
use chat_store.Store.Lamport.{bundle_domain, payload_lamport}
use chat_store.Store.Accounts.{upsert_account, get_account}
use chat_store.Store.Locking.Programs.{Reply, upserted, Writer, upserts}
use chat_store.Suite.{Check, Surroundings, assert, eq_option, unwrap_some, unwrap}

abbrev pub payload_with_lamport : ℕ → Bytes
payload_with_lamport lamport = (bundle_domain ++ 1 ∷ []) ++ to_le_bytes 8 lamport

abbrev pub bundle : ℕ → StoredAccountBundle
bundle lamport = record {
  payload = payload_with_lamport lamport;
  signature = replicate 64 0;
  updated_at = pos 0;
}

abbrev pub upsert_version : Env → String → ℕ → Check Bool
upsert_version env account lamport = unwrap (upsert_account env account lamport (bundle lamport))

unfoldable pub rejects_replayed_or_stale_lamport : Surroundings → Check (Unit {0})
rejects_replayed_or_stale_lamport env = do
  first ← upsert_version (env 0) "acct" 5
  lift (assert first)
  higher ← upsert_version (env 1) "acct" 6
  lift (assert higher)
  same ← upsert_version (env 2) "acct" 6
  lift (assert (not same))
  older ← upsert_version (env 3) "acct" 4
  lift (assert (not older))
  found ← unwrap (get_account (env 4) "acct")
  stored ← lift (unwrap_some found)
  lift (assert (eq_option (payload_lamport stored.payload) (some 6)))

unfoldable pub stale_publish_does_not_refresh_retention_clock : Surroundings → Check (Unit {0})
stale_publish_does_not_refresh_retention_clock env = do
  first ← upsert_version (env 0) "acct" 9
  lift (assert first)
  found ← unwrap (get_account (env 1) "acct")
  after_first ← lift (unwrap_some found)
  replayed ← upsert_version (env 2) "acct" 9
  lift (assert (not replayed))
  again ← unwrap (get_account (env 3) "acct")
  after_replay ← lift (unwrap_some again)
  lift (assert (eq_ℤ after_first.updated_at after_replay.updated_at))

unfoldable pub payload_lamport_requires_domain_and_full_header : Bool
payload_lamport_requires_domain_and_full_header =
    eq_option (payload_lamport (payload_with_lamport 42)) (some 42)
    && eq_option (payload_lamport (1 ∷ replicate 8 0)) none
    && eq_option (payload_lamport (bundle_domain ++ 1 ∷ [])) none

-- `format!("acct-{index}")`, of an index below 100
abbrev digit : ℕ → String
digit n = String.◌∷◌ (char_at "0123456789" n) String.[]

abbrev pub account_name : ℕ → String
account_name index =
    String.◌++◌ "acct-"
      (if ltb index 10 then digit index else String.◌++◌ (digit (index / 10)) (digit (index % 10)))

-- `0..n`
abbrev pub indices : ℕ → List ℕ
indices zero = []
indices (suc n) = indices n ++ n ∷ []

-- One task of the test, which calls `upsert`.
abbrev pub task : (crates : Crates) → Env → ℕ → Writer crates
task crates env index = upserts env (account_name index) 1 (bundle 1)

-- The tasks that are spawned; the runtime interleaves them.
unfoldable pub concurrent_account_publishes_succeed :
    (crates : Crates) → Surroundings → List (Writer crates)
concurrent_account_publishes_succeed crates env =
    map (λ index. task crates (env index) index) (indices 16)

-- `result.unwrap()`, which is asserted of each task that is joined
abbrev pub succeeded : Reply → Bool
succeeded (upserted (ok stored)) = stored
succeeded _ = false

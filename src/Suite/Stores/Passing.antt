-- ===== src/Suite/Stores/Passing.antt =====
-- The tests of src/store.rs against any clock and a database that answers.
use mathlib.Core.Option
use mathlib.Core.List.{append-nil}
use chat_store.Common.{
  ℕ, ◌<◌, ◌^◌, String, ◌≡◌, refl, sym, ap, ◌∙◌, true, false, some, none, eq_refl, arith, find, ◌∷◌,
  [], ◌++◌,
}
use chat_store.Common.Int.{eq_ℤ_iff}
use chat_store.Common.Exec.{ok}
use chat_store.Store.{Store, Env, StoredAccountBundle, empty, begin, fetch, write, commit}
use chat_store.Store.Lamport.{bundle_domain, payload_lamport}
use chat_store.Store.Lamport.Layout.{payload_lamport-header}
use chat_store.Store.Accounts.{
  stored_lamport, is_stale, stamped, to_bundle, upsert_account, get_account,
}
use chat_store.Store.Accounts.Reading.{find-put_account, stored_lamport-put}
use chat_store.Store.Cases.{put_account}
use chat_store.Handlers.Conflicts.{Healthy}
use chat_store.Rust.Bytes.{to_le_bytes, from_le_bytes, strip_prefix, get_range}
use chat_store.Suite.{Surroundings}
use chat_store.Suite.Stores.{
  payload_with_lamport, bundle, payload_lamport_requires_domain_and_full_header,
  rejects_replayed_or_stale_lamport, stale_publish_does_not_refresh_retention_clock,
}

pub payload_lamport-payload_with_lamport :
    (lamport : ℕ) → lamport < 2 ^ 64 → payload_lamport (payload_with_lamport lamport) ≡ some lamport
payload_lamport-payload_with_lamport lamport small =
    ap (λ p. payload_lamport (bundle_domain ++ 1 ∷ p)) (sym (append-nil (to_le_bytes 8 lamport)))
    ∙ payload_lamport-header 1 lamport [] small

module _ (env : Env) (fine : Healthy env) (id : String) (s : Store) (b : StoredAccountBundle) where
  pub upsert_account-newer :
      (lamport : ℕ)
      → is_stale lamport (stored_lamport id s) ≡ false
      → upsert_account env id lamport b s ≡ (ok true, put_account env id b s)
  unfolding upsert_account
  upsert_account-newer lamport newer =
      rw (fine begin, fine fetch, newer, fine write, fine commit) refl

  pub upsert_account-stale :
      (lamport : ℕ)
      → is_stale lamport (stored_lamport id s) ≡ true
      → upsert_account env id lamport b s ≡ (ok false, s)
  unfolding upsert_account
  upsert_account-stale lamport old = rw (fine begin, fine fetch, old) refl

  get_account-put :
      (env' : Env)
      → get_account env id (put_account env' id b s)
        ≡ (ok (some (to_bundle (stamped env' id b))), put_account env' id b s)
  unfolding get_account Option.map
  get_account-put env' = rw (fine fetch, find-put_account env' id id b s, eq_refl id) refl

pub nothing_on_file : (id : String) → stored_lamport id empty ≡ none
unfolding stored_lamport find Option.bind
nothing_on_file id = refl

module _ (env : Surroundings) (fine : (n : ℕ) → Healthy (env n)) where
  abbrev accepted : ℕ → ℕ → Store → Store
  accepted n lamport s = put_account (env n) "acct" (bundle lamport) s

  on_file :
      (n lamport : ℕ) (s : Store)
      → lamport < 2 ^ 64
      → stored_lamport "acct" (accepted n lamport s) ≡ some lamport
  on_file n lamport s small =
      stored_lamport-put (env n) "acct" (bundle lamport) s lamport
        (payload_lamport-payload_with_lamport lamport small)

  rejects_replayed_or_stale_lamport-passes :
      rejects_replayed_or_stale_lamport env empty ≡ (ok tt, accepted 1 6 (accepted 0 5 empty))
  unfolding rejects_replayed_or_stale_lamport
  rejects_replayed_or_stale_lamport-passes =
      let first = on_file 0 5 empty (omega arith) in
      let second = on_file 1 6 (accepted 0 5 empty) (omega arith) in
      rw
        (
          upsert_account-newer (env 0) (fine 0) "acct" empty (bundle 5) 5
              (ap (is_stale 5) (nothing_on_file "acct")),
          upsert_account-newer (env 1) (fine 1) "acct" (accepted 0 5 empty) (bundle 6) 6
              (ap (is_stale 6) first),
          upsert_account-stale (env 2) (fine 2) "acct" (accepted 1 6 (accepted 0 5 empty))
              (bundle 6) 6 (ap (is_stale 6) second),
          upsert_account-stale (env 3) (fine 3) "acct" (accepted 1 6 (accepted 0 5 empty))
              (bundle 4) 4 (ap (is_stale 4) second),
          get_account-put (env 4) (fine 4) "acct" (accepted 0 5 empty) (bundle 6) (env 1),
          payload_lamport-payload_with_lamport 6 (omega arith),
        )
        refl

  stale_publish_does_not_refresh_retention_clock-passes :
      stale_publish_does_not_refresh_retention_clock env empty ≡ (ok tt, accepted 0 9 empty)
  unfolding stale_publish_does_not_refresh_retention_clock
  stale_publish_does_not_refresh_retention_clock-passes =
      let first = on_file 0 9 empty (omega arith) in
      rw
        (
          upsert_account-newer (env 0) (fine 0) "acct" empty (bundle 9) 9
              (ap (is_stale 9) (nothing_on_file "acct")),
          get_account-put (env 1) (fine 1) "acct" empty (bundle 9) (env 0),
          upsert_account-stale (env 2) (fine 2) "acct" (accepted 0 9 empty) (bundle 9) 9
              (ap (is_stale 9) first),
          get_account-put (env 3) (fine 3) "acct" empty (bundle 9) (env 0),
          (eq_ℤ_iff (stamped (env 0) "acct" (bundle 9)).updated_at
                (stamped (env 0) "acct" (bundle 9)).updated_at).1
              refl,
        )
        refl

-- `payload_lamport_requires_domain_and_full_header`
header_required : payload_lamport_requires_domain_and_full_header ≡ true
unfolding payload_lamport_requires_domain_and_full_header payload_lamport Option.map Option.bind
    strip_prefix get_range from_le_bytes to_le_bytes
header_required = refl

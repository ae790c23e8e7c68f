-- ===== src/Store/Accounts/Reading.antt =====
-- What is on file for an account after `upsert_account` has written.
use mathlib.Core.Option
use chat_store.Common.{
  ℕ, String, ◌≡◌, refl, sym, ap, ◌∙◌, ◌==◌, true, none, some, if◌then◌else◌, find, find-upsert_text,
  eq_refl, Bool-cases, inl, inr,
}
use chat_store.Store.Rows.{Store, StoredAccountBundle}
use chat_store.Common.Exec.{ok}
use chat_store.Store.Sql.{Env, fetch}
use chat_store.Store.Accounts.{
  of_account, stamped, stored_lamport, upsert_account, get_account, to_bundle,
}
use chat_store.Store.Lamport.{payload_lamport}
use chat_store.Store.Cases.{put_account, upsert_account-cases}

-- The new row under its own account, and what was there under every other.
pub find-put_account :
    (env : Env) (account_pub id : String) (bundle : StoredAccountBundle) (s : Store)
    → find (of_account id) (put_account env account_pub bundle s).account_bundles ≡ (
        if account_pub == id
        then some (stamped env account_pub bundle)
        else find (of_account id) s.account_bundles)
find-put_account env account_pub id bundle s =
    find-upsert_text (λ r. r.account_pub) (stamped env account_pub bundle) id s.account_bundles

-- A bundle that was written is what the next fetch of its account serves, stamped with the clock of
-- the write; a fetch of any other account serves what it served before.
get_account-upsert_account :
    (env env' : Env) (account_pub id : String) (lamport : ℕ) (bundle : StoredAccountBundle)
    (s t : Store)
    → upsert_account env account_pub lamport bundle s ≡ (ok true, t)
    → env'.fault fetch ≡ none
    → (get_account env' id t).0 ≡ (
        if account_pub == id
        then ok (some (to_bundle (stamped env account_pub bundle)))
        else (get_account env' id s).0)
get_account-upsert_account env env' account_pub id lamport bundle s t done fine =
    elim (upsert_account-cases env account_pub lamport bundle s) [
      | inl (e, refused) ↦ cc (ap (λ r. r.0) (sym done ∙ refused))
      | inr (inl (old, same)) ↦ cc (ap (λ r. r.0) (sym done ∙ same))
      | inr (inr (new, put)) ↦
          let at : t ≡ put_account env account_pub bundle s = ap (λ r. r.1) (sym done ∙ put) in
          elim (Bool-cases (account_pub == id)) [
            | inl same ↦
                rw (at, same)
                  (unfold get_account Option.map in rw (fine, find-put_account, same) refl)
            | inr other ↦
                rw (at, other)
                  (unfold get_account Option.map in rw (fine, find-put_account, other) refl)
          ]
    ]

-- The version of a bundle that was written is on file.
pub stored_lamport-put :
    (env : Env) (id : String) (bundle : StoredAccountBundle) (s : Store) (lamport : ℕ)
    → payload_lamport bundle.payload ≡ some lamport
    → stored_lamport id (put_account env id bundle s) ≡ some lamport
unfolding stored_lamport Option.bind
stored_lamport-put env id bundle s lamport carries =
    rw (find-put_account env id id bundle s, eq_refl id) carries

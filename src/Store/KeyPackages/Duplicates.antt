-- ===== src/Store/KeyPackages/Duplicates.antt =====
-- The primary key of the keypackages is the device and the millisecond.
use chat_store.Common.{
  String, ◌≡◌, ◌≢◌, sym, ap, ◌∙◌, inl, inr, eq_refl, true, none, some, arith, find, Option-cases,
  List, [], ◌∷◌, ◌++◌, Bool,
}
use chat_store.Common.Int.{eq_ℤ}
use chat_store.Common.Exec.{ok, err}
use chat_store.Rust.{as_i64}
use chat_store.Store.Rows.{KeyPackageRow, Store, StoredKeyPackageBundle, unique_violation}
use chat_store.Store.Sql.{Env, now_ms, write}
use chat_store.Store.KeyPackages.{same_key, insert_row, insert}
use chat_store.Store.Cases.{received, add_keypackage, insert-cases}

find-append :
    (p : KeyPackageRow → Bool) (rows : List KeyPackageRow) (r : KeyPackageRow)
    → p r ≡ true
    → find p (rows ++ r ∷ []) ≢ none
unfolding find
find-append p [] r h e = ground arith
find-append p (x ∷ rows) r h e = ground (arith, find-append p rows r h)

eq_ℤ-refl : (a : _) → eq_ℤ a a ≡ true
unfolding eq_ℤ
eq_ℤ-refl a = ground arith

insert-taken :
    (env : Env) (device_id : String) (b : StoredKeyPackageBundle) (s : Store) (r : KeyPackageRow)
    → env.fault write ≡ none
    → find (same_key (received env device_id b)) s.keypackages ≡ some r
    → insert env device_id b s ≡ (err (unique_violation env.duplicate), s)
unfolding insert insert_row
insert-taken env device_id b s r fine taken = ground arith

-- A second bundle of one device in one millisecond of the clock is refused with the error of the
-- primary key, whatever it holds, and nothing is stored of it.
pub insert-duplicate :
    (env env' : Env) (device_id : String) (b b' : StoredKeyPackageBundle) (s t : Store)
    → insert env device_id b s ≡ (ok tt, t)
    → now_ms env'.since_epoch ≡ now_ms env.since_epoch
    → env'.fault write ≡ none
    → insert env' device_id b' t ≡ (err (unique_violation env'.duplicate), t)
insert-duplicate env env' device_id b b' s t done clock fine =
    elim (insert-cases env device_id b s) [
      | inl (e, refused) ↦ cc (ap (λ r. r.0) (sym done ∙ refused))
      | inr (free, put) ↦
          let at : t ≡ add_keypackage (received env device_id b) s =
            ap (λ r. r.1) (sym done ∙ put) in
          let same : same_key (received env' device_id b') (received env device_id b) ≡ true =
            rw (clock, eq_refl device_id) (eq_ℤ-refl (as_i64 (now_ms env.since_epoch))) in
          elim (Option-cases (find (same_key (received env' device_id b')) t.keypackages)) [
            | inl free' ↦ absurd (find-append _ s.keypackages _ same (rw at at free'))
            | inr (r, taken) ↦ insert-taken env' device_id b' t r fine taken
          ]
    ]

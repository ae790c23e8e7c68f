-- ===== src/Store/KeyPackages/Latest.antt =====
-- `latest` serves the row of the device with the greatest receipt time.
use mathlib.Core.List.{Memᴰ, append-nil}
use mathlib.Core.Option
use chat_store.Common.{
  String, ◌≡◌, ◌≢◌, refl, sym, ap, subst, ◌∙◌, inl, inr, eq_iff, eq_refl, true, false, none, some,
  some-injective, List, [], ◌∷◌, ◌++◌, arith, All, All-imp, Bool-cases, Option-cases, select,
  mem-of-select, select-append,
}
use chat_store.Common.Int.{lt_ℤ, lt_ℤ-irrefl, lt_ℤ-asymm, not-lt_ℤ-trans}
use chat_store.Common.Exec.{ok}
use chat_store.Rust.{as_i64}
use chat_store.Store.Rows.{KeyPackageRow, Store, StoredKeyPackageBundle}
use chat_store.Store.Sql.{Env, fetch, now_ms}
use chat_store.Store.KeyPackages.{insert, newest, of_device, to_bundle, latest}
use chat_store.Store.Cases.{received, add_keypackage, insert-cases}

-- No row of `rows` was received after `r`.
abbrev pub IsNewest : KeyPackageRow → List KeyPackageRow → Type 0
IsNewest r rows = All (λ q. lt_ℤ r.received_at q.received_at ≡ false) rows

newest-eq-none : (rows : List KeyPackageRow) → newest rows ≡ none → rows ≡ []
unfolding newest
newest-eq-none [] h = refl
newest-eq-none (x ∷ rows) h = ground arith

newest-IsNewest :
    (rows : List KeyPackageRow) (r : KeyPackageRow)
    → newest rows ≡ some r
    → Memᴰ r rows × IsNewest r rows
unfolding newest
newest-IsNewest [] r h = cc
newest-IsNewest (x ∷ rows) r h = elim (Option-cases (newest rows)) [
  | inl e ↦
      let same : x ≡ r = some-injective _ _ (rw e at h) in
      rw (← same, newest-eq-none rows e) (Memᴰ.head refl, (lt_ℤ-irrefl x.received_at, tt))
  | inr (q, e) ↦
      let (m, latest) = newest-IsNewest rows q e in
      elim (Bool-cases (lt_ℤ x.received_at q.received_at)) [
        | inl older ↦
            let same : q ≡ r = some-injective _ _ (rw (e, older) at h) in
            subst (λ y. Memᴰ y (x ∷ rows) × IsNewest y (x ∷ rows)) same
              (Memᴰ.tail m, (lt_ℤ-asymm _ _ older, latest))
        | inr newer ↦
            let same : x ≡ r = some-injective _ _ (rw (e, newer) at h) in
            subst (λ y. Memᴰ y (x ∷ rows) × IsNewest y (x ∷ rows)) same
              (
                Memᴰ.head refl,
                (
                  lt_ℤ-irrefl x.received_at,
                  All-imp rows (λ y k. not-lt_ℤ-trans _ q.received_at _ newer k) latest,
                ),
              )
      ]
]

newest-append :
    (rows : List KeyPackageRow) (r : KeyPackageRow)
    → All (λ q. lt_ℤ q.received_at r.received_at ≡ true) rows
    → newest (rows ++ r ∷ []) ≡ some r
unfolding newest
newest-append [] r h = refl
newest-append (q ∷ rows) r h = rw (newest-append rows r h.1, h.0) refl

-- What a fetch serves is the payload and the signature of a row of the device that no other row of
-- the device is later than.
pub latest-IsNewest :
    (env : Env) (device_id : String) (s : Store) (b : StoredKeyPackageBundle)
    → (latest env device_id s).0 ≡ ok (some b)
    → (r : KeyPackageRow) × Memᴰ r s.keypackages
      × (r.device_id ≡ device_id)
      × (b ≡ to_bundle r)
      × IsNewest r (select (of_device device_id) s.keypackages)
unfolding latest
latest-IsNewest env device_id s b h = elim (Option-cases (env.fault fetch)) [
  | inr (e, failed) ↦ cc (rw failed at h)
  | inl fine ↦
      let answered : Option.map to_bundle (newest (select (of_device device_id) s.keypackages))
          ≡ some b =
        ground arith in
      let (r, found, same) = (Option.map-eq-some_iff _ _).0 answered in
      let (m, first) = newest-IsNewest _ r found in
      let (listed, owner) = mem-of-select (of_device device_id) s.keypackages m in
      (r, listed, (eq_iff _ _).0 owner, sym same, first)
]

select-owner :
    (id : String) (row : KeyPackageRow)
    → of_device id row ≡ true
    → select (of_device id) (row ∷ []) ≡ row ∷ []
unfolding select
select-owner id row h = rw h refl

select-foreign :
    (id : String) (row : KeyPackageRow)
    → of_device id row ≡ false
    → select (of_device id) (row ∷ []) ≡ []
unfolding select
select-foreign id row h = rw h refl

-- Where the rows of the device are all earlier than the clock, a bundle that was inserted is the
-- one that the next fetch answered by the database serves.
pub latest-insert :
    (env env' : Env) (device_id : String) (b : StoredKeyPackageBundle) (s t : Store)
    → All
        (λ r. lt_ℤ r.received_at (as_i64 (now_ms env.since_epoch)) ≡ true)
        (select (of_device device_id) s.keypackages)
    → insert env device_id b s ≡ (ok tt, t)
    → env'.fault fetch ≡ none
    → latest env' device_id t ≡ (ok (some b), t)
latest-insert env env' device_id b s t earlier done fine = elim (insert-cases env device_id b s) [
  | inl (e, refused) ↦ cc (ap (λ r. r.0) (sym done ∙ refused))
  | inr (free, put) ↦
      let row = received env device_id b in
      let at : t ≡ add_keypackage row s = ap (λ r. r.1) (sym done ∙ put) in
      let found : newest (select (of_device device_id) (s.keypackages ++ row ∷ [])) ≡ some row =
        rw (select-append, select-owner device_id row (eq_refl device_id))
          (newest-append (select (of_device device_id) s.keypackages) row earlier) in
      rw at (unfold latest Option.map in rw (fine, found) refl)
]

-- The other devices see no difference.
latest-insert_ne :
    (env env' : Env) (device_id other : String) (b : StoredKeyPackageBundle) (s : Store)
    → device_id ≢ other
    → (latest env' other (insert env device_id b s).1).0 ≡ (latest env' other s).0
latest-insert_ne env env' device_id other b s ne = elim (insert-cases env device_id b s) [
  | inl (e, refused) ↦ rw refused refl
  | inr (free, put) ↦
      let row = received env device_id b in
      let foreign : of_device other row ≡ false = ground (arith, eq_iff device_id other) in
      let kept : select (of_device other) (s.keypackages ++ row ∷ [])
          ≡ select (of_device other) s.keypackages =
        rw (select-append, select-foreign other row foreign) (append-nil _) in
      elim (Option-cases (env'.fault fetch)) [
        | inl fine ↦ rw put (unfold latest in rw (fine, kept) refl)
        | inr (e, failed) ↦ unfold latest in rw failed refl
      ]
]

-- ===== src/Common/Filters.antt =====
-- A table seen through a filter: what the filter selects of the result of each table operation is
-- the result of the operation on what it selects.
use mathlib.Core.Path.{◌≡◌, refl}
use mathlib.Core.Bool.{Bool, true, false}
use mathlib.Core.Logic.{inl, inr}
use mathlib.Core.List.{List, [], ◌∷◌}
use native.Mathlib.Omega.{arith}
use chat_store.Common.Tests.{Bool-cases}
use chat_store.Common.Tables.{select, count, find, upsert}

module _ {ℓ} {A : Type ℓ} (q : A → Bool) where
  -- Every row that `p` is true of passes the filter.
  abbrev pub Passes : (A → Bool) → Type ℓ
  Passes p = (x : A) → p x ≡ true → q x ≡ true

  -- No row that `p` is true of does.
  abbrev pub Misses : (A → Bool) → Type ℓ
  Misses p = (x : A) → p x ≡ true → q x ≡ false

  pub find-filter : (p : A → Bool) (xs : List A) → Passes p → find p (select q xs) ≡ find p xs
  unfolding find select
  find-filter p [] h = refl
  find-filter p (x ∷ xs) h = ground (arith, h x, find-filter p xs h)

  pub select-filter : (p : A → Bool) (xs : List A) → Passes p → select p (select q xs) ≡ select p xs
  unfolding select
  select-filter p [] h = refl
  select-filter p (x ∷ xs) h = ground (arith, h x, select-filter p xs h)

  pub count-filter : (p : A → Bool) (xs : List A) → Passes p → count p (select q xs) ≡ count p xs
  unfolding count select
  count-filter p [] h = refl
  count-filter p (x ∷ xs) h = ground (arith, h x, count-filter p xs h)

  pub select_comm : (p : A → Bool) (xs : List A) → select q (select p xs) ≡ select p (select q xs)
  unfolding select
  select_comm p [] = refl
  select_comm p (x ∷ xs) = ground (arith, select_comm p xs)

  pub filter-upsert :
      (p : A → Bool) (row : A) (xs : List A)
      → Passes p
      → q row ≡ true
      → select q (upsert p row xs) ≡ upsert p row (select q xs)
  unfolding select upsert
  filter-upsert p row [] h k = rw k refl
  filter-upsert p row (x ∷ xs) h k = ground (arith, h x, k, filter-upsert p row xs h k)

  pub filter-upsert_foreign :
      (p : A → Bool) (row : A) (xs : List A)
      → Misses p
      → q row ≡ false
      → select q (upsert p row xs) ≡ select q xs
  unfolding select upsert
  filter-upsert_foreign p row [] h k = rw k refl
  filter-upsert_foreign p row (x ∷ xs) h k =
      ground (arith, h x, k, filter-upsert_foreign p row xs h k)

  -- Two tests that agree where the filter passes select the same of what it selects.
  pub select-agree :
      (p p' : A → Bool) (xs : List A)
      → ((x : A) → q x ≡ true → p x ≡ p' x)
      → select p (select q xs) ≡ select p' (select q xs)
  unfolding select
  select-agree p p' [] h = refl
  select-agree p p' (x ∷ xs) h = elim (Bool-cases (q x)) [
    | inl e ↦ rw (e, h x e, select-agree p p' xs h) refl
    | inr e ↦ rw (e, select-agree p p' xs h) refl
  ]

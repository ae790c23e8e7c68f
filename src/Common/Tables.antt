-- ===== src/Common/Tables.antt =====
-- The rows of a table: what a `WHERE` selects, counts and finds, and the upsert by a key.
use Prim.Native.Nat.{ℕ, suc, ◌≤◌}
use Prim.Native.String.{String}
use text.Mathlib.Text.{◌==◌}
use text.Mathlib.TextEquality.{eq_iff}
use mathlib.Core.Path.{◌≡◌, refl, ap, sym, ◌∙◌}
use mathlib.Core.Logic.{inl, inr}
use mathlib.Core.Bool.{Bool, true, false, ◌&&◌}
use mathlib.Core.Option.{Option, none, some, some-injective}
use mathlib.Core.List.{List, [], ◌∷◌, ◌++◌, Memᴰ}
use mathlib.Core.List.Memᴰ
use native.Mathlib.Omega.{arith}
use chat_store.Common.Tests.{Bool-cases, if◌then◌else◌}
use chat_store.Common.Lists.{All, All-append, All-imp}

module _ {ℓ} {A : Type ℓ} where
  -- The rows that a test selects, in their order (`WHERE`).
  unfoldable pub select : (A → Bool) → List A → List A
  select p [] = []
  select p (x ∷ xs) = if p x then x ∷ select p xs else select p xs

  -- How many rows a test selects (`COUNT`).
  unfoldable pub count : (A → Bool) → List A → ℕ
  count p [] = 0
  count p (x ∷ xs) = if p x then suc (count p xs) else count p xs

  -- The first row that a test selects (`fetch_optional`).
  unfoldable pub find : (A → Bool) → List A → Option A
  find p [] = none
  find p (x ∷ xs) = if p x then some x else find p xs

  -- INSERT … ON CONFLICT(key) DO UPDATE: the first row that `p` selects, the one of that key, is
  -- replaced; with none, the new row is added.
  unfoldable pub upsert : (A → Bool) → A → List A → List A
  upsert p row [] = row ∷ []
  upsert p row (x ∷ xs) = if p x then row ∷ xs else x ∷ upsert p row xs

  pub select-append :
      (p : A → Bool) (xs ys : List A) → select p (xs ++ ys) ≡ select p xs ++ select p ys
  unfolding select
  select-append p [] ys = refl
  select-append p (x ∷ xs) ys = ground (arith, select-append p xs ys)

  pub count_mono :
      (p q : A → Bool) (xs : List A) → ((x : A) → p x ≡ true → q x ≡ true) → count p xs ≤ count q xs
  unfolding count
  count_mono p q [] h = omega arith
  count_mono p q (x ∷ xs) h = ground (arith, count_mono p q xs h, h x)

  pub count-eq-zero : (p : A → Bool) (xs : List A) → count p xs ≡ 0 → All (λ x. p x ≡ false) xs
  unfolding count
  count-eq-zero p [] h = tt
  count-eq-zero p (x ∷ xs) h = ground (arith, count-eq-zero p xs)

  pub count-le_of_All :
      (p q : A → Bool) (xs : List A)
      → All (λ x. p x ≡ true → q x ≡ true) xs
      → count p xs ≤ count q xs
  unfolding count
  count-le_of_All p q [] h = omega arith
  count-le_of_All p q (x ∷ xs) h = ground (arith, count-le_of_All p q xs h.1, h.0)

  pub select-none : (p : A → Bool) (xs : List A) → ((x : A) → p x ≡ false) → select p xs ≡ []
  unfolding select
  select-none p [] h = refl
  select-none p (x ∷ xs) h = rw h (select-none p xs h)

  pub select-none_of_All :
      (p : A → Bool) (xs : List A) → All (λ x. p x ≡ false) xs → select p xs ≡ []
  unfolding select
  select-none_of_All p [] h = refl
  select-none_of_All p (x ∷ xs) h = rw h.0 (select-none_of_All p xs h.1)

  pub count-select-le : (p q : A → Bool) (xs : List A) → count p (select q xs) ≤ count p xs
  unfolding count select
  count-select-le p q [] = omega arith
  count-select-le p q (x ∷ xs) = ground (arith, count-select-le p q xs)

  pub select-select :
      (p q : A → Bool) (xs : List A) → select p (select q xs) ≡ select (λ x. q x && p x) xs
  unfolding select
  select-select p q [] = refl
  select-select p q (x ∷ xs) = ground (arith, select-select p q xs)

  pub find-eq-none : (p : A → Bool) (xs : List A) → find p xs ≡ none → All (λ x. p x ≡ false) xs
  unfolding find
  find-eq-none p [] h = tt
  find-eq-none p (x ∷ xs) h = ground (arith, find-eq-none p xs)

module _ {ℓ κ} {A : Type ℓ} (P : A → Type κ) where
  pub All-select : (p : A → Bool) (xs : List A) → All P xs → All P (select p xs)
  unfolding select
  All-select p [] h = h
  All-select p (x ∷ xs) h = ground (arith, All-select p xs)

  pub All-upsert :
      (p : A → Bool) (row : A) (xs : List A) → All P xs → P row → All P (upsert p row xs)
  unfolding upsert
  All-upsert p row [] h k = (k, tt)
  All-upsert p row (x ∷ xs) h k = ground (arith, All-upsert p row xs)

-- Rows with a primary key: no two rows are the same by `same`.
module _ {ℓ} {A : Type ℓ} (same : A → A → Bool) where
  pub record IsKey : Type ℓ where
    pub symm : (x y : A) → same x y ≡ true → same y x ≡ true
    pub trans : (x y z : A) → same x y ≡ true → same y z ≡ true → same x z ≡ true

  abbrev pub Distinct : List A → Type 0
  Distinct [] = Unit
  Distinct (x ∷ xs) = All (λ y. same x y ≡ false) xs × Distinct xs

  pub Distinct-select : (p : A → Bool) (xs : List A) → Distinct xs → Distinct (select p xs)
  unfolding select
  Distinct-select p [] h = tt
  Distinct-select p (x ∷ xs) h =
      ground (arith, Distinct-select p xs, All-select (λ y. same x y ≡ false) p xs)

  module _ (key : IsKey) where
    same-false : (x y : A) → same x y ≡ false → same y x ≡ false
    same-false x y h = elim (Bool-cases (same y x)) [ inl e ↦ cc (key.symm y x e) | inr e ↦ e ]

    apart : {x y z : A} → same x y ≡ true → same y z ≡ false → same z x ≡ false
    apart {x} {y} {z} e far = elim (Bool-cases (same z x)) [
      | inl near ↦ cc (key.symm z y (key.trans z x y near e))
      | inr h ↦ h
    ]

    pub Distinct-append :
        (xs : List A) (row : A)
        → All (λ x. same row x ≡ false) xs
        → Distinct xs
        → Distinct (xs ++ row ∷ [])
    Distinct-append [] row h d = (tt, tt)
    Distinct-append (x ∷ xs) row h d = (
      All-append (λ y. same x y ≡ false) xs (row ∷ []) d.0 (same-false row x h.0, tt),
      Distinct-append xs row h.1 d.1,
    )

    pub Distinct-upsert :
        (row : A) (xs : List A) → Distinct xs → Distinct (upsert (same row) row xs)
    unfolding upsert
    Distinct-upsert row [] d = (tt, tt)
    Distinct-upsert row (x ∷ xs) d = elim (Bool-cases (same row x)) [
      | inl e ↦ rw e (All-imp xs (λ y far. same-false y row (apart e far)) d.0, d.1)
      | inr e ↦ rw e (
        All-upsert (λ y. same x y ≡ false) (same row) row xs d.0 (same-false row x e),
        Distinct-upsert row xs d.1,
      )
    ]

-- Two rows are the same where a column of text is.
pub IsKey-text {ℓ} : {A : Type ℓ} (key : A → String) → IsKey (λ row r. key r == key row)
IsKey-text key = record {
  symm = λ x y h. ground (arith, eq_iff (key y) (key x), eq_iff (key x) (key y));
  trans = λ x y z h k.
      ground (arith, eq_iff (key y) (key x), eq_iff (key z) (key y), eq_iff (key z) (key x));
}

-- An upsert by a column of text, read back by that column.
pub find-upsert_text {ℓ} :
    {A : Type ℓ} (key : A → String) (row : A) (id : String) (xs : List A)
    → find (λ r. key r == id) (upsert (λ r. key r == key row) row xs)
      ≡ (if key row == id then some row else find (λ r. key r == id) xs)
unfolding find upsert
find-upsert_text key row id [] = refl
find-upsert_text key row id (x ∷ xs) = ground (
  arith,
  find-upsert_text key row id xs,
  eq_iff (key row) id,
  eq_iff (key x) id,
  eq_iff (key x) (key row),
)

module _ {ℓ} {A : Type ℓ} where
  pub mem-select :
      (p : A → Bool) (xs : List A) {x : A} → Memᴰ x xs → p x ≡ true → Memᴰ x (select p xs)
  unfolding select
  mem-select p [] m h = absurd (Memᴰ.not-nil m)
  mem-select p (y ∷ ys) (Memᴰ.head e) h = rw (← ap p e, h) (Memᴰ.head e)
  mem-select p (y ∷ ys) (Memᴰ.tail m) h = elim (Bool-cases (p y)) [
    | inl e ↦ rw e (Memᴰ.tail (mem-select p ys m h))
    | inr e ↦ rw e (mem-select p ys m h)
  ]

  pub mem-of-select :
      (p : A → Bool) (xs : List A) {x : A} → Memᴰ x (select p xs) → Memᴰ x xs × (p x ≡ true)
  unfolding select
  mem-of-select p [] m = absurd (Memᴰ.not-nil m)
  mem-of-select p (y ∷ ys) m = elim (Bool-cases (p y)) [
    | inl e ↦ elim (Memᴰ.cases_cons (rw e at m)) [
      | inl same ↦ (Memᴰ.head same, ap p same ∙ e)
      | inr later ↦ let (a, b) = mem-of-select p ys later in (Memᴰ.tail a, b)
    ]
    | inr e ↦ let (a, b) = mem-of-select p ys (rw e at m) in (Memᴰ.tail a, b)
  ]

  pub find-mem :
      (p : A → Bool) (xs : List A) {x : A} → find p xs ≡ some x → Memᴰ x xs × (p x ≡ true)
  unfolding find
  find-mem p [] h = cc
  find-mem p (y ∷ ys) h = elim (Bool-cases (p y)) [
    | inl e ↦
        let same = some-injective _ _ (rw e at h) in (Memᴰ.head (sym same), ap p (sym same) ∙ e)
    | inr e ↦ let (a, b) = find-mem p ys (rw e at h) in (Memᴰ.tail a, b)
  ]

-- ===== src/Store/KeyPackages/Pruning/Counting.antt =====
-- The rows of a device that are newer than a given one, counted: the numbers that the second
-- statement of `prune_key_packages` gives them.
use mathlib.Core.List.{Memᴰ}
use mathlib.Core.List.Memᴰ
use chat_store.Common.{
  ℕ, suc, ◌≤◌, ◌<◌, ◌^◌, String, ◌≡◌, refl, sym, subst, ◌⊎◌, inl, inr, eq_iff, eq_refl, true, false,
  List, [], ◌∷◌, arith, All, All-mem, All-imp, All-zip, count-eq-zero, count-le_of_All, Bool-cases,
  select, count, count_mono, count-select-le, mem-of-select, Distinct, Distinct-select,
}
use chat_store.Common.Int.{lt_ℤ, eq_ℤ, lt_ℤ-irrefl, lt_ℤ-trans, not-lt_ℤ-of_lt}
use chat_store.Rust.{as_i64}
use chat_store.Store.Rows.{KeyPackageRow}
use chat_store.Store.KeyPackages.{same_key, of_device, is_newer, row_number, few, drop_excess}

-- No row of the device is earlier than `r`.
abbrev IsOldest : String → KeyPackageRow → List KeyPackageRow → Type 0
IsOldest id r = All (λ q. of_device id q ≡ true → lt_ℤ q.received_at r.received_at ≡ false)

-- A device has no row, or it has an oldest one.
oldest :
    (id : String) (rows : List KeyPackageRow)
    → (count (of_device id) rows ≡ 0)
      ⊎ ((r : KeyPackageRow) × Memᴰ r rows × (of_device id r ≡ true) × IsOldest id r rows)
unfolding count
oldest id [] = inl refl
oldest id (x ∷ rows) = elim (Bool-cases (of_device id x)) [
  | inr foreign ↦ elim (oldest id rows) [
    | inl empty ↦ inl (rw foreign empty)
    | inr (r, m, own, old) ↦ inr (r, Memᴰ.tail m, own, (λ h. cc, old))
  ]
  | inl own ↦ elim (oldest id rows) [
    | inl empty ↦ inr (
      x,
      Memᴰ.head refl,
      own,
      (
        λ h. lt_ℤ-irrefl x.received_at,
        All-imp {P = λ y. of_device id y ≡ false} rows (λ y no_one k. cc)
            (count-eq-zero (of_device id) rows empty),
      ),
    )
    | inr (r, m, own', old) ↦ elim (Bool-cases (lt_ℤ x.received_at r.received_at)) [
      | inl older ↦ inr (
        x,
        Memᴰ.head refl,
        own,
        (
          λ h. lt_ℤ-irrefl x.received_at,
          All-imp rows (λ y k mine. not-lt_ℤ-of_lt _ _ r.received_at older (k mine)) old,
        ),
      )
      | inr newer ↦ inr (r, Memᴰ.tail m, own', (λ h. newer, old))
    ]
  ]
]

newer_than :
    (id : String) (r q : KeyPackageRow)
    → of_device id r ≡ true
    → of_device id q ≡ true
    → lt_ℤ q.received_at r.received_at ≡ false
    → (same_key r q ≡ false) ⊎ (same_key q r ≡ false)
    → is_newer r q ≡ true
unfolding lt_ℤ eq_ℤ
newer_than id r q own mine older apart = ground (
  arith,
  eq_iff r.device_id id,
  eq_iff q.device_id id,
  eq_iff q.device_id r.device_id,
  eq_iff r.device_id q.device_id,
)

-- All rows of a device but its oldest are newer than that one.
count-le-newer :
    (id : String) (r : KeyPackageRow) (rows : List KeyPackageRow)
    → Distinct same_key rows
    → Memᴰ r rows
    → of_device id r ≡ true
    → IsOldest id r rows
    → count (of_device id) rows ≤ suc (count (is_newer r) rows)
unfolding count
count-le-newer id r [] distinct m own old = absurd (Memᴰ.not-nil m)
count-le-newer id r (x ∷ rows) (apart, distinct) (Memᴰ.head e) own (_, old) =
    let away = subst (λ y. All (λ q. same_key y q ≡ false) rows) (sym e) apart in
    let rest : count (of_device id) rows ≤ count (is_newer r) rows =
      count-le_of_All (of_device id) (is_newer r) rows (
        All-zip rows (λ q far low mine. newer_than id r q own mine (low mine) (inl far)) away
          old) in
    ground (arith, e)
count-le-newer id r (x ∷ rows) (apart, distinct) (Memᴰ.tail m) own (low, old) =
    let rest = count-le-newer id r rows distinct m own old in
    let far = All-mem (λ q. same_key x q ≡ false) m apart in
    elim (Bool-cases (of_device id x)) [
      | inl mine ↦ rw (mine, newer_than id r x own mine (low mine) (inr far)) (omega arith)
      | inr foreign ↦ ground arith
    ]

-- A row stays where its number is at most the limit.
pub few-le :
    (limit : ℕ) (rows : List KeyPackageRow) (r : KeyPackageRow)
    → limit < 2 ^ 63
    → few limit rows r ≡ true
    → row_number rows r ≤ limit
unfolding as_i64 lt_ℤ
few-le limit rows r small h = ground arith

pub few-of-le :
    (limit : ℕ) (rows : List KeyPackageRow) (r : KeyPackageRow)
    → limit < 2 ^ 63
    → row_number rows r ≤ limit
    → few limit rows r ≡ true
unfolding as_i64 lt_ℤ
few-of-le limit rows r small h = ground arith

-- Later rows of one device have lower numbers.
pub row_number_mono :
    (rows : List KeyPackageRow) (r q : KeyPackageRow)
    → q.device_id ≡ r.device_id
    → lt_ℤ r.received_at q.received_at ≡ true
    → row_number rows q ≤ row_number rows r
unfolding row_number
row_number_mono rows r q same later = omega (
  arith,
  count_mono (is_newer q) (is_newer r) rows (λ x newer. ground (
    arith,
    eq_iff x.device_id q.device_id,
    eq_iff x.device_id r.device_id,
    lt_ℤ-trans r.received_at q.received_at x.received_at later,
  )),
)

-- The rows of one device that `drop_excess` leaves are at most as many as the limit.
pub count-drop_excess :
    (limit : ℕ) (id : String) (rows : List KeyPackageRow)
    → limit < 2 ^ 63
    → Distinct same_key rows
    → count (of_device id) (drop_excess limit rows) ≤ limit
unfolding drop_excess
count-drop_excess limit id rows small distinct =
    let left = select (few limit rows) rows in
    elim (oldest id left) [
      | inl empty ↦ omega arith
      | inr (r, m, own, old) ↦
          let (listed, low) = mem-of-select (few limit rows) rows m in
          let bound =
            count-le-newer id r left (Distinct-select same_key _ rows distinct) m own old in
          let fewer : count (is_newer r) left ≤ count (is_newer r) rows =
            count-select-le (is_newer r) (few limit rows) rows in
          let numbered = few-le limit rows r small low in unfold row_number in omega arith
    ]

pub few_overflow :
    (limit : ℕ) (rows : List KeyPackageRow) (r : KeyPackageRow)
    → 2 ^ 63 ≤ limit
    → limit < 2 ^ 64
    → few limit rows r ≡ false
unfolding as_i64 lt_ℤ
few_overflow limit rows r large word = ground arith

pub row_number-le_count :
    (r : KeyPackageRow) (rows : List KeyPackageRow)
    → Memᴰ r rows
    → row_number rows r ≤ count (of_device r.device_id) rows
unfolding row_number count
row_number-le_count r [] m = absurd (Memᴰ.not-nil m)
row_number-le_count r (x ∷ rows) (Memᴰ.head e) =
    let rest : count (is_newer r) rows ≤ count (of_device r.device_id) rows =
      count_mono (is_newer r) (of_device r.device_id) rows (λ q h. ground arith) in
    ground (arith, eq_refl r.device_id, lt_ℤ-irrefl r.received_at, e)
row_number-le_count r (x ∷ rows) (Memᴰ.tail m) = ground (arith, row_number-le_count r rows m)

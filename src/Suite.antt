-- ===== src/Suite.antt =====
-- The test modules at the end of src/store.rs and src/bundle.rs, as code that runs against the
-- modelled store. A test begins with the tables of `Store::open(":memory:")`, which are empty; each
-- of its calls has its own clock and failures, the n-th in `surroundings n`. This file has what the
-- tests take from Rust: a panic is an error of its own.
pub mod Stores
pub mod Bundles
use mathlib.Core.Option
use chat_store.Common.{ℕ, Bool, true, false, Option, none, some, if◌then◌else◌, beq}
use chat_store.Common.Exec.{Result, ok, err, Exec, ok_or, exec_map_err}
use chat_store.Store.{Store, Env}

-- How a test fails: an assertion is false, or the wrong side of a `Result` or `Option` is unwrapped.
pub data Panic : Type 0 where
  assertion_failed unwrapped_err unwrapped_ok unwrapped_none : Panic

abbrev pub Check : Type 0 → Type 0
Check A = Exec Store Panic A

abbrev pub Surroundings : Type 0
Surroundings = ℕ → Env

abbrev pub assert : Bool → Result Panic (Unit {0})
assert true = ok tt
assert false = err assertion_failed

-- `assert_eq!` of two `Option<u64>`
abbrev pub eq_option : Option ℕ → Option ℕ → Bool
eq_option (some a) (some b) = beq a b
eq_option none none = true
eq_option _ _ = false

abbrev pub unwrap_some : {A : Type 0} → Option A → Result Panic A
unwrap_some found = ok_or unwrapped_none found

abbrev pub unwrap_result : {E A : Type 0} → Result E A → Result Panic A
unwrap_result (ok a) = ok a
unwrap_result (err _) = err unwrapped_err

abbrev pub flipped : {E A : Type 0} → Result E A → Result Panic E
flipped (ok _) = err unwrapped_ok
flipped (err e) = ok e

abbrev pub unwrap : {E A : Type 0} → Exec Store E A → Check A
unwrap m s = let (r, t) = m s in (unwrap_result r, t)

abbrev pub unwrap_err : {E A : Type 0} → Exec Store E A → Check E
unwrap_err m s = let (r, t) = m s in (flipped r, t)

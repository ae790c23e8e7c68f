-- ===== src/Store/Isolation.antt =====
-- The part of the tables that some ids own. An operation on one of these ids does with that part
-- what it does with all of the tables, and an operation on another id leaves it alone.
pub mod Operations
pub mod Foreign
pub mod Pruning
use chat_store.Common.{
  String, Bool, true, inl, inr, Bool-cases, if◌then◌else◌, ◌≡◌, refl, ap, ◌∙◌, select,
}
use chat_store.Common.Exec.{
  Result, ok, err, Exec, pure, lift, gets, continue, ◌>>=◌, exec_map_err, map_err,
}
use chat_store.Store.Rows.{Store, StoreError}
use chat_store.Store.Sql.{Env, Db, Statement, answer, modify}

module _ (owned : String → Bool) where
  -- The rows of the owned ids.
  unfoldable pub only : Store → Store
  only s = record {
    keypackages = select (λ r. owned r.device_id) s.keypackages;
    account_bundles = select (λ r. owned r.account_pub) s.account_bundles;
    account_logs = select (λ r. owned r.account_pub) s.account_logs;
  }

  module _ {E A : Type 0} where
    -- On the owned rows alone, the same result, and the owned rows of the same tables.
    abbrev pub IsLocal : Exec Store E A → Type 0
    IsLocal m = (s : Store) → m (only s) ≡ ((m s).0, only (m s).1)

    -- The owned rows stay.
    abbrev pub IsForeign : Exec Store E A → Type 0
    IsForeign m = (s : Store) → only (m s).1 ≡ only s

  module _ {E A B : Type 0} (f : A → Exec Store E B) where
    continue-IsLocal :
        (r : Result E A) (t : Store)
        → ((a : A) → r ≡ ok a → IsLocal (f a))
        → continue r f (only t) ≡ ((continue r f t).0, only (continue r f t).1)
    continue-IsLocal (ok a) t h = h a refl t
    continue-IsLocal (err e) t h = refl

    pub bind-IsLocal :
        (m : Exec Store E A) → IsLocal m → ((a : A) → IsLocal (f a)) → IsLocal (m >>= f)
    bind-IsLocal m h k s =
        ap (λ p. continue p.0 f p.1) (h s) ∙ continue-IsLocal (m s).0 (m s).1 (λ a e. k a)

    -- A result that is there already, of which the rest may use that it is one.
    pub lift-IsLocal :
        (r : Result E A) → ((a : A) → r ≡ ok a → IsLocal (f a)) → IsLocal (lift r >>= f)
    lift-IsLocal r h s = continue-IsLocal r s h

    pub lift-IsForeign :
        (r : Result E A) → ((a : A) → r ≡ ok a → IsForeign (f a)) → IsForeign (lift r >>= f)
    lift-IsForeign (ok a) h s = h a refl s
    lift-IsForeign (err e) h s = refl

    continue-IsForeign :
        (r : Result E A) (t : Store)
        → ((a : A) → IsForeign (f a))
        → only (continue r f t).1 ≡ only t
    continue-IsForeign (ok a) t h = h a t
    continue-IsForeign (err e) t h = refl

    pub bind-IsForeign :
        (m : Exec Store E A) → IsForeign m → ((a : A) → IsForeign (f a)) → IsForeign (m >>= f)
    bind-IsForeign m h k s = continue-IsForeign (m s).0 (m s).1 k ∙ h s

  module _ {E F A : Type 0} (g : E → F) (m : Exec Store E A) where
    pub map_err-IsLocal : IsLocal m → IsLocal (exec_map_err g m)
    map_err-IsLocal h s = ap (λ p. (map_err g p.0, p.1)) (h s)

    pub map_err-IsForeign : IsForeign m → IsForeign (exec_map_err g m)
    map_err-IsForeign h s = h s

  module _ (f : Store → Store) where
    pub modify-IsLocal : ((s : Store) → f (only s) ≡ only (f s)) → IsLocal (modify f)
    modify-IsLocal h s = ap (λ t. (ok tt, t)) (h s)

  pub gets-IsLocal :
      {E A : Type 0} (f : Store → A) → ((s : Store) → f (only s) ≡ f s) → IsLocal {E = E} (gets f)
  gets-IsLocal f h s = ap (λ a. (ok a, only s)) (h s)

  module _ {E A : Type 0} (b : Bool) (m n : Exec Store E A) where
    pub if-IsLocal : IsLocal m → IsLocal n → IsLocal (if b then m else n)
    if-IsLocal h k s = elim (Bool-cases b) [ inl e ↦ rw e (h s) | inr e ↦ rw e (k s) ]

    pub if-IsForeign : IsForeign m → IsForeign n → IsForeign (if b then m else n)
    if-IsForeign h k s = elim (Bool-cases b) [ inl e ↦ rw e (h s) | inr e ↦ rw e (k s) ]

-- ===== src/Clients/Threads/Solo.antt =====
-- A program alone at the service does what its code does, statement by statement.
use chat_store.Common.{ℕ, zero, suc, ◌+◌, ◌≤◌, arith, ◌≡◌, refl, ap, ◌∙◌, inl, inr, String, Bool}
use chat_store.Common.Exec
use chat_store.Common.Exec.{Result, ok, err, Exec, continue, lift, Result-cases}
use chat_store.Crates.{Crates}
use chat_store.Store.{Store}
use chat_store.Handlers.Endpoints.{Request, Response}
use chat_store.Clients.Requests.{Exchange, ClientError, Client, send}
use chat_store.Clients.Threads.{Thread, finished, asks, ◌>>=◌, solo, IsAbout, IsWithin}

-- One request, whose answer is the result.
abbrev pub ask : Exchange → Request → Thread Response
ask exchange req = asks exchange req (λ response. finished (ok response))

module _ (crates : Crates) where
  solo-then :
      {A B : Type 0} (t : Thread A) (f : A → Thread B) (s : Store)
      → solo crates (t >>= f) s
        ≡ continue (solo crates t s).0 (λ a. solo crates (f a)) (solo crates t s).1
  unfolding solo ◌>>=◌
  solo-then (finished (ok a)) f s = refl
  solo-then (finished (err e)) f s = refl
  solo-then (asks exchange req k) f s = elim (Result-cases (send crates exchange req s).0) [
    | inl (response, e) ↦ rw e (solo-then (k response) f (send crates exchange req s).1)
    | inr (g, e) ↦ rw e refl
  ]

  -- The thread is the code.
  pub record Same {A : Type 0} (t : Thread A) (m : Client A) : Type 0 where
    pub same : (s : Store) → solo crates t s ≡ m s

  continue-Same :
      {A B : Type 0} (r : Result ClientError A) (f : A → Thread B) (g : A → Client B) (s : Store)
      → ((a : A) → Same (f a) (g a))
      → continue r (λ a. solo crates (f a)) s ≡ continue r g s
  continue-Same (ok a) f g s h = (h a).same s
  continue-Same (err e) f g s h = refl

  pub Same-then :
      {A B : Type 0} (t : Thread A) (m : Client A) (f : A → Thread B) (g : A → Client B)
      → Same t m
      → ((a : A) → Same (f a) (g a))
      → Same (t >>= f) (Exec.◌>>=◌ m g)
  Same-then t m f g h k = record {
    same = λ s.
        solo-then t f s
        ∙ ap (λ p. continue p.0 (λ a. solo crates (f a)) p.1) (h.same s)
        ∙ continue-Same (m s).0 f g (m s).1 k;
  }

  pub Same-given : {A : Type 0} (r : Result ClientError A) → Same (finished r) (lift r)
  unfolding solo
  Same-given r = record { same = λ s. refl }

  pub Same-ask :
      (exchange : Exchange) (req : Request) → Same (ask exchange req) (send crates exchange req)
  unfolding solo
  Same-ask exchange req = record {
    same = λ s. elim (Result-cases (send crates exchange req s).0) [
      | inl (response, e) ↦ rw e refl
      | inr (f, e) ↦ rw e refl
    ];
  }

  module _ (owned : String → Bool) where
    pub IsAbout-then :
        {A B : Type 0} (t : Thread A) (f : A → Thread B)
        → IsAbout crates owned t
        → ((a : A) → IsAbout crates owned (f a))
        → IsAbout crates owned (t >>= f)
    unfolding ◌>>=◌
    IsAbout-then (finished (ok a)) f h k = k a
    IsAbout-then (finished (err e)) f h k = tt
    IsAbout-then (asks exchange req next) f h k =
        (h.0, λ response. IsAbout-then (next response) f (h.1 response) k)

-- More answers are no harm.
IsWithin-le : {A : Type 0} (n m : ℕ) (t : Thread A) → n ≤ m → IsWithin n t → IsWithin m t
IsWithin-le n m (finished r) less h = tt
IsWithin-le zero m (asks exchange req k) less h = absurd h
IsWithin-le (suc n) zero (asks exchange req k) less h = absurd (omega arith)
IsWithin-le (suc n) (suc m) (asks exchange req k) less h =
    λ response. IsWithin-le n m (k response) (omega arith) (h response)

pub IsWithin-then :
    {A B : Type 0} (n m : ℕ) (t : Thread A) (f : A → Thread B)
    → IsWithin n t
    → ((a : A) → IsWithin m (f a))
    → IsWithin (n + m) (t >>= f)
unfolding ◌>>=◌
IsWithin-then n m (finished (ok a)) f h k = IsWithin-le m (n + m) (f a) (omega arith) (k a)
IsWithin-then n m (finished (err e)) f h k = tt
IsWithin-then zero m (asks exchange req next) f h k = absurd h
IsWithin-then (suc n) m (asks exchange req next) f h k =
    let count : suc n + m ≡ suc (n + m) = omega arith in
    rw count (λ response. IsWithin-then n m (next response) f (h response) k)

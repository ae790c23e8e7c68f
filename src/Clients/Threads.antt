-- ===== src/Clients/Threads.antt =====
-- A client program as its requests, so that others can use the service between them.
pub mod Solo
use chat_store.Common.{
  ℕ, zero, suc, ◌-◌, ◌≤◌, String, Bool, true, false, ◌≡◌, refl, sym, ap, ◌∙◌, inl, inr, List, [],
  ◌∷◌, All, arith,
}
use chat_store.Common.Exec
use chat_store.Common.Exec.{Result, ok, err, lift, Result-cases}
use chat_store.Crates.{Crates}
use chat_store.Crates.Laws.{AccountLogLaws}
use chat_store.Store.{Store, Env}
use chat_store.Store.Isolation.{only}
use chat_store.Handlers.Endpoints.{Request, Response, serve}
use chat_store.Handlers.Isolation.{touches, key_of, serve-isolated}
use chat_store.Service.{Cli, Input, step}
use chat_store.Service.Isolation.{input_key, step-IsForeign}
use chat_store.Clients.Requests.{
  Exchange, unsent, lost, answered, ClientError, send_failed, Client, send,
}

-- The program has its result, or it waits for the answer to a request.
pub data Thread (A : Type 0) : Type 0 where
  finished : Result ClientError A → Thread A
  asks : Exchange → Request → (Response → Thread A) → Thread A

module _ {A B : Type 0} where
  infixl 10 ◌>>=◌ ◌>>◌
  unfoldable pub ◌>>=◌ : Thread A → (A → Thread B) → Thread B
  ◌>>=◌ (finished (ok a)) f = f a
  ◌>>=◌ (finished (err e)) f = finished (err e)
  ◌>>=◌ (asks exchange req k) f = asks exchange req (λ response. k response >>= f)

  abbrev pub ◌>>◌ : Thread A → Thread B → Thread B
  t >> u = t >>= λ _. u

-- What happens next: the program's turn, or something else at the service.
pub data Occurrence : Type 0 where
  own_turn : Occurrence
  elsewhere : Env → Input → Occurrence

abbrev pub own_turns : List Occurrence → ℕ
own_turns [] = 0
own_turns (own_turn ∷ events) = suc (own_turns events)
own_turns (elsewhere env input ∷ events) = own_turns events

module _ {A : Type 0} where
  abbrev pub resume : Result ClientError Response → (Response → Thread A) → Thread A
  resume (ok response) k = k response
  resume (err e) k = finished (err e)

  -- So many answers are enough.
  abbrev pub IsWithin : ℕ → Thread A → Type 0
  IsWithin n (finished r) = Unit
  IsWithin zero (asks exchange req k) = ⊥
  IsWithin (suc n) (asks exchange req k) = (response : Response) → IsWithin n (k response)

module _ (crates : Crates) where
  module _ {A : Type 0} where
    -- The program alone at the service.
    unfoldable pub solo : Thread A → Client A
    solo (finished r) s = (r, s)
    solo (asks exchange req k) s =
        let (r, t) = send crates exchange req s in Exec.continue r (λ response. solo (k response)) t

    -- One turn: the request is served, and the program goes on with its answer.
    unfoldable pub turn : Thread A → Store → Thread A × Store
    turn (finished r) s = (finished r, s)
    turn (asks exchange req k) s = let (r, t) = send crates exchange req s in (resume r k, t)

    solo-turn : (t : Thread A) (s : Store) → solo (turn t s).0 (turn t s).1 ≡ solo t s
    unfolding solo turn
    solo-turn (finished r) s = refl
    solo-turn (asks exchange req k) s = elim (Result-cases (send crates exchange req s).0) [
      | inl (response, e) ↦ rw e refl
      | inr (f, e) ↦ rw e refl
    ]

    unfoldable pub meanwhile : Cli → Thread A → List Occurrence → Store → Thread A × Store
    meanwhile cli t [] s = (t, s)
    meanwhile cli t (own_turn ∷ events) s = let (t', s') = turn t s in meanwhile cli t' events s'
    meanwhile cli t (elsewhere env input ∷ events) s =
        meanwhile cli t events (step crates cli env input s)

    turn-IsWithin :
        (n : ℕ) (t : Thread A) (s : Store) → IsWithin n t → IsWithin (n - 1) (turn t s).0
    unfolding turn
    turn-IsWithin n (finished r) s h = tt
    turn-IsWithin zero (asks exchange req k) s h = absurd h
    turn-IsWithin (suc n) (asks exchange req k) s h =
        let one : suc n - 1 ≡ n = omega arith in
        elim (Result-cases (send crates exchange req s).0) [
          | inl (response, e) ↦ rw (one, e) (h response)
          | inr (f, e) ↦ rw e tt
        ]

    -- A program that needs no more answers has its result.
    IsWithin-zero : (t : Thread A) → IsWithin 0 t → (r : Result ClientError A) × (t ≡ finished r)
    IsWithin-zero (finished r) h = (r, refl)
    IsWithin-zero (asks exchange req k) h = absurd h

    finishes :
        (cli : Cli) (n : ℕ) (t : Thread A) (events : List Occurrence) (s : Store)
        → IsWithin n t
        → n ≤ own_turns events
        → (r : Result ClientError A) × ((meanwhile cli t events s).0 ≡ finished r)
    unfolding meanwhile
    finishes cli zero t [] s within enough = IsWithin-zero t within
    finishes cli (suc n) t [] s within enough = absurd (omega arith)
    finishes cli n t (elsewhere env input ∷ events) s within enough =
        finishes cli n t events (step crates cli env input s) within enough
    finishes cli n t (own_turn ∷ events) s within enough =
        finishes cli (n - 1) (turn t s).0 events (turn t s).1 (turn-IsWithin n t s within)
          (omega arith)

  module _ (owned : String → Bool) where
    -- Nothing else that happens is about them, and no prune.
    abbrev pub IsElsewhere : Occurrence → Type 0
    IsElsewhere own_turn = Unit
    IsElsewhere (elsewhere env input) = touches owned (input_key crates input) ≡ false

    module _ {A : Type 0} where
      -- The program only asks about the owned ids.
      abbrev pub IsAbout : Thread A → Type 0
      IsAbout (finished r) = Unit
      IsAbout (asks exchange req k) =
          (touches owned (key_of crates req) ≡ true)
          × ((response : Response) → IsAbout (k response))

  module _ (laws : AccountLogLaws crates) (owned : String → Bool) (cli : Cli) where
    send-only :
        (exchange : Exchange) (req : Request) (s : Store)
        → touches owned (key_of crates req) ≡ true
        → send crates exchange req (only owned s)
          ≡ ((send crates exchange req s).0, only owned (send crates exchange req s).1)
    unfolding send
    send-only unsent req s mine = refl
    send-only (lost env) req s mine =
        ap (λ p. (err send_failed, p.1)) (serve-isolated crates laws owned env req s mine)
    send-only (answered env) req s mine =
        ap (λ p. (ok p.0, p.1)) (serve-isolated crates laws owned env req s mine)

    module _ {A : Type 0} where
      turn-only :
          (t : Thread A) (s : Store)
          → IsAbout owned t
          → turn t (only owned s) ≡ ((turn t s).0, only owned (turn t s).1)
      unfolding turn
      turn-only (finished r) s about = refl
      turn-only (asks exchange req k) s about =
          ap (λ p. (resume p.0 k, p.1)) (send-only exchange req s about.0)

      turn-IsAbout : (t : Thread A) (s : Store) → IsAbout owned t → IsAbout owned (turn t s).0
      unfolding turn
      turn-IsAbout (finished r) s about = tt
      turn-IsAbout (asks exchange req k) s about =
          elim (Result-cases (send crates exchange req s).0) [
            | inl (response, e) ↦ rw e (about.1 response)
            | inr (f, e) ↦ rw e tt
          ]

      -- What is left of the program does on the owned rows what the program does on those that
      -- were there at the start.
      meanwhile-solo :
          (t : Thread A) (events : List Occurrence) (s : Store)
          → IsAbout owned t
          → All (IsElsewhere owned) events
          → solo (meanwhile cli t events s).0 (only owned (meanwhile cli t events s).1)
            ≡ solo t (only owned s)
      unfolding meanwhile
      meanwhile-solo t [] s about others = refl
      meanwhile-solo t (own_turn ∷ events) s about (_, others) =
          meanwhile-solo (turn t s).0 events (turn t s).1 (turn-IsAbout t s about) others
          ∙ ap (λ p. solo p.0 p.1) (sym (turn-only t s about))
          ∙ solo-turn t (only owned s)
      meanwhile-solo t (elsewhere env input ∷ events) s about (foreign, others) =
          meanwhile-solo t events (step crates cli env input s) about others
          ∙ ap (solo t) (step-IsForeign crates owned laws cli env input s foreign)

      -- Alone, the program cannot tell whether the other rows are there.
      solo-only :
          (t : Thread A) (s : Store) → IsAbout owned t → (solo t (only owned s)).0 ≡ (solo t s).0
      unfolding solo
      solo-only (finished r) s about = refl
      solo-only (asks exchange req k) s about = elim (Result-cases (send crates exchange req s).0) [
        | inl (response, e) ↦
            rw (send-only exchange req s about.0, e)
              (solo-only (k response) (send crates exchange req s).1 (about.1 response))
        | inr (f, e) ↦ rw (send-only exchange req s about.0, e) refl
      ]

      finished-solo :
          (r : Result ClientError A) (t : Thread A) (s : Store) → t ≡ finished r → (solo t s).0 ≡ r
      unfolding solo
      finished-solo r t s h = rw h refl

      -- A client that only asks about the owned ids, and whose program needs at most so many
      -- answers, has had that many turns at the service, between which inputs about other ids
      -- happened in any number and order, and no prune. Then its program is over, with the result
      -- that it has alone at the service.
      pub meanwhile-result :
          (n : ℕ) (t : Thread A) (events : List Occurrence) (s : Store)
          → IsAbout owned t
          → IsWithin n t
          → n ≤ own_turns events
          → All (IsElsewhere owned) events
          → (meanwhile cli t events s).0 ≡ finished (solo t s).0
      meanwhile-result n t events s about within enough others =
          let (r, over) = finishes cli n t events s within enough in
          let same : r ≡ (solo t s).0 =
            sym (finished-solo r _ (only owned (meanwhile cli t events s).1) over)
            ∙ ap (λ p. p.0) (meanwhile-solo t events s about others)
            ∙ solo-only t s about in
          over ∙ ap finished same

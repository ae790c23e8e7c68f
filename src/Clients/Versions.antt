-- ===== src/Clients/Versions.antt =====
-- A client that publishes versions of its account, in any order, while others use the service.
use chat_store.Common.{
  ℕ, String, Bool, true, false, not, ◌&&◌, ◌≡◌, ◌==◌, refl, sym, ap, ◌∙◌, inl, inr, eq_refl, Option,
  none, some, List, [], ◌∷◌, All, if◌then◌else◌, ltb, arith, Bool-cases,
}
use chat_store.Rust.Bytes.{Bytes, IsBytes}
use chat_store.Crates.{Crates}
use chat_store.Crates.Laws.{AccountLogLaws}
use chat_store.Crates.Signing.{Signing, SigningLaws, EncodingLaws}
use chat_store.Store.{Store, Env}
use chat_store.Store.Lamport.{payload_lamport}
use chat_store.Store.Accounts.{stored_lamport, is_stale}
use chat_store.Store.Isolation.Operations.{stored_lamport-only}
use chat_store.Store.Cases.{put_account}
use chat_store.Bundle.Cases.{kept_account}
use chat_store.Handlers.Errors.{StatusCode, no_content, conflict}
use chat_store.Handlers.Conflicts.{Healthy}
use chat_store.Handlers.Isolation.{touches}
use chat_store.Handlers.Endpoints.{post_account, serve}
use chat_store.Service.{Cli, Input, step}
use chat_store.Service.Isolation.{input_key, step-IsForeign}
use chat_store.Clients.Publishing.{
  public_key, signed, account_request, submit_account-signed, submit_account-stale,
}
use chat_store.Store.Accounts.Reading.{stored_lamport-put}

-- The client publishes a version with its payload, or something else happens to the service.
pub data Turn : Type 0 where
  publishes : Env → ℕ → Bytes → Turn
  others : Env → Input → Turn

-- Above every version of the list.
abbrev above : ℕ → List ℕ → Bool
above lamport [] = true
above lamport (l ∷ seen) = ltb l lamport && above lamport seen

-- What the client expects: a version is accepted where it is above all that it sent before, and it
-- is a conflict otherwise. `seen` has the versions sent so far.
unfoldable pub expected : List ℕ → List Turn → List StatusCode
expected seen [] = []
expected seen (publishes env lamport payload ∷ turns) =
    (if above lamport seen then no_content else conflict) ∷ expected (lamport ∷ seen) turns
expected seen (others env input ∷ turns) = expected seen turns

-- The version on file is the highest of those sent.
abbrev Tops : Option ℕ → List ℕ → Type 0
Tops known seen = (lamport : ℕ) → is_stale lamport known ≡ not (above lamport seen)

Tops-higher :
    (known : Option ℕ) (seen : List ℕ) (lamport : ℕ)
    → Tops known seen
    → is_stale lamport known ≡ false
    → Tops (some lamport) (lamport ∷ seen)
Tops-higher none seen lamport tops new l = ground (arith, tops l)
Tops-higher (some k) seen lamport tops new l = ground (arith, tops l)

Tops-stale :
    (known : Option ℕ) (seen : List ℕ) (lamport : ℕ)
    → Tops known seen
    → is_stale lamport known ≡ true
    → Tops known (lamport ∷ seen)
Tops-stale none seen lamport tops old l = cc
Tops-stale (some k) seen lamport tops old l = ground (arith, tops l)

above-is :
    (known : Option ℕ) (seen : List ℕ) (lamport : ℕ) (v : Bool)
    → Tops known seen
    → is_stale lamport known ≡ not v
    → above lamport seen ≡ v
above-is known seen lamport v tops h = ground (arith, tops lamport)

module _ (crates : Crates) (signing : Signing crates) (cli : Cli) (key : signing.SigningKey) where
  -- The answers to the client, one for each version that it publishes.
  unfoldable pub answers : List Turn → Store → List StatusCode
  answers [] s = []
  answers (publishes env lamport payload ∷ turns) s =
      let (response, t) =
        serve crates env (post_account (account_request crates signing key payload)) s in
      response.status ∷ answers turns t
  answers (others env input ∷ turns) s = answers turns (step crates cli env input s)

  abbrev own : String → Bool
  own id = id == public_key crates signing key

  -- The payload carries the version, and the database answers; what else happens is not about the
  -- client's account, and no prune.
  abbrev pub IsFair : Turn → Type 0
  IsFair (publishes env lamport payload) =
      (payload_lamport payload ≡ some lamport) × IsBytes payload × Healthy env
  IsFair (others env input) = touches own (input_key crates input) ≡ false

  module _ (laws : SigningLaws crates signing) (encoding : EncodingLaws crates)
      (log_laws : AccountLogLaws crates) where
    stored_lamport-foreign :
        (env : Env) (input : Input) (s : Store)
        → touches own (input_key crates input) ≡ false
        → stored_lamport (public_key crates signing key) (step crates cli env input s)
          ≡ stored_lamport (public_key crates signing key) s
    stored_lamport-foreign env input s other =
        let kept = stored_lamport-only own (public_key crates signing key) (eq_refl _) in
        sym (kept (step crates cli env input s))
        ∙ ap (stored_lamport (public_key crates signing key))
            (step-IsForeign crates own log_laws cli env input s other)
        ∙ kept s

    answers-Tops :
        (turns : List Turn) (s : Store) (seen : List ℕ)
        → All IsFair turns
        → Tops (stored_lamport (public_key crates signing key) s) seen
        → answers turns s ≡ expected seen turns
    unfolding answers expected
    answers-Tops [] s seen fair tops = refl
    answers-Tops (others env input ∷ turns) s seen (foreign, fair) tops =
        answers-Tops turns (step crates cli env input s) seen fair
          (rw (stored_lamport-foreign env input s foreign) tops)
    answers-Tops (publishes env lamport payload ∷ turns) s seen ((carries, small, fine), fair)
          tops =
        let id = public_key crates signing key in
        let known = stored_lamport id s in
        elim (Bool-cases (is_stale lamport known)) [
          | inl old ↦
              rw
                (
                  submit_account-stale crates signing laws encoding env key payload lamport s small
                      fine carries old,
                  above-is known seen lamport false tops old,
                  answers-Tops turns s (lamport ∷ seen) fair
                      (Tops-stale known seen lamport tops old),
                )
                refl
          | inr new ↦
              rw
                (
                  submit_account-signed crates signing laws encoding env key payload lamport s small
                      fine carries new,
                  above-is known seen lamport true tops new,
                  answers-Tops turns
                      (put_account env id (kept_account (signed crates signing key payload)) s)
                      (lamport ∷ seen) fair
                      (rw
                        (stored_lamport-put env id
                          (kept_account (signed crates signing key payload)) s lamport carries)
                        (Tops-higher known seen lamport tops new)),
                )
                refl
        ]

    -- Nothing is on file for the account of a key at the start, and what else happens to the
    -- service in the meantime is not about that account, and no prune. Then of the versions that
    -- the holder of the key publishes, signed, in any order, and to a database that answers,
    -- exactly those above all that were sent before are answered 204, and the rest 409. The
    -- crates are assumed to keep their documented laws.
    pub answers-expected :
        (turns : List Turn) (s : Store)
        → All IsFair turns
        → stored_lamport (public_key crates signing key) s ≡ none
        → answers turns s ≡ expected [] turns
    answers-expected turns s fair fresh = answers-Tops turns s [] fair (rw fresh (λ lamport. refl))

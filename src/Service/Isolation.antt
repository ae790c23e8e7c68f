-- ===== src/Service/Isolation.antt =====
-- The service seen by some ids: what it does about the others cannot be told from their rows.
use chat_store.Common.{
  String, Bool, true, false, ◌≡◌, refl, sym, ap, ◌∙◌, inl, inr, Option, none, some, List, [], ◌∷◌,
  select, Bool-cases,
}
use chat_store.Common.Exec.{Result, Result-cases}
use chat_store.Crates.{Crates, Submission}
use chat_store.Crates.Laws.{AccountLogLaws}
use chat_store.Store.{Store, Env}
use chat_store.Store.Isolation.{only, IsLocal, IsForeign}
use chat_store.Store.Isolation.Pruning.{prune_key_packages-IsLocal, prune_accounts-IsLocal}
use chat_store.Bundle.{Bundle, Error, from_bytes, key_hex, apply_keypackage, apply_account}
use chat_store.Bundle.Isolation.{
  apply_keypackage-IsLocal, apply_keypackage-IsForeign, apply_account-IsLocal,
  apply_account-IsForeign,
}
use chat_store.Handlers.Endpoints.{Request, serve}
use chat_store.Handlers.Isolation.{touches, bundle_key, key_of, serve-isolated, serve-foreign}
use chat_store.Delivery.{
  key_package, account, ingest, ingest_keypackage, ingest_account, ingest_received,
}
use chat_store.Service.{
  Cli, retention, Input, request, delivery, prunes_key_packages, prunes_accounts, step, run,
}

module _ (crates : Crates) where
  open crates use {decode_keypackage_submission, decode_account_submission}

  abbrev submission_key : Option Submission → Option String
  submission_key none = none
  submission_key (some wire) = bundle_key crates (from_bytes wire.key wire.payload wire.signature)

  -- The id that an input is about; a prune is about all ids alike.
  unfoldable pub input_key : Input → Option String
  input_key (request req) = key_of crates req
  input_key (delivery (key_package bytes)) = submission_key (decode_keypackage_submission bytes)
  input_key (delivery (account bytes)) = submission_key (decode_account_submission bytes)
  input_key prunes_key_packages = none
  input_key prunes_accounts = none

  module _ (owned : String → Bool) where
    -- The inputs about the owned ids, and the prunes.
    abbrev pub about : List (Env × Input) → List (Env × Input)
    about inputs = select (λ i. touches owned (input_key i.1)) inputs

    module _ (apply : Bundle → Store → Result (Error crates) (Unit {0}) × Store) where
      ingest-IsLocal :
          ((b : Bundle) → owned (key_hex crates b) ≡ true → IsLocal owned (apply b))
          → (wire : Option Submission) (s : Store) → touches owned (submission_key wire) ≡ true
          → ingest crates apply wire (only owned s)
            ≡ ((ingest crates apply wire s).0, only owned (ingest crates apply wire s).1)
      ingest-IsLocal h none s mine = refl
      ingest-IsLocal h (some wire) s mine =
          elim (Result-cases
            (from_bytes {E = crates.AccountLogError} wire.key wire.payload wire.signature)) [
              | inr (e, bad) ↦ rw (ingest, bad) refl
              | inl (b, good) ↦ rw (ingest, good, h b (rw good at mine) s) refl
            ]

      ingest-IsForeign :
          ((b : Bundle) → owned (key_hex crates b) ≡ false → IsForeign owned (apply b))
          → (wire : Option Submission) (s : Store) → touches owned (submission_key wire) ≡ false
          → only owned (ingest crates apply wire s).1 ≡ only owned s
      ingest-IsForeign h none s other = refl
      ingest-IsForeign h (some wire) s other =
          elim (Result-cases
            (from_bytes {E = crates.AccountLogError} wire.key wire.payload wire.signature)) [
              | inr (e, bad) ↦ rw (ingest, bad) refl
              | inl (b, good) ↦ rw (ingest, good) (h b (rw good at other) s)
            ]

    module _ (laws : AccountLogLaws crates) (cli : Cli) where
      step-IsLocal :
          (env : Env) (input : Input) (s : Store)
          → touches owned (input_key input) ≡ true
          → step crates cli env input (only owned s) ≡ only owned (step crates cli env input s)
      unfolding step input_key ingest_received ingest_keypackage ingest_account
      step-IsLocal env (request req) s mine =
          ap (λ p. p.1) (serve-isolated crates laws owned env req s mine)
      step-IsLocal env (delivery (key_package bytes)) s mine =
          ap (λ p. p.1)
            (ingest-IsLocal (apply_keypackage crates env)
              (apply_keypackage-IsLocal crates owned env) (decode_keypackage_submission bytes) s
              mine)
      step-IsLocal env (delivery (account bytes)) s mine =
          ap (λ p. p.1)
            (ingest-IsLocal (apply_account crates env) (apply_account-IsLocal crates owned env)
              (decode_account_submission bytes) s mine)
      step-IsLocal env prunes_key_packages s mine =
          ap (λ p. p.1)
            (prune_key_packages-IsLocal owned env cli.max_per_identity (retention cli) s)
      step-IsLocal env prunes_accounts s mine =
          ap (λ p. p.1) (prune_accounts-IsLocal owned env (retention cli) s)

      pub step-IsForeign :
          (env : Env) (input : Input) (s : Store)
          → touches owned (input_key input) ≡ false
          → only owned (step crates cli env input s) ≡ only owned s
      unfolding step input_key ingest_received ingest_keypackage ingest_account
      step-IsForeign env (request req) s other = serve-foreign crates laws owned env req s other
      step-IsForeign env (delivery (key_package bytes)) s other =
          ingest-IsForeign (apply_keypackage crates env)
            (apply_keypackage-IsForeign crates owned env) (decode_keypackage_submission bytes) s
            other
      step-IsForeign env (delivery (account bytes)) s other =
          ingest-IsForeign (apply_account crates env) (apply_account-IsForeign crates owned env)
            (decode_account_submission bytes) s other
      step-IsForeign env prunes_key_packages s other = cc
      step-IsForeign env prunes_accounts s other = cc

      -- The rows that a run leaves of the owned ids are those that the inputs about these ids and the
      -- prunes leave alone, of the rows that these ids had.
      run-isolated :
          (inputs : List (Env × Input)) (s : Store)
          → only owned (run crates cli inputs s) ≡ run crates cli (about inputs) (only owned s)
      unfolding run select
      run-isolated [] s = refl
      run-isolated ((env, input) ∷ inputs) s =
          let rest = run-isolated inputs (step crates cli env input s) in
          elim (Bool-cases (touches owned (input_key input))) [
            | inl mine ↦
                rw mine
                  (rest ∙ ap (run crates cli (about inputs)) (sym (step-IsLocal env input s mine)))
            | inr other ↦
                rw other
                  (rest ∙ ap (run crates cli (about inputs)) (step-IsForeign env input s other))
          ]

      -- After any run, a request about an owned id, or about none, is answered as it is where
      -- only the rows of the owned ids were there at the start, and only the inputs about these
      -- ids or about none, as the prunes are, happened. The account_log crate is assumed to keep
      -- its documented laws.
      pub answer-isolated :
          (inputs : List (Env × Input)) (env : Env) (req : Request) (s : Store)
          → touches owned (key_of crates req) ≡ true
          → (serve crates env req (run crates cli inputs s)).0
            ≡ (serve crates env req (run crates cli (about inputs) (only owned s))).0
      answer-isolated inputs env req s mine =
          sym (
            ap (λ p. p.0) (serve-isolated crates laws owned env req (run crates cli inputs s) mine))
          ∙ ap (λ t. (serve crates env req t).0) (run-isolated inputs s)

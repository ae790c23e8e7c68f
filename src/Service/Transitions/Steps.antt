-- ===== src/Service/Transitions/Steps.antt =====
-- Every step of the service is a transition of the abstract machine.
use chat_store.Common.{
  ℕ, String, refl, inl, inr, ◌&&◌, Option, none, some, Option-cases, select, select-select,
}
use chat_store.Common.Exec.{Result, Result-cases}
use chat_store.Rust.{Duration}
use chat_store.Rust.Bytes.{Bytes}
use chat_store.Crates.{Crates, Submission}
use chat_store.Store.{Store, Env, write, write_excess}
use chat_store.Store.Accounts.{refreshed}
use chat_store.Store.KeyPackages.{recent, few, prune_key_packages, drop_expired, drop_excess}
use chat_store.Store.Accounts.{prune_accounts}
use chat_store.Bundle.{Bundle, Error, from_bytes, apply_keypackage, apply_account}
use chat_store.Bundle.Cases.{IsSized, from_bytes-IsSized}
use chat_store.Handlers.Errors.{decode_bundle}
use chat_store.Handlers.Endpoints.{
  SubmitKeyPackageRequest, SubmitAccountRequest, Request, post_keypackage, get_keypackage,
  post_account, get_account_bundle, post_account_log, get_log, parse_path_addr, submit_key_package,
  submit_account, submit_account_log, handle, serve,
}
use chat_store.Handlers.Endpoints.States.{
  decode_bundle-IsSized, fetch_key_package-state, fetch_account-state, fetch_account_log-state,
  submit_key_package-state, submit_account-state, submit_account_log-state,
}
use chat_store.Delivery.{Received, key_package, account, ingest, ingest_received}
use chat_store.Service.{
  Cli, Input, request, delivery, prunes_key_packages, prunes_accounts, step, retention,
}
use chat_store.Service.Transitions.{
  Write, stays, Change, writes, drops_keypackages, drops_accounts, apply_keypackage-Write,
  apply_account-Write, apply_account_log-Write,
}

module _ (crates : Crates) (env : Env) (s : Store) where
  submit_key_package-Write :
      (req : SubmitKeyPackageRequest) → Write crates s (submit_key_package crates env req s).1
  submit_key_package-Write req =
      elim (Result-cases (decode_bundle crates req.device_id req.payload req.signature)) [
        | inr (e, bad) ↦ stays (unfold submit_key_package in rw bad refl)
        | inl (b, good) ↦ rw (submit_key_package-state crates env s req b good) (
            apply_keypackage-Write crates env b s
              (decode_bundle-IsSized crates req.device_id req.payload req.signature good))
      ]

  submit_account-Write :
      (req : SubmitAccountRequest) → Write crates s (submit_account crates env req s).1
  submit_account-Write req =
      elim (Result-cases (decode_bundle crates req.account_pub req.payload req.signature)) [
        | inr (e, bad) ↦ stays (unfold submit_account in rw bad refl)
        | inl (b, good) ↦ rw (submit_account-state crates env s req b good) (
            apply_account-Write crates env b s
              (decode_bundle-IsSized crates req.account_pub req.payload req.signature good))
      ]

  submit_account_log-Write :
      (text : String) (body : Bytes) → Write crates s (submit_account_log crates env text body s).1
  submit_account_log-Write text body = elim (Result-cases (parse_path_addr crates text)) [
    | inr (e, bad) ↦ stays (unfold submit_account_log in rw bad refl)
    | inl (addr, good) ↦ elim (Result-cases (crates.log_from_bytes body)) [
      | inr (e, bad) ↦ stays (unfold submit_account_log in rw (good, bad) refl)
      | inl (signed, parsed) ↦
          rw (submit_account_log-state crates env s text body addr signed good parsed)
            (apply_account_log-Write crates env addr signed s)
    ]
  ]

  pub serve-Write : (req : Request) → Write crates s (serve crates env req s).1
  unfolding serve handle
  serve-Write (post_keypackage req) = submit_key_package-Write req
  serve-Write (get_keypackage id) = stays (fetch_key_package-state crates env s id)
  serve-Write (post_account req) = submit_account-Write req
  serve-Write (get_account_bundle id) = stays (fetch_account-state crates env s id)
  serve-Write (post_account_log text body) = submit_account_log-Write text body
  serve-Write (get_log text) = stays (fetch_account_log-state crates env s text)

module _ (crates : Crates) (env : Env) (s : Store) where
  ingest-Write :
      (apply : Bundle → Store → Result (Error crates) (Unit {0}) × Store)
      → ((b : Bundle) → IsSized b → Write crates s (apply b s).1)
      → (wire : Option Submission) → Write crates s (ingest crates apply wire s).1
  ingest-Write apply change none = stays refl
  ingest-Write apply change (some wire) =
      elim (Result-cases
        (from_bytes {E = crates.AccountLogError} wire.key wire.payload wire.signature)) [
          | inr (e, bad) ↦ stays (rw (bad, ingest) refl)
          | inl (b, good) ↦
              rw (good, ingest)
                (change b (from_bytes-IsSized wire.key wire.payload wire.signature good))
        ]

  pub ingest_received-Write :
      (received : Received) → Write crates s (ingest_received crates env received s).1
  unfolding ingest_received
  ingest_received-Write (key_package bytes) =
      ingest-Write (apply_keypackage crates env)
        (λ b sized. apply_keypackage-Write crates env b s sized)
        (crates.decode_keypackage_submission bytes)
  ingest_received-Write (account bytes) =
      ingest-Write (apply_account crates env) (λ b sized. apply_account-Write crates env b s sized)
        (crates.decode_account_submission bytes)

  prune_key_packages-Change :
      (max_per_identity : ℕ) (kept : Duration)
      → Change crates s (prune_key_packages env max_per_identity kept s).1
  unfolding prune_key_packages drop_expired drop_excess
  prune_key_packages-Change max_per_identity kept = elim (Option-cases (env.fault write)) [
    | inr (e, failed) ↦ writes (stays (rw failed refl))
    | inl fine ↦ elim (Option-cases (env.fault write_excess)) [
      | inr (e, failed) ↦ drops_keypackages (recent env kept) (rw (fine, failed) refl)
      | inl fine' ↦
          drops_keypackages
            (λ r.
              recent env kept r && few max_per_identity (select (recent env kept) s.keypackages) r)
            (rw (fine, fine', select-select) refl)
    ]
  ]

  prune_accounts-Change : (kept : Duration) → Change crates s (prune_accounts env kept s).1
  unfolding prune_accounts
  prune_accounts-Change kept = elim (Option-cases (env.fault write)) [
    | inr (e, failed) ↦ writes (stays (rw failed refl))
    | inl fine ↦ drops_accounts (refreshed env kept) (rw fine refl)
  ]

  -- Whatever the input, the clock and the failures of the database, one step of the service is one
  -- change of the abstract machine: nothing, a keypackage row whose bundle is verified and whose
  -- primary key is free, an account row whose bundle is verified and not stale, a verified
  -- log where none is on file or one that the account_log crate calls an update of that, or rows
  -- dropped from keypackages or account bundles.
  pub step-Change : (cli : Cli) (input : Input) → Change crates s (step crates cli env input s)
  unfolding step
  step-Change cli (request req) = writes (serve-Write crates env s req)
  step-Change cli (delivery received) = writes (ingest_received-Write received)
  step-Change cli prunes_key_packages =
      prune_key_packages-Change cli.max_per_identity (retention cli)
  step-Change cli prunes_accounts = prune_accounts-Change (retention cli)

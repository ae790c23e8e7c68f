-- ===== src/Handlers/Answers.antt =====
-- How a request is answered: an error leaves the store alone, and only a submission that is
-- answered 204 may change it.
use chat_store.Common.{String, ◌≡◌, ◌≢◌, refl, ap, ◌⊎◌, inl, inr}
use chat_store.Common.Exec.{ok, Exec, Result-cases}
use chat_store.Rust.Bytes.{Bytes}
use chat_store.Crates.{Crates}
use chat_store.Store.{Store, Env}
use chat_store.Store.Cases.{Refuses}
use chat_store.Bundle.{
  Bundle, malformed_log, Error, apply_keypackage, apply_account, apply_account_log,
}
use chat_store.Bundle.Cases.{apply_keypackage-cases, apply_account-cases, apply_account_log-cases}
use chat_store.Handlers.Errors.{no_content, ApiError, decode_bundle, to_api_error}
use chat_store.Handlers.Endpoints.{
  SubmitKeyPackageRequest, SubmitAccountRequest, Request, post_keypackage, get_keypackage,
  post_account, get_account_bundle, post_account_log, get_log, nothing, Response, parse_path_addr,
  submit_key_package, submit_account, submit_account_log, into_response, handle, serve,
}
use chat_store.Handlers.Endpoints.States.{
  fetch_key_package-state, fetch_account-state, fetch_account_log-state,
}

-- `m` is answered 204.
abbrev pub Accepts : Exec Store ApiError Response → Store → Type 0
Accepts m s = (t : Store) × (m s ≡ (ok (record { status = no_content; body = nothing }), t))

module _ (crates : Crates) (env : Env) (s : Store) where
  -- A bundle that is applied is answered 204, and one that is refused changes nothing.
  abbrev Applied : {A : Type 0} → Exec Store (Error crates) A → Type 0
  Applied {A} m = Refuses m s ⊎ ((a : A) × (t : Store) × (m s ≡ (ok a, t)))

  Applied-keypackage : (b : Bundle) → Applied (apply_keypackage crates env b)
  Applied-keypackage b = elim (apply_keypackage-cases crates env s b) [
    | inl refused ↦ inl refused
    | inr (good, free, done) ↦ inr (tt, _, done)
  ]

  Applied-account : (b : Bundle) → Applied (apply_account crates env b)
  Applied-account b = elim (apply_account-cases crates env s b) [
    | inl refused ↦ inl refused
    | inr (lamport, good, long, new, done) ↦ inr (tt, _, done)
  ]

  Applied-log :
      (addr : crates.AccountAddr) (signed : crates.SignedAccountLog)
      → Applied (apply_account_log crates env addr signed)
  Applied-log addr signed = elim (apply_account_log-cases crates env s addr signed) [
    | inl refused ↦ inl refused
    | inr (candidate, update, good, w, inl (same, kept)) ↦ inr (tt, _, kept)
    | inr (candidate, update, good, w, inr (newer, done)) ↦ inr (tt, _, done)
  ]

  submit_key_package-answers :
      (req : SubmitKeyPackageRequest)
      → Refuses (submit_key_package crates env req) s
        ⊎ Accepts (submit_key_package crates env req) s
  unfolding submit_key_package
  submit_key_package-answers req =
      elim (Result-cases (decode_bundle crates req.device_id req.payload req.signature)) [
        | inr (e, bad) ↦ inl (to_api_error crates e, rw bad refl)
        | inl (b, good) ↦ elim (Applied-keypackage b) [
          | inl (e, refused) ↦ inl (to_api_error crates e, rw (good, refused) refl)
          | inr (_, t, done) ↦ inr (t, rw (good, done) refl)
        ]
      ]

  submit_account-answers :
      (req : SubmitAccountRequest)
      → Refuses (submit_account crates env req) s ⊎ Accepts (submit_account crates env req) s
  unfolding submit_account
  submit_account-answers req =
      elim (Result-cases (decode_bundle crates req.account_pub req.payload req.signature)) [
        | inr (e, bad) ↦ inl (to_api_error crates e, rw bad refl)
        | inl (b, good) ↦ elim (Applied-account b) [
          | inl (e, refused) ↦ inl (to_api_error crates e, rw (good, refused) refl)
          | inr (_, t, done) ↦ inr (t, rw (good, done) refl)
        ]
      ]

  submit_account_log-answers :
      (text : String) (body : Bytes)
      → Refuses (submit_account_log crates env text body) s
        ⊎ Accepts (submit_account_log crates env text body) s
  unfolding submit_account_log
  submit_account_log-answers text body = elim (Result-cases (parse_path_addr crates text)) [
    | inr (e, bad) ↦ inl (to_api_error crates e, rw bad refl)
    | inl (addr, good) ↦ elim (Result-cases (crates.log_from_bytes body)) [
      | inr (e, bad) ↦ inl (to_api_error crates (malformed_log e), rw (good, bad) refl)
      | inl (signed, parsed) ↦ elim (Applied-log addr signed) [
        | inl (e, refused) ↦ inl (to_api_error crates e, rw (good, parsed, refused) refl)
        | inr (_, t, done) ↦ inr (t, rw (good, parsed, done) refl)
      ]
    ]
  ]

  unchanged-unless :
      (m : Exec Store ApiError Response)
      → Refuses m s ⊎ Accepts m s
      → (into_response (m s).0).status ≢ no_content
      → (m s).1 ≡ s
  unchanged-unless m (inl (e, refused)) h = ap (λ r. r.1) refused
  unchanged-unless m (inr (t, done)) h = absurd (h (ap (λ r. (into_response r.0).status) done))

  -- Whatever the request, the clock and the failures of the database: a request that is not
  -- answered 204 leaves the store as it was.
  pub serve-unchanged :
      (req : Request)
      → (serve crates env req s).0.status ≢ no_content
      → (serve crates env req s).1 ≡ s
  unfolding serve handle
  serve-unchanged (post_keypackage req) h =
      unchanged-unless (submit_key_package crates env req) (submit_key_package-answers req) h
  serve-unchanged (post_account req) h =
      unchanged-unless (submit_account crates env req) (submit_account-answers req) h
  serve-unchanged (post_account_log text body) h =
      unchanged-unless (submit_account_log crates env text body)
        (submit_account_log-answers text body) h
  serve-unchanged (get_keypackage id) h = fetch_key_package-state crates env s id
  serve-unchanged (get_account_bundle id) h = fetch_account-state crates env s id
  serve-unchanged (get_log text) h = fetch_account_log-state crates env s text

-- ===== src/Handlers/Isolation.antt =====
-- A request is about one id: it is answered from the rows of that id, and it changes no others.
use mathlib.Core.Option
use chat_store.Common.{String, Bool, true, false, ◌≡◌, refl, ap, Option, none, some, arith}
use chat_store.Common.Exec.{
  Result, ok, err, Exec, map_err, pure, lift, ◌>>=◌, ◌>>◌, exec_map_err, map_err-eq_ok,
}
use chat_store.Crates.{Crates}
use chat_store.Crates.Laws.{AccountLogLaws}
use chat_store.Store.{Store, Env, Db}
use chat_store.Store.KeyPackages.{latest}
use chat_store.Store.Accounts.{get_account}
use chat_store.Store.AccountLogs.{get_account_log}
use chat_store.Store.Isolation.{
  only, IsLocal, IsForeign, bind-IsLocal, bind-IsForeign, lift-IsLocal, lift-IsForeign,
  map_err-IsLocal, map_err-IsForeign,
}
use chat_store.Store.Isolation.Operations.{
  latest-IsLocal, get_account-IsLocal, get_account_log-IsLocal,
}
use chat_store.Bundle.{
  Bundle, Error, malformed_log, key_hex, apply_keypackage, apply_account, apply_account_log,
}
use chat_store.Bundle.Isolation.{
  apply_keypackage-IsLocal, apply_keypackage-IsForeign, apply_account-IsLocal,
  apply_account-IsForeign, apply_account_log-IsLocal, apply_account_log-IsForeign,
}
use chat_store.Handlers.Errors.{ApiError, okay, api_internal, decode_bundle, to_api_error}
use chat_store.Handlers.Endpoints.{
  Request, Response, octet_stream, api, accepted, or_not_found, keypackage_response,
  account_response, post_keypackage, get_keypackage, post_account, get_account_bundle,
  post_account_log, get_log, parse_path_addr, submit_key_package, fetch_key_package, submit_account,
  fetch_account, submit_account_log, fetch_account_log, into_response, handle, serve,
}
use chat_store.Handlers.Endpoints.States.{
  fetch_key_package-state, fetch_account-state, fetch_account_log-state,
}

-- Whether a request about this id is one about an owned id; a request that names no id is
-- refused without a look at the tables.
abbrev pub touches : (String → Bool) → Option String → Bool
touches owned none = true
touches owned (some id) = owned id

module _ (crates : Crates) where
  open crates use {addr_to_string, parse_addr, log_from_bytes}

  abbrev pub bundle_key : Result (Error crates) Bundle → Option String
  bundle_key (ok bundle) = some (key_hex crates bundle)
  bundle_key (err _) = none

  -- The id that a request is about.
  unfoldable pub key_of : Request → Option String
  key_of (post_keypackage req) =
      bundle_key (decode_bundle crates req.device_id req.payload req.signature)
  key_of (get_keypackage id) = some id
  key_of (post_account req) =
      bundle_key (decode_bundle crates req.account_pub req.payload req.signature)
  key_of (get_account_bundle id) = some id
  key_of (post_account_log text _) = Option.map addr_to_string (parse_addr text)
  key_of (get_log text) = Option.map addr_to_string (parse_addr text)

  module _ (laws : AccountLogLaws crates) (owned : String → Bool) (env : Env) where
    decoded_key :
        (key payload signature : String) (b : Bundle) (v : Bool)
        → touches owned (bundle_key (decode_bundle crates key payload signature)) ≡ v
        → map_err (to_api_error crates) (decode_bundle crates key payload signature) ≡ ok b
        → owned (key_hex crates b) ≡ v
    decoded_key key payload signature b v h good =
        rw (map_err-eq_ok (to_api_error crates) (decode_bundle crates key payload signature) good)
          at h

    parsed_key :
        (text : String) (addr : crates.AccountAddr) (v : Bool)
        → touches owned (Option.map addr_to_string (parse_addr text)) ≡ v
        → map_err (to_api_error crates) (parse_path_addr crates text) ≡ ok addr
        → owned (addr_to_string addr) ≡ v
    unfolding Option.map
    parsed_key text addr v h good = ground arith

    -- The end of a submission.
    accepted-IsLocal :
        (m : Exec Store (Error crates) (Unit {0}))
        → IsLocal owned m
        → IsLocal owned (api crates m >> accepted crates)
    accepted-IsLocal m h =
        bind-IsLocal owned (λ _. accepted crates) (api crates m)
          (map_err-IsLocal owned {F = ApiError} (to_api_error crates) m h) (λ _ s. refl)

    accepted-IsForeign :
        (m : Exec Store (Error crates) (Unit {0}))
        → IsForeign owned m
        → IsForeign owned (api crates m >> accepted crates)
    accepted-IsForeign m h =
        bind-IsForeign owned (λ _. accepted crates) (api crates m)
          (map_err-IsForeign owned {F = ApiError} (to_api_error crates) m h) (λ _ s. refl)

    -- A fetch: what is found goes into the answer.
    fetched-IsLocal :
        {A : Type 0} (m : Db (Option A)) (msg : String) (f : A → Response)
        → IsLocal owned m
        → IsLocal owned (
            exec_map_err api_internal m >>= λ found.
            lift (or_not_found msg found) >>= λ a. pure (f a))
    fetched-IsLocal m msg f h =
        bind-IsLocal owned (λ found. lift (or_not_found msg found) >>= λ a. pure (f a))
          (exec_map_err api_internal m) (map_err-IsLocal owned {F = ApiError} api_internal m h)
          (λ found. lift-IsLocal owned (λ a. pure (f a)) (or_not_found msg found) (λ a e s. refl))

    handle-IsLocal :
        (req : Request) → touches owned (key_of req) ≡ true → IsLocal owned (handle crates env req)
    unfolding handle key_of submit_key_package submit_account submit_account_log fetch_key_package
        fetch_account fetch_account_log
    handle-IsLocal (post_keypackage req) mine =
        lift-IsLocal owned _
          (map_err (to_api_error crates)
            (decode_bundle crates req.device_id req.payload req.signature))
          λ b good. accepted-IsLocal (apply_keypackage crates env b) (
            apply_keypackage-IsLocal crates owned env b
              (decoded_key req.device_id req.payload req.signature b true mine good))
    handle-IsLocal (post_account req) mine =
        lift-IsLocal owned _
          (map_err (to_api_error crates)
            (decode_bundle crates req.account_pub req.payload req.signature))
          λ b good. accepted-IsLocal (apply_account crates env b) (
            apply_account-IsLocal crates owned env b
              (decoded_key req.account_pub req.payload req.signature b true mine good))
    handle-IsLocal (post_account_log text body) mine =
        lift-IsLocal owned _ (map_err (to_api_error crates) (parse_path_addr crates text))
          λ addr good.
            lift-IsLocal owned _
              (map_err (to_api_error crates) (map_err malformed_log (log_from_bytes body)))
              λ signed _. accepted-IsLocal (apply_account_log crates env addr signed) (
                apply_account_log-IsLocal crates laws owned env addr signed
                  (parsed_key text addr true mine good))
    handle-IsLocal (get_keypackage id) mine =
        fetched-IsLocal (latest env id) _ (keypackage_response crates)
          (latest-IsLocal owned id mine env)
    handle-IsLocal (get_account_bundle id) mine =
        fetched-IsLocal (get_account env id) _ (account_response crates)
          (get_account-IsLocal owned id mine env)
    handle-IsLocal (get_log text) mine =
        lift-IsLocal owned _ (map_err (to_api_error crates) (parse_path_addr crates text))
          λ addr good.
            fetched-IsLocal (get_account_log crates env addr) _
              (λ signed_log. record { status = okay; body = octet_stream signed_log })
              (get_account_log-IsLocal crates owned env addr (parsed_key text addr true mine good))

    handle-IsForeign :
        (req : Request)
        → touches owned (key_of req) ≡ false
        → IsForeign owned (handle crates env req)
    unfolding handle key_of submit_key_package submit_account submit_account_log
    handle-IsForeign (post_keypackage req) other =
        lift-IsForeign owned _
          (map_err (to_api_error crates)
            (decode_bundle crates req.device_id req.payload req.signature))
          λ b good. accepted-IsForeign (apply_keypackage crates env b) (
            apply_keypackage-IsForeign crates owned env b
              (decoded_key req.device_id req.payload req.signature b false other good))
    handle-IsForeign (post_account req) other =
        lift-IsForeign owned _
          (map_err (to_api_error crates)
            (decode_bundle crates req.account_pub req.payload req.signature))
          λ b good. accepted-IsForeign (apply_account crates env b) (
            apply_account-IsForeign crates owned env b
              (decoded_key req.account_pub req.payload req.signature b false other good))
    handle-IsForeign (post_account_log text body) other =
        lift-IsForeign owned _ (map_err (to_api_error crates) (parse_path_addr crates text))
          λ addr good.
            lift-IsForeign owned _
              (map_err (to_api_error crates) (map_err malformed_log (log_from_bytes body)))
              λ signed _. accepted-IsForeign (apply_account_log crates env addr signed) (
                apply_account_log-IsForeign crates laws owned env addr signed
                  (parsed_key text addr false other good))
    handle-IsForeign (get_keypackage id) other =
        λ s. ap (only owned) (fetch_key_package-state crates env s id)
    handle-IsForeign (get_account_bundle id) other =
        λ s. ap (only owned) (fetch_account-state crates env s id)
    handle-IsForeign (get_log text) other =
        λ s. ap (only owned) (fetch_account_log-state crates env s text)

    -- A request about an owned id, or about none, is answered from the rows of the owned ids as it
    -- is from all rows, and leaves the same rows of the owned ids.
    pub serve-isolated :
        (req : Request) (s : Store)
        → touches owned (key_of req) ≡ true
        → serve crates env req (only owned s)
          ≡ ((serve crates env req s).0, only owned (serve crates env req s).1)
    unfolding serve
    serve-isolated req s mine = ap (λ p. (into_response p.0, p.1)) (handle-IsLocal req mine s)

    -- A request about another id leaves the rows of the owned ids as they were.
    pub serve-foreign :
        (req : Request) (s : Store)
        → touches owned (key_of req) ≡ false
        → only owned (serve crates env req s).1 ≡ only owned s
    unfolding serve
    serve-foreign req s other = handle-IsForeign req other s

-- ===== src/Handlers/Endpoints.antt =====
-- src/handlers/keypackage.rs, src/handlers/account/v0.rs and v1.rs: the six endpoints, and
-- `serve`, which hands a request that the router has matched to its endpoint.
pub mod States
use chat_store.Common.{String, Option, none, some, List, [], ◌∷◌, ◌++◌}
use chat_store.Common.Int.{ℤ}
use chat_store.Common.Exec.{
  Result, ok, err, Exec, map_err, ok_or, pure, raise, lift, exec_map_err, ◌>>=◌, ◌>>◌,
}
use chat_store.Rust.Bytes.{Bytes}
use chat_store.Crates.{Crates}
use chat_store.Store.{Store, StoredKeyPackageBundle, StoredAccountBundle, Env}
use chat_store.Store.KeyPackages.{latest}
use chat_store.Store.Accounts.{get_account}
use chat_store.Store.AccountLogs.{get_account_log}
use chat_store.Bundle.{
  Bundle, invalid, malformed_log, Error, apply_keypackage, apply_account, apply_account_log,
}
use chat_store.Handlers.Errors.{
  StatusCode, okay, no_content, ApiError, api_not_found, api_internal, decode_bundle, to_api_error,
}

pub record SubmitKeyPackageRequest : Type 0 where
  pub device_id : String
  pub payload : String
  pub signature : String

pub record SubmitAccountRequest : Type 0 where
  pub account_pub : String
  pub payload : String
  pub signature : String

pub record FetchKeyPackageResponse : Type 0 where
  pub payload : String
  pub signature : String

pub record FetchAccountResponse : Type 0 where
  pub payload : String
  pub signature : String
  pub updated_at : ℤ

-- A request whose route matched and whose parts axum extracted.
pub data Request : Type 0 where
  post_keypackage : SubmitKeyPackageRequest → Request
  get_keypackage : String → Request
  post_account : SubmitAccountRequest → Request
  get_account_bundle : String → Request
  post_account_log : String → Bytes → Request
  get_log : String → Request

pub data Body : Type 0 where
  nothing : Body
  error_body : String → Body
  keypackage_body : FetchKeyPackageResponse → Body
  account_body : FetchAccountResponse → Body
  octet_stream : Bytes → Body

pub record Response : Type 0 where
  pub status : StatusCode
  pub body : Body

pub data Method : Type 0 where
  get post : Method

-- The routes that `router` merges: path, method.
abbrev pub routes : List (String × Method)
routes =
    ("/v0/keypackage", post)
    ∷ ("/v0/keypackage/:device_id", get)
    ∷ ("/v0/account", post)
    ∷ ("/v0/account/:account_pub", get)
    ∷ ("/v1/account/:account_addr", post)
    ∷ ("/v1/account/:account_addr", get)
    ∷ []

-- `IntoResponse`
abbrev pub into_response : Result ApiError Response → Response
into_response (ok response) = response
into_response (err e) = record { status = e.status; body = error_body e.message }

abbrev pub or_not_found : {A : Type 0} → String → Option A → Result ApiError A
or_not_found msg found = ok_or (api_not_found msg) found

module _ (crates : Crates) where
  open crates use {base64_encode, AccountAddr, parse_addr, log_from_bytes}

  abbrev pub api : {A : Type 0} → Exec Store (Error crates) A → Exec Store ApiError A
  api m = exec_map_err (to_api_error crates) m

  abbrev pub accepted : Exec Store ApiError Response
  accepted = pure (record { status = no_content; body = nothing })

  unfoldable pub submit_key_package : Env → SubmitKeyPackageRequest → Exec Store ApiError Response
  submit_key_package env req = do
    bundle ← api (lift (decode_bundle crates req.device_id req.payload req.signature))
    api (apply_keypackage crates env bundle)
    accepted

  abbrev pub keypackage_response : StoredKeyPackageBundle → Response
  keypackage_response bundle = record {
    status = okay;
    body = keypackage_body (record {
      payload = base64_encode bundle.payload;
      signature = base64_encode bundle.signature;
    });
  }

  unfoldable pub fetch_key_package : Env → String → Exec Store ApiError Response
  fetch_key_package env device_id = do
    found ← exec_map_err api_internal (latest env device_id)
    bundle ← lift (or_not_found "no keypackage for device" found)
    pure (keypackage_response bundle)

  unfoldable pub submit_account : Env → SubmitAccountRequest → Exec Store ApiError Response
  submit_account env req = do
    bundle ← api (lift (decode_bundle crates req.account_pub req.payload req.signature))
    api (apply_account crates env bundle)
    accepted

  abbrev pub account_response : StoredAccountBundle → Response
  account_response bundle = record {
    status = okay;
    body = account_body (record {
      payload = base64_encode bundle.payload;
      signature = base64_encode bundle.signature;
      updated_at = bundle.updated_at;
    });
  }

  unfoldable pub fetch_account : Env → String → Exec Store ApiError Response
  fetch_account env account_pub = do
    found ← exec_map_err api_internal (get_account env account_pub)
    bundle ← lift (or_not_found "no account bundle for account_pub" found)
    pure (account_response bundle)

  abbrev pub parse_path_addr : String → Result (Error crates) AccountAddr
  parse_path_addr account_addr =
      ok_or (invalid "account_addr: not a valid account address") (parse_addr account_addr)

  unfoldable pub submit_account_log : Env → String → Bytes → Exec Store ApiError Response
  submit_account_log env account_addr body = do
    addr ← api (lift (parse_path_addr account_addr))
    signed ← api (lift (map_err malformed_log (log_from_bytes body)))
    api (apply_account_log crates env addr signed)
    accepted

  unfoldable pub fetch_account_log : Env → String → Exec Store ApiError Response
  fetch_account_log env account_addr = do
    addr ← api (lift (parse_path_addr account_addr))
    found ← exec_map_err api_internal (get_account_log crates env addr)
    signed_log ← lift (or_not_found "no account log for account_addr" found)
    pure (record { status = okay; body = octet_stream signed_log })

  unfoldable pub handle : Env → Request → Exec Store ApiError Response
  handle env (post_keypackage req) = submit_key_package env req
  handle env (get_keypackage device_id) = fetch_key_package env device_id
  handle env (post_account req) = submit_account env req
  handle env (get_account_bundle account_pub) = fetch_account env account_pub
  handle env (post_account_log account_addr body) = submit_account_log env account_addr body
  handle env (get_log account_addr) = fetch_account_log env account_addr

  unfoldable pub serve : Env → Request → Store → Response × Store
  serve env req s = let (r, s') = handle env req s in (into_response r, s')

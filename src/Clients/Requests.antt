-- ===== src/Clients/Requests.antt =====
-- What the client programs share: one request and its answer, and the keys and payloads they make.
use native.Mathlib.Numerals.{unary_clauses}
use chat_store.Common.{
  ℕ, zero, suc, ◌+◌, ◌-◌, String, [], ◌∷◌, ◌++◌, length, take, replicate, ◌≡◌, refl, arith,
  All-append,
}
use chat_store.Common.Exec.{ok, err, Exec}
use chat_store.Rust.Bytes.{Bytes, IsByte, IsBytes}
use chat_store.Crates.{Crates}
use chat_store.Crates.Signing.{Signing}
use chat_store.Store.{Store, Env}
use chat_store.Handlers.Errors.{
  StatusCode, okay, no_content, bad_request, not_found, conflict, internal_server_error,
}
use chat_store.Handlers.Endpoints.{Request, Response, Body, serve}

-- How a request fares on its way: it is not sent, it is served and its answer is lost, or it is
-- answered. The service serves it in the given surroundings.
pub data Exchange : Type 0 where
  unsent : Exchange
  lost : Env → Exchange
  answered : Env → Exchange

-- The ways in which the client programs give up.
pub data ClientError : Type 0 where
  send_failed : ClientError
  unexpected_status : String → StatusCode → StatusCode → Body → ClientError
  not_json : ClientError
  failed : String → ClientError
  did_not_appear : String → StatusCode → ClientError

-- The state that a client acts on is the server's.
abbrev pub Client : Type 0 → Type 0
Client A = Exec Store ClientError A

abbrev pub status_number : StatusCode → ℕ
status_number okay = 200
status_number no_content = 204
status_number bad_request = 400
status_number not_found = 404
status_number conflict = 409
status_number internal_server_error = 500

-- `vec.resize(n, value)`
abbrev pub resize : ℕ → ℕ → Bytes → Bytes
resize n value xs = take n xs ++ replicate (n - length xs) value

module _ (crates : Crates) where
  unfoldable pub send : Exchange → Request → Client Response
  send unsent req s = (err send_failed, s)
  send (lost env) req s = (err send_failed, (serve crates env req s).1)
  send (answered env) req s = let (response, s') = serve crates env req s in (ok response, s')

  -- `hex::encode(key.verifying_key().to_bytes())`
  abbrev pub pub_hex : (signing : Signing crates) → signing.SigningKey → String
  pub_hex signing key =
      crates.hex_encode (signing.verifying_key_to_bytes (signing.verifying_key key))

  -- `BASE64.encode(key.sign(&payload).to_bytes())`
  abbrev pub signature_text : (signing : Signing crates) → signing.SigningKey → Bytes → String
  signature_text signing key payload =
      crates.base64_encode (signing.signature_to_bytes (signing.sign key payload))

take_all : (xs : Bytes) (n : ℕ) → take (length xs + n) xs ≡ xs
take_all [] zero = refl
take_all [] (suc n) = simp unary_clauses refl
take_all (x ∷ xs) n =
    let count : suc (length xs) + n ≡ suc (length xs + n) = omega arith in
    rw (count, take_all xs n) refl

pub resize-length :
    (xs : Bytes) (n value : ℕ) → resize (length xs + n) value xs ≡ xs ++ replicate n value
resize-length xs n value =
    let more : length xs + n - length xs ≡ n = omega arith in rw (take_all xs n, more) refl

IsBytes-take : (n : ℕ) (xs : Bytes) → IsBytes xs → IsBytes (take n xs)
IsBytes-take zero xs h = tt
IsBytes-take (suc n) [] h = tt
IsBytes-take (suc n) (x ∷ xs) h = (h.0, IsBytes-take n xs h.1)

pub IsBytes-replicate : (n value : ℕ) → IsByte value → IsBytes (replicate n value)
IsBytes-replicate zero value h = tt
IsBytes-replicate (suc n) value h = (h, IsBytes-replicate n value h)

pub IsBytes-resize :
    (n value : ℕ) (xs : Bytes) → IsByte value → IsBytes xs → IsBytes (resize n value xs)
IsBytes-resize n value xs small h =
    All-append IsByte (take n xs) (replicate (n - length xs) value) (IsBytes-take n xs h)
      (IsBytes-replicate (n - length xs) value small)

pub length-replicate : (n value : ℕ) → length (replicate n value) ≡ n
length-replicate zero value = refl
length-replicate (suc n) value = omega (arith, length-replicate n value)

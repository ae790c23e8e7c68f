-- ===== src/Service/Runs/Queue.antt =====
-- The ingest thread, and the requests over HTTP that say what its messages say.
use chat_store.Common.{String, ◌≡◌, refl, none, some, List, [], ◌∷◌}
use chat_store.Rust.Bytes.{Bytes}
use chat_store.Crates.{Crates, Submission}
use chat_store.Store.{Store, Env}
use chat_store.Handlers.Endpoints.{
  Request, SubmitKeyPackageRequest, SubmitAccountRequest, post_keypackage, post_account, serve,
}
use chat_store.Delivery.{
  Received, key_package, account, ingest_keypackage, ingest_account, ingest_received, ingest_loop,
}
use chat_store.Delivery.Agreement.{http-delivery_keypackage, http-delivery_account}
use chat_store.Service.{Cli, Input, request, step, run}

module _ (crates : Crates) where
  -- The texts of a request spell out the byte strings of a submission.
  pub record Spells (wire : Submission) (key payload signature : String) : Type 0 where
    pub spells_key : crates.hex_decode key ≡ some wire.key
    pub spells_payload : crates.base64_decode payload ≡ some wire.payload
    pub spells_signature : crates.base64_decode signature ≡ some wire.signature

  -- The POST that submits what a message submits.
  pub data Posts : Received → Request → Type 0 where
    posts_keypackage :
        (bytes : Bytes) (wire : Submission) (req : SubmitKeyPackageRequest)
        → crates.decode_keypackage_submission bytes ≡ some wire
        → Spells wire req.device_id req.payload req.signature
        → Posts (key_package bytes) (post_keypackage req)
    posts_account :
        (bytes : Bytes) (wire : Submission) (req : SubmitAccountRequest)
        → crates.decode_account_submission bytes ≡ some wire
        → Spells wire req.account_pub req.payload req.signature
        → Posts (account bytes) (post_account req)

  -- A message whose protobuf does not decode.
  pub data IsJunk : Received → Type 0 where
    junk_keypackage :
        (bytes : Bytes)
        → crates.decode_keypackage_submission bytes ≡ none
        → IsJunk (key_package bytes)
    junk_account :
        (bytes : Bytes) → crates.decode_account_submission bytes ≡ none → IsJunk (account bytes)

  -- The POSTs that submit what the messages of a queue do, in its order, each in the surroundings
  -- of its message. Junk has none.
  pub data Reposts : List (Env × Received) → List (Env × Input) → Type 0 where
    reposts_none : Reposts [] []
    reposts :
        (env : Env) (received : Received) (req : Request) (queue : List (Env × Received))
        (inputs : List (Env × Input))
        → Posts received req
        → Reposts queue inputs
        → Reposts ((env, received) ∷ queue) ((env, request req) ∷ inputs)
    drops :
        (env : Env) (received : Received) (queue : List (Env × Received))
        (inputs : List (Env × Input))
        → IsJunk received
        → Reposts queue inputs
        → Reposts ((env, received) ∷ queue) inputs

  Posts-same :
      (env : Env) (received : Received) (req : Request) (s : Store)
      → Posts received req
      → (ingest_received crates env received s).1 ≡ (serve crates env req s).1
  Posts-same env _ _ s (posts_keypackage bytes wire req parsed spelt) =
      http-delivery_keypackage crates s wire env bytes req parsed spelt.spells_key
        spelt.spells_payload spelt.spells_signature
  Posts-same env _ _ s (posts_account bytes wire req parsed spelt) =
      http-delivery_account crates s wire env bytes req parsed spelt.spells_key spelt.spells_payload
        spelt.spells_signature

  IsJunk-kept :
      (env : Env) (received : Received) (s : Store)
      → IsJunk received
      → (ingest_received crates env received s).1 ≡ s
  unfolding ingest_received ingest_keypackage ingest_account
  IsJunk-kept env _ s (junk_keypackage bytes bad) = rw bad refl
  IsJunk-kept env _ s (junk_account bytes bad) = rw bad refl

  -- The ingest thread leaves the store as a service does that is sent, over HTTP and in the order
  -- of the queue, the POSTs with the same submissions: keypackage messages as POSTs of keypackages,
  -- account messages as POSTs of account bundles, accepted and refused ones alike. Messages whose
  -- protobuf does not decode change nothing and hold up none of those after them.
  pub ingest_loop-posts :
      (cli : Cli) (queue : List (Env × Received)) (inputs : List (Env × Input)) (s : Store)
      → Reposts queue inputs
      → (ingest_loop crates queue s).1 ≡ run crates cli inputs s
  unfolding ingest_loop run step
  ingest_loop-posts cli _ _ s reposts_none = refl
  ingest_loop-posts cli _ _ s (reposts env received req queue inputs same h) =
      rw (Posts-same env received req s same)
        (ingest_loop-posts cli queue inputs (serve crates env req s).1 h)
  ingest_loop-posts cli _ _ s (drops env received queue inputs junk h) =
      rw (IsJunk-kept env received s junk) (ingest_loop-posts cli queue inputs s h)

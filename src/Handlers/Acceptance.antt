-- ===== src/Handlers/Acceptance.antt =====
-- When a database that answers every statement accepts a submission of an account bundle.
use chat_store.Common.{ℕ, ◌≡◌, refl, ◌⊎◌, inl, inr, false, some, Bool-cases, Option-cases}
use chat_store.Common.Exec.{ok, Result-cases}
use chat_store.Crates.{Crates}
use chat_store.Store.{Store, Env, begin, fetch, write, commit}
use chat_store.Store.Lamport.{payload_lamport}
use chat_store.Store.Accounts.{stored_lamport, is_stale, upsert_account}
use chat_store.Bundle.{Bundle, key_hex, verify, apply_account}
use chat_store.Handlers.Errors.{no_content, bad_request, conflict, decode_bundle, to_api_error}
use chat_store.Handlers.Endpoints.{
  SubmitAccountRequest, post_account, submit_account, handle, serve,
}
use chat_store.Handlers.Conflicts.{Healthy, decode_bundle-status, verify-status}

module _ (crates : Crates) (env : Env) (s : Store) (req : SubmitAccountRequest) where
  -- The request carries a verified bundle, whose lamport is above the one on file, if there is one.
  pub record IsFresh : Type 0 where
    pub bundle : Bundle
    pub lamport : ℕ
    pub decoded : decode_bundle crates req.account_pub req.payload req.signature ≡ ok bundle
    pub verified : verify crates bundle ≡ ok tt
    pub carries : payload_lamport bundle.payload ≡ some lamport
    pub newer : is_stale lamport (stored_lamport (key_hex crates bundle) s) ≡ false

  -- Where the database answers every statement, a POST of an account bundle is answered 204, and
  -- then it carries a verified bundle whose lamport is not stale, or it is answered 400 or 409:
  -- there is no other answer.
  pub post_account-answers :
      Healthy env
      → (IsFresh × ((serve crates env (post_account req) s).0.status ≡ no_content))
        ⊎ ((serve crates env (post_account req) s).0.status ≡ bad_request)
        ⊎ ((serve crates env (post_account req) s).0.status ≡ conflict)
  unfolding serve handle submit_account apply_account upsert_account to_api_error
  post_account-answers fine =
      elim (Result-cases (decode_bundle crates req.account_pub req.payload req.signature)) [
        | inr (e, bad) ↦ inr (
            inl (
              rw bad (decode_bundle-status crates req.account_pub req.payload req.signature e bad)))
        | inl (b, good) ↦ elim (Result-cases (verify crates b)) [
          | inr (e, bad) ↦ inr (inl (rw (good, bad) (verify-status crates b e bad)))
          | inl (_, genuine) ↦ elim (Option-cases (payload_lamport b.payload)) [
            | inl short ↦ inr (inl (rw (good, genuine, short) refl))
            | inr (lamport, long) ↦
                elim (Bool-cases (is_stale lamport (stored_lamport (key_hex crates b) s))) [
                  | inl old ↦ inr (inr (rw (good, genuine, long, fine begin, fine fetch, old) refl))
                  | inr new ↦ inl (
                    record {
                      bundle = b;
                      lamport = lamport;
                      decoded = good;
                      verified = genuine;
                      carries = long;
                      newer = new;
                    },
                    rw (good, genuine, long, fine begin, fine fetch, new, fine write, fine commit)
                        refl,
                  )
                ]
          ]
        ]
      ]

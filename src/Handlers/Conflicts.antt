-- ===== src/Handlers/Conflicts.antt =====
-- When a submission is answered 409, and when a database that answers every statement accepts it.
use chat_store.Common.{
  ℕ, ◌≤◌, String, ◌≡◌, refl, ◌↔◌, inl, inr, true, Option, none, some, arith, le→leb, leb→le,
  Option-cases,
}
use chat_store.Common.Exec.{ok, err, Result-cases}
use chat_store.Crates.{Crates}
use chat_store.Store.{Store, Env, Statement, begin, fetch}
use chat_store.Store.Lamport.{payload_lamport}
use chat_store.Store.Accounts.{stored_lamport, is_stale, upsert_account}
use chat_store.Store.Cases.{upsert_account-cases}
use chat_store.Bundle.{Bundle, Error, key_hex, verify, apply_account}
use chat_store.Bundle.Cases.{kept_account}
use chat_store.Handlers.Errors.{conflict, bad_request, decode_bundle, to_api_error}
use chat_store.Handlers.Endpoints.{
  SubmitAccountRequest, post_account, submit_account, handle, serve,
}

-- The database answers every statement.
abbrev pub Healthy : Env → Type 0
Healthy env = (c : Statement) → env.fault c ≡ none

module _ (crates : Crates) where
  pub decode_bundle-status :
      (key payload signature : String) (e : Error crates)
      → decode_bundle crates key payload signature ≡ err e
      → (to_api_error crates e).status ≡ bad_request
  unfolding decode_bundle to_api_error
  decode_bundle-status key payload signature e h = ground arith

  pub verify-status :
      (b : Bundle) (e : Error crates)
      → verify crates b ≡ err e
      → (to_api_error crates e).status ≡ bad_request
  unfolding verify to_api_error
  verify-status b e h = ground arith

  stale-on_file :
      (lamport : ℕ) (known : Option ℕ)
      → is_stale lamport known ≡ true
      → (on_file : ℕ) × (known ≡ some on_file) × (lamport ≤ on_file)
  stale-on_file lamport none h = cc
  stale-on_file lamport (some on_file) h = (on_file, refl, leb→le lamport on_file h)

  module _ (env : Env) (s : Store) (b : Bundle) where
    apply_account-conflict :
        (e : Error crates)
        → (apply_account crates env b s).0 ≡ err e
        → (to_api_error crates e).status ≡ conflict
        → (lamport : ℕ) × (verify crates b ≡ ok tt)
          × (payload_lamport b.payload ≡ some lamport)
          × (is_stale lamport (stored_lamport (key_hex crates b) s) ≡ true)
    unfolding apply_account to_api_error
    apply_account-conflict e h c = elim (Result-cases (verify crates b)) [
      | inr (f, bad) ↦ cc (verify-status b f bad, rw bad at h)
      | inl (_, good) ↦ elim (Option-cases (payload_lamport b.payload)) [
        | inl short ↦ cc (rw (good, short) at h)
        | inr (lamport, long) ↦
            elim (upsert_account-cases env (key_hex crates b) lamport (kept_account b) s) [
              | inl (f, failed) ↦ cc (rw (good, long, failed) at h)
              | inr (inl (old, same)) ↦ (lamport, good, long, old)
              | inr (inr (new, done)) ↦ cc (rw (good, long, done) at h)
            ]
      ]
    ]

module _ (crates : Crates) (env : Env) (s : Store) (req : SubmitAccountRequest) where
  -- The request carries a verified bundle whose lamport is not above the one on file.
  pub record IsReplay : Type 0 where
    pub bundle : Bundle
    pub lamport : ℕ
    pub on_file : ℕ
    pub decoded : decode_bundle crates req.account_pub req.payload req.signature ≡ ok bundle
    pub verified : verify crates bundle ≡ ok tt
    pub carries : payload_lamport bundle.payload ≡ some lamport
    pub stored : stored_lamport (key_hex crates bundle) s ≡ some on_file
    pub not_above : lamport ≤ on_file

  conflict-IsReplay : (serve crates env (post_account req) s).0.status ≡ conflict → IsReplay
  unfolding serve handle submit_account
  conflict-IsReplay h =
      elim (Result-cases (decode_bundle crates req.account_pub req.payload req.signature)) [
        | inr (e, bad) ↦ cc (
          decode_bundle-status crates req.account_pub req.payload req.signature e bad,
          rw bad at h,
        )
        | inl (b, good) ↦ elim (Result-cases (apply_account crates env b s).0) [
          | inl (_, done) ↦ cc (rw (good, done) at h)
          | inr (e, refused) ↦
              let (lamport, verified, carries, old) =
                apply_account-conflict crates env s b e refused (rw (good, refused) at h) in
              let (on_file, known, low) = stale-on_file crates lamport _ old in
              record {
                bundle = b;
                lamport = lamport;
                on_file = on_file;
                decoded = good;
                verified = verified;
                carries = carries;
                stored = known;
                not_above = low;
              }
        ]
      ]

  replay-conflict :
      Healthy env → IsReplay → (serve crates env (post_account req) s).0.status ≡ conflict
  unfolding serve handle submit_account apply_account upsert_account to_api_error
  replay-conflict fine r =
      rw
        (r.decoded, r.verified, r.carries, fine begin, fine fetch, r.stored, le→leb _ _ r.not_above)
        refl

  -- Where the database answers every statement, a POST of an account bundle is answered 409
  -- exactly when its bundle decodes, verifies and carries a lamport that is at most the one on
  -- file for its account.
  pub conflict_iff :
      Healthy env → ((serve crates env (post_account req) s).0.status ≡ conflict) ↔ IsReplay
  conflict_iff fine = (conflict-IsReplay, replay-conflict fine)

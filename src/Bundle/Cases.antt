-- ===== src/Bundle/Cases.antt =====
-- How each `apply_*` can end: it is refused and changes nothing, or the bundle is verified and one
-- change is made.
use chat_store.Common.{
  ℕ, ◌≡◌, refl, ◌⊎◌, inl, inr, false, none, some, arith, Option-cases, find, length,
}
use chat_store.Common.Int.{pos}
use chat_store.Common.Exec.{ok, err, Result-cases}
use chat_store.Rust.Bytes.{Bytes}
use chat_store.Crates.{Crates, Outcome, updated, unchanged, identical, behind, diverged}
use chat_store.Store.{
  Store, Env, unexpected_outcome, KeyPackageRow, StoredKeyPackageBundle, StoredAccountBundle,
}
use chat_store.Store.Lamport.{payload_lamport}
use chat_store.Store.KeyPackages.{same_key}
use chat_store.Store.Accounts.{stored_lamport, is_stale}
use chat_store.Store.AccountLogs.{is_updated, weigh}
use chat_store.Store.Cases.{
  Refuses, received, add_keypackage, put_account, put_log, stored, insert-cases,
  upsert_account-cases, put_account_log-cases,
}
use chat_store.Store.Weighing.{is_updated-eq}
use chat_store.Bundle.{
  Bundle, invalid, internal, from_bytes, key_hex, verify, Error, stale, forked, refusal, verdict,
  apply_keypackage, apply_account, apply_account_log,
}

abbrev pub IsSized : Bundle → Type 0
IsSized b = (length b.key ≡ 32) × (length b.signature ≡ 64)

-- What `from_bytes` accepts has the sizes of a key and a signature, and holds what it was given.
pub from_bytes-IsSized :
    {E : Type 0} (key payload signature : Bytes) {b : Bundle}
    → from_bytes {E = E} key payload signature ≡ ok b
    → IsSized b
unfolding from_bytes
from_bytes-IsSized key payload signature h = ground arith

abbrev pub kept_keypackage : Bundle → StoredKeyPackageBundle
kept_keypackage b = record { payload = b.payload; signature = b.signature }

abbrev pub kept_account : Bundle → StoredAccountBundle
kept_account b = record { payload = b.payload; signature = b.signature; updated_at = pos 0 }

module _ (crates : Crates) (env : Env) (s : Store) where
  abbrev pub keypackage_row : Bundle → KeyPackageRow
  keypackage_row b = received env (key_hex crates b) (kept_keypackage b)

  abbrev pub Adds : Bundle → Type 0
  Adds b =
      (verify crates b ≡ ok tt)
      × (find (same_key (keypackage_row b)) s.keypackages ≡ none)
      × (apply_keypackage crates env b s ≡ (ok tt, add_keypackage (keypackage_row b) s))

  pub apply_keypackage-cases : (b : Bundle) → Refuses (apply_keypackage crates env b) s ⊎ Adds b
  unfolding apply_keypackage
  apply_keypackage-cases b = elim (Result-cases (verify crates b)) [
    | inr (e, bad) ↦ inl (e, rw bad refl)
    | inl (_, good) ↦ elim (insert-cases env (key_hex crates b) (kept_keypackage b) s) [
      | inl (e, failed) ↦ inl (internal e, rw (good, failed) refl)
      | inr (free, done) ↦ inr (good, free, rw (good, done) refl)
    ]
  ]

  abbrev pub Puts : Bundle → Type 0
  Puts b =
      (lamport : ℕ) × (verify crates b ≡ ok tt)
      × (payload_lamport b.payload ≡ some lamport)
      × (is_stale lamport (stored_lamport (key_hex crates b) s) ≡ false)
      × (apply_account crates env b s
          ≡ (ok tt, put_account env (key_hex crates b) (kept_account b) s))

  pub apply_account-cases : (b : Bundle) → Refuses (apply_account crates env b) s ⊎ Puts b
  unfolding apply_account
  apply_account-cases b = elim (Result-cases (verify crates b)) [
    | inr (e, bad) ↦ inl (e, rw bad refl)
    | inl (_, good) ↦ elim (Option-cases (payload_lamport b.payload)) [
      | inl short ↦
          inl (invalid "payload: too short to contain a lamport header", rw (good, short) refl)
      | inr (lamport, long) ↦
          elim (upsert_account-cases env (key_hex crates b) lamport (kept_account b) s) [
            | inl (e, failed) ↦ inl (internal e, rw (good, long, failed) refl)
            | inr (inl (old, same)) ↦ inl (stale, rw (good, long, same) refl)
            | inr (inr (new, done)) ↦ inr (lamport, good, long, new, rw (good, long, done) refl)
          ]
    ]
  ]

module _ (crates : Crates) where
  verdict-cases :
      (o : Outcome)
      → is_updated o ≡ false
      → (o ≡ unchanged identical) ⊎ ((e : Error crates) × (verdict crates o ≡ err e))
  verdict-cases updated h = cc
  verdict-cases (unchanged identical) h = inl refl
  verdict-cases (unchanged behind) h = inr (stale, refl)
  verdict-cases (unchanged diverged) h = inr (forked, refl)
  verdict-cases other h = inr (internal (unexpected_outcome (crates.outcome_debug other)), refl)

module _ (crates : Crates) (env : Env) (s : Store) (addr : crates.AccountAddr) where
  -- The log is the stored one already, or it takes its place.
  abbrev pub Logs : crates.SignedAccountLog → Type 0
  Logs signed =
      (candidate : crates.AccountRecord) × (update : Outcome × crates.AccountRecord)
      × (crates.record_new addr signed ≡ ok candidate)
      × (weigh crates candidate (stored crates env candidate s) ≡ ok update)
      × (((update.0 ≡ unchanged identical)
            × (apply_account_log crates env addr signed s ≡ (ok tt, s)))
          ⊎ ((update.0 ≡ updated)
              × (apply_account_log crates env addr signed s
                  ≡ (ok tt, put_log crates env candidate update.1 s))))

  pub apply_account_log-cases :
      (signed : crates.SignedAccountLog)
      → Refuses (apply_account_log crates env addr signed) s ⊎ Logs signed
  unfolding apply_account_log
  apply_account_log-cases signed = elim (Result-cases (crates.record_new addr signed)) [
    | inr (e, bad) ↦ inl (refusal crates e, rw bad refl)
    | inl (candidate, good) ↦ elim (put_account_log-cases crates env candidate s) [
      | inl (e, failed) ↦ inl (internal e, rw (good, failed) refl)
      | inr (update, w, inr (newer, done)) ↦
          inr (candidate, update, good, w, inr (is_updated-eq update.0 newer, rw (good, done) refl))
      | inr (update, w, inl (old, same)) ↦ elim (verdict-cases crates update.0 old) [
        | inl e ↦ inr (candidate, update, good, w, inl (e, rw (good, same, e) refl))
        | inr (e, no_news) ↦ inl (e, rw (good, same, no_news) refl)
      ]
    ]
  ]

-- ===== src/Suite/Bundles/Logs/Passing.antt =====
-- The tests of src/bundle.rs on account logs, for any crates that keep their documented laws, any
-- clock and a database that answers.
use mathlib.Core.Option
use chat_store.Common.{
  ℕ, Bool, ◌≡◌, refl, subst, ◌∙◌, ◌==◌, true, false, Option, none, some, List, [], ◌∷◌, map,
  if◌then◌else◌, find,
}
use chat_store.Common.Exec.{ok, err}
use chat_store.Rust.Bytes.{Bytes, eq_bytes, eq_bytes_refl}
use chat_store.Crates.{Crates, Outcome, updated, unchanged, identical, behind, diverged}
use chat_store.Crates.Laws.{AccountLogLaws}
use chat_store.Crates.Signing.{Signing}
use chat_store.Crates.Drafting.{Drafting, DraftingLaws, compare_devices}
use chat_store.Store.{Store, empty, fetch}
use chat_store.Store.AccountLogs.{stored_log, is_updated, get_account_log}
use chat_store.Bundle.{verdict, apply_account_log}
use chat_store.Bundle.Devices.{account, as_log, HasOnFile, WasDraft, Elsewhere, Applied-judged}
use chat_store.Bundle.Devices.Verdicts.{judged}
use chat_store.Handlers.Conflicts.{Healthy}
use chat_store.Suite.{Surroundings}
use chat_store.Suite.Bundles.{test_payload, test_key, key_bytes}
use chat_store.Suite.Bundles.Logs.{
  account_log_must_extend_the_stored_one, account_log_must_be_authentic_and_well_formed,
}

module _ (crates : Crates) (laws : AccountLogLaws crates) (signing : Signing crates)
    (drafting : Drafting crates signing) (drafts : DraftingLaws crates signing drafting)
    (env : Surroundings) (fine : (n : ℕ) → Healthy (env n)) where
  open drafts use {IsDraft, payload_of, addr_of, log_of}

  abbrev devices : List ℕ → List Bytes
  devices seeds = map (λ seed. key_bytes crates signing (test_key crates signing seed)) seeds

  get_account_log-on_file :
      (n : ℕ) (key : signing.SigningKey) (s : Store)
      → get_account_log crates (env n) (addr_of key) s
        ≡ (ok (stored_log (crates.addr_to_string (addr_of key)) s), s)
  unfolding get_account_log
  get_account_log-on_file n key s = rw (fine n fetch) refl

  nothing_stored : (id : _) → stored_log id empty ≡ none
  unfolding stored_log find Option.map
  nothing_stored id = refl

  abbrev k : signing.SigningKey
  k = test_key crates signing 4

  abbrev never : signing.SigningKey
  never = test_key crates signing 7

  -- A step whose verdict is known.
  step_as :
      (n : ℕ) (s : Store) (old : Option (List Bytes)) (new : List Bytes) (o : Outcome)
      → judged old new ≡ o
      → HasOnFile crates laws signing drafting drafts k old s
      → WasDraft crates laws signing drafting drafts k old
      → IsDraft new
      → (t : Store) × (apply_account_log crates (env n) (addr_of k) (log_of k (payload_of new)) s
          ≡ (verdict crates o, t))
        × HasOnFile crates laws signing drafting drafts k (if is_updated o then some new else old) t
        × Elsewhere crates laws signing drafting drafts k (env n) (fine n) s t
  step_as n s old new o h on_file was draft =
      subst
        (λ p.
          (t : Store) × (apply_account_log crates (env n) (addr_of k) (log_of k (payload_of new)) s
            ≡ (verdict crates p, t))
          × HasOnFile crates laws signing drafting drafts k (if is_updated p then some new else old)
              t
          × Elsewhere crates laws signing drafting drafts k (env n) (fine n) s t)
        h
        (Applied-judged crates laws signing drafting drafts k (env n) (fine n) s old new on_file was
          draft)

  abbrev key_of_seed : ℕ → Bytes
  key_of_seed seed = key_bytes crates signing (test_key crates signing seed)

  extends_passes :
      ((seeds : List ℕ) → IsDraft (devices seeds))
      → eq_bytes (key_of_seed 1) (key_of_seed 3) ≡ false
      → (account crates laws signing drafting drafts k
          == account crates laws signing drafting drafts never)
        ≡ false
      → (account_log_must_extend_the_stored_one crates signing drafting env empty).0 ≡ ok tt
  unfolding account_log_must_extend_the_stored_one compare_devices
  extends_passes draft differ apart =
      let same = eq_bytes_refl (key_of_seed 1) in
      let same' = eq_bytes_refl (key_of_seed 2) in
      let (s0, done0, left0, o0) =
        step_as 0 empty none (devices []) updated refl (nothing_stored _) tt (draft []) in
      let (s1, done1, left1, o1) =
        step_as 1 s0 (some (devices [])) (devices (1 ∷ [])) updated refl left0 (draft [])
          (draft (1 ∷ [])) in
      let (s2, done2, left2, o2) =
        step_as 2 s1 (some (devices (1 ∷ []))) (devices (1 ∷ [])) (unchanged identical)
          (rw same refl) left1 (draft (1 ∷ [])) (draft (1 ∷ [])) in
      let (s3, done3, left3, o3) =
        step_as 3 s2 (some (devices (1 ∷ []))) (devices (1 ∷ 2 ∷ [])) updated (rw same refl) left2
          (draft (1 ∷ [])) (draft (1 ∷ 2 ∷ [])) in
      let (s4, done4, left4, o4) =
        step_as 4 s3 (some (devices (1 ∷ 2 ∷ []))) (devices (1 ∷ [])) (unchanged behind)
          (rw same refl) left3 (draft (1 ∷ 2 ∷ [])) (draft (1 ∷ [])) in
      let (s5, done5, left5, o5) =
        step_as 5 s4 (some (devices (1 ∷ 2 ∷ []))) (devices (3 ∷ 2 ∷ 1 ∷ [])) (unchanged diverged)
          (rw differ refl) left4 (draft (1 ∷ 2 ∷ [])) (draft (3 ∷ 2 ∷ 1 ∷ [])) in
      let other = account crates laws signing drafting drafts never in
      let absent =
        o5 other apart
        ∙ o4 other apart
        ∙ o3 other apart
        ∙ o2 other apart
        ∙ o1 other apart
        ∙ o0 other apart
        ∙ nothing_stored other in
      let log = λ (seeds : List ℕ). drafts.log_from_bytes-artifact k (payload_of (devices seeds)) in
      rw
        (
          drafts.addr_from_bytes-key k,
          drafts.addr_from_bytes-key never,
          drafts.encode_draft-payload_of (devices []) (draft []),
          drafts.encode_draft-payload_of (devices (1 ∷ [])) (draft (1 ∷ [])),
          drafts.encode_draft-payload_of (devices (1 ∷ 2 ∷ [])) (draft (1 ∷ 2 ∷ [])),
          drafts.encode_draft-payload_of (devices (3 ∷ 2 ∷ 1 ∷ [])) (draft (3 ∷ 2 ∷ 1 ∷ [])),
          log [],
          done0,
          log (1 ∷ []),
          done1,
          log (1 ∷ []),
          done2,
          log (1 ∷ 2 ∷ []),
          done3,
          log (1 ∷ []),
          done4,
          log (3 ∷ 2 ∷ 1 ∷ []),
          done5,
          get_account_log-on_file 6 k s5,
          left5,
          log (1 ∷ 2 ∷ []),
          drafts.log_to_bytes-log_of k (payload_of (devices (1 ∷ 2 ∷ []))),
          eq_bytes_refl (as_log crates laws signing drafting drafts k (devices (1 ∷ 2 ∷ []))),
          get_account_log-on_file 7 never s5,
          absent,
        )
        refl

  -- The crate refuses the log of another key as one whose signature is invalid, and the payload of a
  -- bundle as malformed.
  authentic_passes :
      (is_malformed : crates.AccountLogError → Bool) (e f : crates.AccountLogError)
      → IsDraft (devices (1 ∷ []))
      → crates.record_new
          (addr_of (test_key crates signing 5))
          (log_of (test_key crates signing 6) (payload_of (devices (1 ∷ []))))
        ≡ err e
      → crates.is_signature_invalid e ≡ true
      → crates.record_new
          (addr_of (test_key crates signing 5))
          (log_of (test_key crates signing 5) (test_payload 1))
        ≡ err f
      → crates.is_signature_invalid f ≡ false
      → is_malformed f ≡ true
      → account_log_must_be_authentic_and_well_formed crates signing drafting is_malformed env empty
        ≡ (ok tt, empty)
  unfolding account_log_must_be_authentic_and_well_formed apply_account_log
  authentic_passes is_malformed e f draft forged invalid bad genuine malformed =
      rw
        (
          drafts.encode_draft-payload_of (devices (1 ∷ [])) draft,
          drafts.log_from_bytes-artifact (test_key crates signing 6)
              (payload_of (devices (1 ∷ []))),
          drafts.addr_from_bytes-key (test_key crates signing 5),
          forged,
          invalid,
          drafts.log_from_bytes-artifact (test_key crates signing 5) (test_payload 1),
          bad,
          genuine,
          malformed,
        )
        refl

-- ===== src/Bundle/Devices.antt =====
-- `apply_account_log` as an account sees it: the devices that it endorses, in their order.
pub mod Verdicts
use mathlib.Core.Option
use chat_store.Common.{
  String, false, ◌≡◌, refl, ap, subst, ◌∙◌, ◌==◌, eq_refl, inl, inr, Option, none, some, List, [],
  ◌∷◌, map, All, Bool-cases, if◌then◌else◌,
}
use chat_store.Common.Exec.{Result, ok}
use chat_store.Rust.Bytes.{Bytes}
use chat_store.Crates.{Crates, Outcome, updated}
use chat_store.Crates.Laws.{AccountLogLaws}
use chat_store.Crates.Signing.{Signing}
use chat_store.Crates.Drafting.{Drafting, DraftingLaws, artifact, compare_devices}
use chat_store.Store.{Store, Env, begin, fetch, write, commit}
use chat_store.Store.AccountLogs.{stored_log, is_updated, weigh, put_account_log}
use chat_store.Store.AccountLogs.Reading.{stored_log-put_log}
use chat_store.Store.Cases.{put_log}
use chat_store.Store.Weighing.{is_updated-eq, weigh-signed_log}
use chat_store.Bundle.{Error, verdict, apply_account_log}
use chat_store.Bundle.Devices.Verdicts.{
  judged, endorsed, replaced, answers, finally, endorsed-replaced, verdict-answer,
}
use chat_store.Handlers.Conflicts.{Healthy}

module _ (crates : Crates) (laws : AccountLogLaws crates) (signing : Signing crates)
    (drafting : Drafting crates signing) (drafts : DraftingLaws crates signing drafting)
    (key : signing.SigningKey) where
  open drafts use {IsDraft, payload_of, addr_of, log_of, record_of}

  abbrev pub account : String
  account = crates.addr_to_string (addr_of key)

  -- The artifact of a log of these devices.
  abbrev pub as_log : List Bytes → Bytes
  as_log devices = artifact crates signing key (payload_of devices)

  -- The store has the log of these devices on file, or none.
  abbrev pub HasOnFile : Option (List Bytes) → Store → Type 0
  HasOnFile devices s = stored_log account s ≡ Option.map as_log devices

  -- What is on file was a draft.
  abbrev pub WasDraft : Option (List Bytes) → Type 0
  WasDraft none = Unit
  WasDraft (some devices) = IsDraft devices

  record_addr-record_of :
      (devices : List Bytes)
      → IsDraft devices
      → crates.record_addr (record_of key devices) ≡ addr_of key
  record_addr-record_of devices draft =
      laws.new_addr (addr_of key) (log_of key (payload_of devices)) (record_of key devices)
        (drafts.record_new-log_of key devices draft)

  record_signed_log-record_of :
      (devices : List Bytes)
      → IsDraft devices
      → crates.record_signed_log (record_of key devices) ≡ log_of key (payload_of devices)
  record_signed_log-record_of devices draft =
      laws.new_signed_log (addr_of key) (log_of key (payload_of devices)) (record_of key devices)
        (drafts.record_new-log_of key devices draft)

  -- What the weighing comes to.
  weigh-judged :
      (old : Option (List Bytes)) (new : List Bytes)
      → WasDraft old
      → IsDraft new
      → (r : crates.AccountRecord) × (weigh crates (record_of key new) (Option.map as_log old)
          ≡ ok (judged old new, r))
  unfolding weigh Option.map
  weigh-judged none new was draft = (record_of key new, refl)
  weigh-judged (some old) new was draft =
      let outcome = drafts.record_update-outcome key old new was draft in
      let u = crates.record_update (record_of key old) (log_of key (payload_of new)) in
      (
        u.1,
        rw
            (
              drafts.log_from_bytes-artifact key (payload_of old),
              record_addr-record_of new draft,
              drafts.record_new-log_of key old was,
              record_signed_log-record_of new draft,
            )
            (ap (λ o. ok (o, u.1)) outcome),
      )

  -- The record that an update stores has the new log.
  weighed_log :
      (old : Option (List Bytes)) (new : List Bytes) (r : crates.AccountRecord)
      → IsDraft new
      → judged old new ≡ updated
      → weigh crates (record_of key new) (Option.map as_log old) ≡ ok (judged old new, r)
      → crates.record_signed_log r ≡ log_of key (payload_of new)
  weighed_log old new r draft taken weighed =
      weigh-signed_log crates laws (record_of key new) r (Option.map as_log old)
        (weighed ∙ ap (λ o. ok (o, r)) taken)
      ∙ record_signed_log-record_of new draft

  module _ (env : Env) (fine : Healthy env) (s : Store) where
    put_on_file :
        (new : List Bytes) (r : crates.AccountRecord)
        → IsDraft new
        → crates.record_signed_log r ≡ log_of key (payload_of new)
        → stored_log account (put_log crates env (record_of key new) r s) ≡ some (as_log new)
    put_on_file new r draft same =
        stored_log-put_log crates env (record_of key new) r account s
        ∙ rw
            (
              record_addr-record_of new draft,
              eq_refl account,
              same,
              drafts.log_to_bytes-log_of key (payload_of new),
            )
            refl

    -- The logs of the other accounts stay.
    abbrev pub Elsewhere : Store → Type 0
    Elsewhere t = (id : String) → (account == id) ≡ false → stored_log id t ≡ stored_log id s

    put-Elsewhere :
        (new : List Bytes) (r : crates.AccountRecord)
        → IsDraft new
        → Elsewhere (put_log crates env (record_of key new) r s)
    put-Elsewhere new r draft id other =
        stored_log-put_log crates env (record_of key new) r id s
        ∙ rw (record_addr-record_of new draft, other) refl

    abbrev pub Applied : Option (List Bytes) → List Bytes → Type 0
    Applied old new =
        (t : Store) × (apply_account_log crates env (addr_of key) (log_of key (payload_of new)) s
          ≡ (verdict crates (judged old new), t))
        × HasOnFile (endorsed old new) t
        × Elsewhere t

    pub Applied-judged :
        (old : Option (List Bytes)) (new : List Bytes)
        → HasOnFile old s
        → WasDraft old
        → IsDraft new
        → Applied old new
    unfolding apply_account_log put_account_log
    Applied-judged old new on_file was draft =
        let (r, weighed) = weigh-judged old new was draft in
        let made = drafts.record_new-log_of key new draft in
        let at = record_addr-record_of new draft in
        elim (Bool-cases (is_updated (judged old new))) [
          | inr kept ↦ (
            s,
            rw (made, at, fine begin, fine fetch, on_file, weighed, kept) refl,
            rw kept on_file,
            λ id other. refl,
          )
          | inl newer ↦
              let taken = is_updated-eq (judged old new) newer in
              (
                put_log crates env (record_of key new) r s,
                rw
                    (
                      made,
                      at,
                      fine begin,
                      fine fetch,
                      on_file,
                      weighed,
                      newer,
                      fine write,
                      fine commit,
                      taken,
                    )
                    refl,
                rw newer (put_on_file new r draft (weighed_log old new r draft taken weighed)),
                put-Elsewhere new r draft,
              )
        ]

  endorsed-WasDraft :
      (old : Option (List Bytes)) (new : List Bytes)
      → WasDraft old
      → IsDraft new
      → WasDraft (endorsed old new)
  endorsed-WasDraft old new was draft = elim (Bool-cases (is_updated (judged old new))) [
    | inl newer ↦ rw newer draft
    | inr kept ↦ rw kept was
  ]

  -- Logs of the account that are published one after another, each in its own surroundings.
  unfoldable pub apply_logs :
      List (Env × List Bytes) → Store → List (Result (Error crates) (Unit {0})) × Store
  apply_logs [] s = ([], s)
  apply_logs ((env, devices) ∷ publishes) s =
      let (r, t) = apply_account_log crates env (addr_of key) (log_of key (payload_of devices)) s in
      let (rs, final) = apply_logs publishes t in (r ∷ rs, final)

  -- The store has on file a log of the devices that an account endorses, or none, and the holder
  -- of its key publishes logs one after another, to a database that answers. A log is accepted
  -- where none is on file, or where it begins with all devices that are on file at the time; else
  -- it is refused, as stale where what is on file begins with all of its devices, and as forked
  -- where it does not. An accepted log replaces the one on file, a refused one changes nothing,
  -- so that at the end the store has the last accepted log, or the first one. The account_log
  -- crate is assumed to keep its documented laws.
  pub apply_logs-verdicts :
      (publishes : List (Env × List Bytes)) (old : Option (List Bytes)) (s : Store)
      → All (λ p. Healthy p.0 × IsDraft p.1) publishes
      → HasOnFile old s
      → WasDraft old
      → ((apply_logs publishes s).0 ≡ answers crates old (map (λ p. p.1) publishes))
        × HasOnFile (finally old (map (λ p. p.1) publishes)) (apply_logs publishes s).1
  unfolding apply_logs answers finally
  apply_logs-verdicts [] old s h on_file was = (refl, on_file)
  apply_logs-verdicts ((env, devices) ∷ publishes) old s ((fine, draft), h) on_file was =
      let (t, done, left, elsewhere) = Applied-judged env fine s old devices on_file was draft in
      let (rest, final) =
        apply_logs-verdicts publishes (replaced old devices) t h
          (subst (λ o. HasOnFile o t) (endorsed-replaced old devices) left)
          (subst WasDraft (endorsed-replaced old devices)
            (endorsed-WasDraft old devices was draft)) in
      (rw (done, rest, verdict-answer crates old devices) refl, rw done final)

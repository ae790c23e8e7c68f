-- ===== src/Handlers/LogConflicts.antt =====
-- When a submission of an account log is answered 409.
use chat_store.Common.{
  String, ◌≡◌, ◌≢◌, refl, subst, ◌↔◌, ◌⊎◌, inl, inr, false, none, some, arith, Option-cases,
}
use chat_store.Common.Exec.{ok, err, Result-cases}
use chat_store.Rust.Bytes.{Bytes}
use chat_store.Crates.{
  Crates, Outcome, updated, unchanged, identical, behind, diverged, other_freshness, other_outcome,
}
use chat_store.Store.{Store, Env, begin, fetch}
use chat_store.Store.AccountLogs.{stored_log, is_updated, weigh, put_account_log}
use chat_store.Store.Cases.{stored, put_account_log-cases}
use chat_store.Bundle.{Error, stale, forked, refusal, verdict, apply_account_log}
use chat_store.Handlers.Errors.{conflict, bad_request, to_api_error}
use chat_store.Handlers.Endpoints.{post_account_log, submit_account_log, handle, serve}
use chat_store.Handlers.Conflicts.{Healthy}

abbrev pub IsRefusal : Outcome → Type 0
IsRefusal o = (o ≡ unchanged behind) ⊎ (o ≡ unchanged diverged)

module _ (crates : Crates) where
  verdict-conflict :
      (o : Outcome) (e : Error crates)
      → verdict crates o ≡ err e
      → (to_api_error crates e).status ≡ conflict
      → IsRefusal o
  unfolding to_api_error
  verdict-conflict updated e h c = cc
  verdict-conflict (unchanged identical) e h c = cc
  verdict-conflict (unchanged behind) e h c = inl refl
  verdict-conflict (unchanged diverged) e h c = inr refl
  verdict-conflict (unchanged (other_freshness text)) e h c = ground arith
  verdict-conflict (other_outcome text) e h c = ground arith

  refusal-status :
      (f : crates.AccountLogError) → (to_api_error crates (refusal crates f)).status ≡ bad_request
  unfolding to_api_error
  refusal-status f = ground arith

  IsRefusal-conflict :
      (o : Outcome)
      → IsRefusal o
      → (e : Error crates) × (verdict crates o ≡ err e)
        × ((to_api_error crates e).status ≡ conflict)
  unfolding to_api_error
  IsRefusal-conflict o (inl h) = (stale, rw h refl, refl)
  IsRefusal-conflict o (inr h) = (forked, rw h refl, refl)

not_updated : (o : Outcome) → IsRefusal o → is_updated o ≡ false
not_updated o (inl h) = rw h refl
not_updated o (inr h) = rw h refl

first_log :
    (crates : Crates) (candidate : crates.AccountRecord) (update : Outcome × crates.AccountRecord)
    → weigh crates candidate none ≡ ok update
    → is_updated update.0 ≢ false
unfolding weigh
first_log crates candidate update h old = ground arith

module _ (crates : Crates) (env : Env) (s : Store) (text : String) (body : Bytes) where
  -- The path is an address and the body a log that verifies under it; a log is on file, and the
  -- account_log crate, updating that one by the submitted one, calls the submitted one behind it, or
  -- diverged from it.
  pub record IsRefusedLog : Type 0 where
    pub addr : crates.AccountAddr
    pub log : crates.SignedAccountLog
    pub candidate : crates.AccountRecord
    pub on_file : Bytes
    pub filed : crates.SignedAccountLog
    pub current : crates.AccountRecord
    pub addressed : crates.parse_addr text ≡ some addr
    pub parsed : crates.log_from_bytes body ≡ ok log
    pub verified : crates.record_new addr log ≡ ok candidate
    pub listed : stored_log (crates.addr_to_string (crates.record_addr candidate)) s ≡ some on_file
    pub read : crates.log_from_bytes on_file ≡ ok filed
    pub still_verified : crates.record_new (crates.record_addr candidate) filed ≡ ok current
    pub refused : IsRefusal (crates.record_update current (crates.record_signed_log candidate)).0

  -- Two logs that are read and verified are compared by an update of the stored one.
  weigh-compared :
      (candidate : crates.AccountRecord) (on_file : Bytes) (filed : crates.SignedAccountLog)
      (current : crates.AccountRecord)
      → crates.log_from_bytes on_file ≡ ok filed
      → crates.record_new (crates.record_addr candidate) filed ≡ ok current
      → weigh crates candidate (some on_file)
        ≡ ok (crates.record_update current (crates.record_signed_log candidate))
  unfolding weigh
  weigh-compared candidate on_file filed current read verified = rw (read, verified) refl

  abbrev Compared : crates.AccountRecord → Bytes → Outcome × crates.AccountRecord → Type 0
  Compared candidate on_file update =
      (filed : crates.SignedAccountLog) × (current : crates.AccountRecord) × (crates.log_from_bytes
          on_file
        ≡ ok filed)
      × (crates.record_new (crates.record_addr candidate) filed ≡ ok current)
      × (update ≡ crates.record_update current (crates.record_signed_log candidate))

  Compared-weigh :
      (candidate : crates.AccountRecord) (on_file : Bytes) (update : Outcome × crates.AccountRecord)
      → weigh crates candidate (some on_file) ≡ ok update
      → Compared candidate on_file update
  unfolding weigh
  Compared-weigh candidate on_file update h = elim (Result-cases (crates.log_from_bytes on_file)) [
    | inr (e, bad) ↦ cc (rw bad at h)
    | inl (filed, read) ↦
        elim (Result-cases (crates.record_new (crates.record_addr candidate) filed)) [
          | inr (e, bad) ↦ cc (rw (read, bad) at h)
          | inl (current, verified) ↦
              (filed, current, read, verified, cc (rw (read, verified) at h))
        ]
  ]

  refused-conflict :
      Healthy env
      → IsRefusedLog
      → (serve crates env (post_account_log text body) s).0.status ≡ conflict
  unfolding serve handle submit_account_log apply_account_log put_account_log
  refused-conflict fine r =
      let update = crates.record_update r.current (crates.record_signed_log r.candidate) in
      let (e, err_verdict, status) = IsRefusal-conflict crates update.0 r.refused in
      let old : is_updated update.0 ≡ false = not_updated update.0 r.refused in
      rw
        (
          r.addressed,
          r.parsed,
          r.verified,
          fine begin,
          fine fetch,
          r.listed,
          weigh-compared r.candidate r.on_file r.filed r.current r.read r.still_verified,
          old,
          err_verdict,
        )
        status

  -- Only a log that is on file makes the outcome anything but an update.
  weighed_against :
      (candidate : crates.AccountRecord) (update : Outcome × crates.AccountRecord)
      → weigh crates candidate (stored crates env candidate s) ≡ ok update
      → is_updated update.0 ≡ false
      → (on_file : Bytes) × (stored crates env candidate s ≡ some on_file)
        × (weigh crates candidate (some on_file) ≡ ok update)
  weighed_against candidate update weighed old =
      elim (Option-cases (stored crates env candidate s)) [
        | inl missing ↦ absurd (first_log crates candidate update (rw missing at weighed) old)
        | inr (on_file, listed) ↦ (on_file, listed, rw listed at weighed)
      ]

  conflict-refused :
      (serve crates env (post_account_log text body) s).0.status ≡ conflict → IsRefusedLog
  unfolding serve handle submit_account_log apply_account_log to_api_error
  conflict-refused h = elim (Option-cases (crates.parse_addr text)) [
    | inl bad ↦ cc (rw bad at h)
    | inr (addr, addressed) ↦ elim (Result-cases (crates.log_from_bytes body)) [
      | inr (e, bad) ↦ cc (rw (addressed, bad) at h)
      | inl (log, parsed) ↦ elim (Result-cases (crates.record_new addr log)) [
        | inr (e, bad) ↦ cc (refusal-status crates e, rw (addressed, parsed, bad) at h)
        | inl (candidate, verified) ↦ elim (put_account_log-cases crates env candidate s) [
          | inl (e, failed) ↦ cc (rw (addressed, parsed, verified, failed) at h)
          | inr (update, weighed, inr (newer, put)) ↦
              cc (rw (addressed, parsed, verified, put) at h)
          | inr (update, weighed, inl (old, kept)) ↦ elim (Result-cases (verdict crates update.0)) [
            | inl (_, fine) ↦ cc (rw (addressed, parsed, verified, kept, fine) at h)
            | inr (e, refusal_) ↦
                let status : (to_api_error crates e).status ≡ conflict =
                  rw (addressed, parsed, verified, kept, refusal_) at h in
                let (on_file, listed, weighed_) = weighed_against candidate update weighed old in
                let (filed, current, read, still_verified, same) =
                  Compared-weigh candidate on_file update weighed_ in
                record {
                  addr = addr;
                  log = log;
                  candidate = candidate;
                  on_file = on_file;
                  filed = filed;
                  current = current;
                  addressed = addressed;
                  parsed = parsed;
                  verified = verified;
                  listed = listed;
                  read = read;
                  still_verified = still_verified;
                  refused =
                      subst (λ u. IsRefusal u.0) same
                        (verdict-conflict crates update.0 e refusal_ status);
                }
          ]
        ]
      ]
    ]
  ]

  -- Where the database answers every statement, a POST of an account log is answered 409 exactly
  -- when its path and body parse, the log verifies under the address, a log is on file for it that
  -- still parses and verifies, and the account_log crate, updating that one by the submitted log,
  -- calls the submitted log behind it or diverged from it.
  pub log_conflict_iff :
      Healthy env
      → ((serve crates env (post_account_log text body) s).0.status ≡ conflict) ↔ IsRefusedLog
  log_conflict_iff fine = (conflict-refused, refused-conflict fine)

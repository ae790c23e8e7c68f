-- ===== src/Service/Runs/Logs.antt =====
-- Account logs are append-only: a log on file is only ever replaced by one that extends it, and it
-- is never dropped.
use mathlib.Core.List.{append-nil, append_assoc}
use chat_store.Common.{
  String, ◌≡◌, refl, sym, ap, subst, ◌∙◌, ◌==◌, eq_iff, inl, inr, Option, none, some,
  some-injective, List, [], ◌∷◌, ◌++◌, All-mem, Bool-cases, Option-cases, find, find-mem,
}
use chat_store.Common.Exec.{ok}
use chat_store.Rust.Bytes.{Bytes}
use chat_store.Crates.{Crates, updated}
use chat_store.Store.AccountLogs.Reading.{stored_log-put_log}
use chat_store.Crates.Laws.{AccountLogLaws, log_payload}
use chat_store.Store.{Store, Env}
use chat_store.Store.AccountLogs.{of_account, stored_log, weigh}
use chat_store.Store.Weighing.{weigh-some}
use chat_store.Service.{Cli, Input, step, run}
use chat_store.Service.Transitions.{
  Change, writes, stays, adds_keypackage, puts_account, puts_log, drops_keypackages, drops_accounts,
}
use chat_store.Service.Transitions.Steps.{step-Change}
use chat_store.Service.Runs.Authenticity.{IsAuthentic, SignedLog, Change-IsAuthentic}

-- `new` keeps every byte of `old`'s payload.
abbrev pub Extends : Bytes → Bytes → Type 0
Extends old new = (tail : Bytes) × (log_payload new ≡ log_payload old ++ tail)

abbrev pub Keeps : Option Bytes → Option Bytes → Type 0
Keeps none new = Unit
Keeps (some old) none = ⊥
Keeps (some old) (some new) = Extends old new

Keeps-refl : (a : Option Bytes) → Keeps a a
Keeps-refl none = tt
Keeps-refl (some a) = ([], sym (append-nil _))

Keeps-trans : (a b c : Option Bytes) → Keeps a b → Keeps b c → Keeps a c
Keeps-trans none b c h k = tt
Keeps-trans (some a) (some b) (some c) (t, h) (u, k) =
    (t ++ u, k ∙ ap (λ x. x ++ u) h ∙ append_assoc (log_payload a) t u)
Keeps-trans (some a) none c h k = absurd h
Keeps-trans (some a) (some b) none h k = absurd k

module _ (crates : Crates) (laws : AccountLogLaws crates) where
  -- What is on file for an account is the artifact of a log.
  stored-artifact :
      (id : String) (s : Store) {old : Bytes}
      → IsAuthentic crates s
      → stored_log id s ≡ some old
      → (log : crates.SignedAccountLog) × (old ≡ crates.log_to_bytes log)
  unfolding stored_log
  stored-artifact id s h e = elim (Option-cases (find (of_account id) s.account_logs)) [
    | inl missing ↦ cc (rw missing at e)
    | inr (row, found) ↦
        let signed =
          All-mem (SignedLog crates) (find-mem (of_account id) s.account_logs found).0
            h.account_logs in
        (signed.log, some-injective _ _ (sym (rw found at e)) ∙ signed.same_artifact)
  ]

  -- An accepted candidate extends the log that it was weighed against.
  weigh-Keeps :
      (candidate rec : crates.AccountRecord) (id : String) (s : Store)
      → IsAuthentic crates s
      → weigh crates candidate (stored_log id s) ≡ ok (updated, rec)
      → Keeps (stored_log id s) (some (crates.log_to_bytes (crates.record_signed_log rec)))
  weigh-Keeps candidate rec id s h w = elim (Option-cases (stored_log id s)) [
    | inl missing ↦ rw missing tt
    | inr (old, found) ↦
        let (log, artifact) = stored-artifact id s h found in
        let (log', current, read, made, took) =
          weigh-some crates laws candidate rec old (rw found at w) in
        let (tail, _, extends) = laws.updated_extends current rec _ took in
        let new_log = laws.updated_takes current rec _ took in
        let old_log : crates.log_to_bytes (crates.record_signed_log current) ≡ old = cc (
          laws.new_signed_log (crates.record_addr candidate) log' current made,
          laws.from_bytes-to_bytes log,
        ) in
        rw (found, new_log, extends, old_log) (tail, refl)
  ]

  Change-Keeps :
      (id : String) (s t : Store)
      → IsAuthentic crates s
      → Change crates s t
      → Keeps (stored_log id s) (stored_log id t)
  Change-Keeps id s t h (writes (stays e)) = rw e (Keeps-refl (stored_log id s))
  Change-Keeps id s t h (writes (adds_keypackage env b sized good free e)) =
      unfold stored_log in rw e (Keeps-refl (stored_log id s))
  Change-Keeps id s t h (writes (puts_account env b lamport sized good long new e)) =
      unfold stored_log in rw e (Keeps-refl (stored_log id s))
  Change-Keeps id s t h (writes (puts_log env addr signed candidate rec good w e)) =
      rw (e, stored_log-put_log crates env candidate rec id s)
        (elim (Bool-cases (crates.addr_to_string (crates.record_addr candidate) == id)) [
          | inl same ↦ rw same (
              weigh-Keeps candidate rec id s h (
                subst (λ i. weigh crates candidate (stored_log i s) ≡ ok (updated, rec))
                  ((eq_iff _ _).0 same) w))
          | inr other ↦ rw other (Keeps-refl (stored_log id s))
        ])
  Change-Keeps id s t h (drops_keypackages p e) =
      unfold stored_log in rw e (Keeps-refl (stored_log id s))
  Change-Keeps id s t h (drops_accounts p e) =
      unfold stored_log in rw e (Keeps-refl (stored_log id s))

  -- In every run from a store of verified rows, prunings included: an account with a log on file
  -- has one at the end, and its payload begins with every byte of the earlier payload. The
  -- account_log crate is assumed to keep its documented laws.
  pub run-Keeps :
      (cli : Cli) (id : String) (inputs : List (Env × Input)) (s : Store)
      → IsAuthentic crates s
      → Keeps (stored_log id s) (stored_log id (run crates cli inputs s))
  unfolding run
  run-Keeps cli id [] s h = Keeps-refl (stored_log id s)
  run-Keeps cli id ((env, input) ∷ inputs) s h =
      let t = step crates cli env input s in
      let change = step-Change crates env s cli input in
      Keeps-trans (stored_log id s) (stored_log id t) _ (Change-Keeps id s t h change)
        (run-Keeps cli id inputs t (Change-IsAuthentic crates laws s t change h))

-- ===== src/Service/Runs/Lamports.antt =====
-- Anti-replay of account bundles: while account bundles are not pruned, a row on file is only ever
-- replaced by one of a higher lamport.
use chat_store.Common.{
  ℕ, ◌<◌, String, ◌≡◌, ◌≢◌, refl, sym, subst, ◌==◌, eq_iff, ◌⊎◌, inl, inr, false, Option, none,
  some, List, [], ◌∷◌, arith, All, Bool-cases, Option-cases, find,
}
use chat_store.Crates.{Crates}
use chat_store.Store.{Store, Env, AccountBundleRow}
use chat_store.Store.Lamport.{payload_lamport}
use chat_store.Store.Accounts.{of_account, stored_lamport, is_stale, stamped}
use chat_store.Store.KeyPackages.{prune_key_packages}
use chat_store.Store.Accounts.Reading.{find-put_account}
use chat_store.Bundle.{key_hex}
use chat_store.Bundle.Cases.{kept_account}
use chat_store.Service.{
  Cli, Input, request, delivery, prunes_key_packages, prunes_accounts, step, run,
}
use chat_store.Service.Transitions.{Write, stays, adds_keypackage, puts_account, puts_log}
use chat_store.Service.Transitions.Steps.{serve-Write, ingest_received-Write}

abbrev pub stored_bundle : String → Store → Option AccountBundleRow
stored_bundle id s = find (of_account id) s.account_bundles

-- A payload without a lamport, which no run stores, is below every payload that has one.
abbrev pub Higher : Option ℕ → Option ℕ → Type 0
Higher old none = ⊥
Higher none (some b) = Unit
Higher (some a) (some b) = a < b

Higher-trans : (a b c : Option ℕ) → Higher a b → Higher b c → Higher a c
Higher-trans a none c h k = absurd h
Higher-trans a (some b) none h k = absurd k
Higher-trans none (some b) (some c) h k = tt
Higher-trans (some a) (some b) (some c) h k = omega arith

-- `new` is on file for an account some time after `old` was: it is the same row, its time stamp
-- included, or its payload has a higher lamport.
abbrev pub Supersedes : Option AccountBundleRow → Option AccountBundleRow → Type 0
Supersedes new none = Unit
Supersedes none (some r) = ⊥
Supersedes (some q) (some r) =
    (q ≡ r) ⊎ Higher (payload_lamport r.payload) (payload_lamport q.payload)

Supersedes-refl : (a : Option AccountBundleRow) → Supersedes a a
Supersedes-refl none = tt
Supersedes-refl (some r) = inl refl

Supersedes-trans :
    (a b c : Option AccountBundleRow) → Supersedes b a → Supersedes c b → Supersedes c a
Supersedes-trans none b c h k = tt
Supersedes-trans (some a) none c h k = absurd h
Supersedes-trans (some a) (some b) none h k = absurd k
Supersedes-trans (some a) (some b) (some c) (inl e) k =
    subst (λ r. Supersedes (some c) (some r)) e k
Supersedes-trans (some a) (some b) (some c) (inr h) (inl e) =
    inr (subst (λ r. Higher (payload_lamport a.payload) (payload_lamport r.payload)) (sym e) h)
Supersedes-trans (some a) (some b) (some c) (inr h) (inr k) =
    inr (Higher-trans (payload_lamport a.payload) (payload_lamport b.payload) _ h k)

Higher-of-fresh :
    (lamport : ℕ) (old : Option ℕ) → is_stale lamport old ≡ false → Higher old (some lamport)
Higher-of-fresh lamport none h = tt
Higher-of-fresh lamport (some old) h = ground arith

-- A row that is not stale supersedes the one on file.
Supersedes-of-fresh :
    (id : String) (s : Store) (q : AccountBundleRow) (lamport : ℕ)
    → payload_lamport q.payload ≡ some lamport
    → is_stale lamport (stored_lamport id s) ≡ false
    → Supersedes (some q) (stored_bundle id s)
unfolding stored_lamport
Supersedes-of-fresh id s q lamport long new = elim (Option-cases (stored_bundle id s)) [
  | inl missing ↦ rw missing tt
  | inr (r, found) ↦
      let fresh : is_stale lamport (payload_lamport r.payload) ≡ false = rw found at new in
      rw (found, long) (inr (Higher-of-fresh lamport (payload_lamport r.payload) fresh))
]

module _ (crates : Crates) (id : String) where
  Write-Supersedes :
      (s t : Store) → Write crates s t → Supersedes (stored_bundle id t) (stored_bundle id s)
  Write-Supersedes s t (stays e) = rw e (Supersedes-refl _)
  Write-Supersedes s t (adds_keypackage env b sized good free e) =
      rw e (Supersedes-refl (stored_bundle id s))
  Write-Supersedes s t (puts_account env b lamport sized good long new e) =
      rw (e, find-put_account env (key_hex crates b) id (kept_account b) s)
        (elim (Bool-cases (key_hex crates b == id)) [
          | inl same ↦ rw same (
              Supersedes-of-fresh id s (stamped env (key_hex crates b) (kept_account b)) lamport
                long
                (subst (λ i. is_stale lamport (stored_lamport i s) ≡ false) ((eq_iff _ _).0 same)
                  new))
          | inr other ↦ rw other (Supersedes-refl (stored_bundle id s))
        ])
  Write-Supersedes s t (puts_log env addr signed candidate rec good w e) =
      rw e (Supersedes-refl (stored_bundle id s))

  keypackages-Supersedes :
      (cli : Cli) (env : Env) (s : Store)
      → stored_bundle id (step crates cli env prunes_key_packages s) ≡ stored_bundle id s
  unfolding step prune_key_packages
  keypackages-Supersedes cli env s = ground arith

  step-Supersedes :
      (cli : Cli) (env : Env) (input : Input) (s : Store)
      → input ≢ prunes_accounts
      → Supersedes (stored_bundle id (step crates cli env input s)) (stored_bundle id s)
  step-Supersedes cli env (request req) s h =
      unfold step in Write-Supersedes s _ (serve-Write crates env s req)
  step-Supersedes cli env (delivery received) s h =
      unfold step in Write-Supersedes s _ (ingest_received-Write crates env s received)
  step-Supersedes cli env prunes_key_packages s h =
      rw keypackages-Supersedes (Supersedes-refl (stored_bundle id s))
  step-Supersedes cli env prunes_accounts s h = absurd (h refl)

  -- In every run in which account bundles are not pruned, whatever the submissions, the clock and
  -- the failures: once an account has a row on file, it has one at the end, and that is the very
  -- same row, its time stamp included, or its payload has a strictly higher lamport, where a payload
  -- without a lamport counts as below every other.
  pub run-Supersedes :
      (cli : Cli) (inputs : List (Env × Input)) (s : Store)
      → All (λ i. i.1 ≢ prunes_accounts) inputs
      → Supersedes (stored_bundle id (run crates cli inputs s)) (stored_bundle id s)
  unfolding run
  run-Supersedes cli [] s h = Supersedes-refl (stored_bundle id s)
  run-Supersedes cli ((env, input) ∷ inputs) s (h, hs) =
      Supersedes-trans (stored_bundle id s) (stored_bundle id (step crates cli env input s)) _
        (step-Supersedes cli env input s h)
        (run-Supersedes cli inputs (step crates cli env input s) hs)

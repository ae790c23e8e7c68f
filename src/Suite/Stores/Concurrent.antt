-- ===== src/Suite/Stores/Concurrent.antt =====
-- `concurrent_account_publishes_succeed` of src/store.rs: tasks that publish for different accounts
-- at the same time.
use chat_store.Common.{
  ℕ, String, ◌≡◌, refl, sym, ap, ◌∙◌, ◌==◌, true, false, none, List, [], ◌∷◌, map, All, All-zip,
}
use chat_store.Common.Exec.{ok}
use chat_store.Crates.{Crates}
use chat_store.Store.{Store, Env, StoredAccountBundle}
use chat_store.Store.Accounts.{is_stale, stored_lamport}
use chat_store.Store.Accounts.Reading.{find-put_account}
use chat_store.Store.Cases.{put_account}
use chat_store.Store.Locking.Programs.{Reply, upserted, Writer, upserts, perform}
use chat_store.Store.Locking.Machine.{nobody, Event, interleave, start, serial}
use chat_store.Store.Locking.Serial.{calls, interleave-serial}
use chat_store.Handlers.Conflicts.{Healthy}
use chat_store.Suite.Stores.{succeeded}
use chat_store.Suite.Stores.Passing.{upsert_account-newer}

-- What one task publishes.
pub record Publication : Type 0 where
  pub surroundings : Env
  pub account : String
  pub lamport : ℕ
  pub bundle : StoredAccountBundle

-- No two are for the same account.
abbrev pub AreDifferent : List Publication → Type 0
AreDifferent [] = Unit
AreDifferent (p ∷ ps) = All (λ q. (p.account == q.account) ≡ false) ps × AreDifferent ps

-- The database answers, and nothing is on file for the account.
abbrev pub IsFirst : Store → Publication → Type 0
IsFirst s p = Healthy p.surroundings × (stored_lamport p.account s ≡ none)

module _ (crates : Crates) where
  abbrev pub call_of : Publication → Writer crates
  call_of p = upserts p.surroundings p.account p.lamport p.bundle

  abbrev pub accepted_call : Publication → Writer crates × Reply
  accepted_call p = (call_of p, upserted (ok true))

  stays-IsFirst :
      (p q : Publication) (s : Store)
      → IsFirst s q
      → (p.account == q.account) ≡ false
      → IsFirst (put_account p.surroundings p.account p.bundle s) q
  unfolding stored_lamport
  stays-IsFirst p q s first different = (
    first.0,
    rw (find-put_account p.surroundings p.account q.account p.bundle s, different) first.1,
  )

  serial-accepted :
      (ps : List Publication) (s : Store)
      → AreDifferent ps
      → All (IsFirst s) ps
      → (serial crates (map call_of ps) s).0 ≡ map accepted_call ps
  unfolding serial perform
  serial-accepted [] s different first = refl
  serial-accepted (p ∷ ps) s (others, different) (mine, first) =
      let newer : is_stale p.lamport (stored_lamport p.account s) ≡ false =
        ap (is_stale p.lamport) mine.1 in
      rw (upsert_account-newer p.surroundings mine.0 p.account s p.bundle p.lamport newer) (
        ap (λ rs. accepted_call p ∷ rs)
          (serial-accepted ps (put_account p.surroundings p.account p.bundle s) different
            (All-zip ps (λ q. stays-IsFirst p q s) first others)))

  -- Tasks publish bundles of different accounts of which nothing is on file, to a database that
  -- answers. However their statements interleave, with each other and with reads: once their calls
  -- are over and the lock is free, each has been told that its bundle was stored.
  pub concurrent-accepted :
      (busy : String) (events : List (Event crates)) (ps : List Publication) (s : Store)
      → (interleave crates busy events (start crates s)).lock ≡ nobody
      → calls crates (interleave crates busy events (start crates s)) ≡ map call_of ps
      → AreDifferent ps
      → All (IsFirst s) ps
      → (interleave crates busy events (start crates s)).replies ≡ map accepted_call ps
  concurrent-accepted busy events ps s free over different first =
      sym (ap (λ o. o.0) (interleave-serial crates busy events s free))
      ∙ ap (λ ws. (serial crates ws s).0) over
      ∙ serial-accepted ps s different first

  succeeded-accepted :
      (ps : List Publication) → All (λ r. succeeded r.1 ≡ true) (map accepted_call ps)
  succeeded-accepted [] = tt
  succeeded-accepted (p ∷ ps) = (refl, succeeded-accepted ps)

  -- So the test passes for tasks that are over, whatever the order in which their calls ended.
  succeed_passes :
      (busy : String) (events : List (Event crates)) (ps : List Publication) (s : Store)
      → (interleave crates busy events (start crates s)).lock ≡ nobody
      → calls crates (interleave crates busy events (start crates s)) ≡ map call_of ps
      → AreDifferent ps
      → All (IsFirst s) ps
      → All (λ r. succeeded r.1 ≡ true) (interleave crates busy events (start crates s)).replies
  succeed_passes busy events ps s free over different first =
      rw (concurrent-accepted busy events ps s free over different first) (succeeded-accepted ps)

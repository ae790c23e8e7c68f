-- ===== src/Service/Pruning.antt =====
-- A round of the prune task.
use chat_store.Common.{
  ℕ, ◌*◌, ◌<◌, ◌^◌, ◌-◌, ◌≡◌, refl, inl, inr, none, some, arith, select, List, [], ◌∷◌,
  Option-cases, ap, ◌∙◌,
}
use chat_store.Common.Int.{pos}
use chat_store.Rust.{Duration, as_u64, as_i64, as_millis}
use chat_store.Store.{Store, Env, write, write_excess, now_ms, retention_cutoff}
use chat_store.Store.KeyPackages.{prune_key_packages}
use chat_store.Store.Accounts.{refreshed, prune_accounts}
use chat_store.Crates.{Crates}
use chat_store.Service.{
  Cli, retention, prune_round, prune_task, Input, prunes_key_packages, prunes_accounts, step, run,
}

prune_accounts-rows :
    (env : Env) (kept : Duration) (s : Store)
    → env.fault write ≡ none
    → (prune_accounts env kept s).1.account_bundles ≡ select (refreshed env kept) s.account_bundles
unfolding prune_accounts
prune_accounts-rows env kept s fine = rw fine refl

prune_key_packages-accounts :
    (env : Env) (max : ℕ) (kept : Duration) (s : Store)
    → (prune_key_packages env max kept s).1.account_bundles ≡ s.account_bundles
unfolding prune_key_packages
prune_key_packages-accounts env max kept s = elim (Option-cases (env.fault write)) [
  | inr (e, failed) ↦ rw failed refl
  | inl answered ↦ elim (Option-cases (env.fault write_excess)) [
    | inr (e, failed) ↦ rw (answered, failed) refl
    | inl answered' ↦ rw (answered, answered') refl
  ]
]

-- However the pruning of keypackages ends, a round prunes the account bundles, where the database
-- answers that statement.
prune_round-accounts :
    (cli : Cli) (env env' : Env) (s : Store)
    → env'.fault write ≡ none
    → (prune_round cli env env' s).account_bundles
      ≡ select (refreshed env' (retention cli)) s.account_bundles
unfolding prune_round
prune_round-accounts cli env env' s fine =
    prune_accounts-rows env' (retention cli) _ fine
    ∙ ap (select (refreshed env' (retention cli)))
        (prune_key_packages-accounts env cli.max_per_identity (retention cli) s)

retention-millis :
    (cli : Cli)
    → cli.retention_days * 86400000 < 2 ^ 64
    → as_u64 (as_millis (retention cli)) ≡ cli.retention_days * 86400000
unfolding retention as_u64 as_millis
retention-millis cli fits = omega arith

-- A retention whose milliseconds a `u64` holds is kept as it is given, and the cutoff is that many
-- days before the clock, or the epoch, where the clock's milliseconds fit an `i64`.
retention_cutoff-exact :
    (cli : Cli) (env : Env) (d : Duration)
    → cli.retention_days * 86400000 < 2 ^ 64
    → env.since_epoch ≡ some d
    → as_millis d < 2 ^ 63
    → retention_cutoff env (retention cli) ≡ pos (as_millis d - cli.retention_days * 86400000)
unfolding retention_cutoff now_ms as_u64 as_i64
retention_cutoff-exact cli env d fits clock small =
    rw (clock, retention-millis cli fits) (ground arith)

-- The ticks of the prune task, as inputs of the service.
abbrev rounds : List (Env × Env) → List (Env × Input)
rounds [] = []
rounds ((env, env') ∷ ticks) = (env, prunes_key_packages) ∷ (env', prunes_accounts) ∷ rounds ticks

-- The prune task does to the store what a run of its calls does.
prune_task-run :
    (crates : Crates) (cli : Cli) (ticks : List (Env × Env)) (s : Store)
    → prune_task cli ticks s ≡ run crates cli (rounds ticks) s
unfolding prune_task prune_round run step
prune_task-run crates cli [] s = refl
prune_task-run crates cli ((env, env') ∷ ticks) s =
    prune_task-run crates cli ticks (prune_round cli env env' s)

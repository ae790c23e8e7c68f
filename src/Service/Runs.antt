-- ===== src/Service/Runs.antt =====
-- Induction over a run of the service: what every change of the abstract machine keeps, a run keeps.
pub mod Keys
pub mod Authenticity
pub mod Lamports
pub mod Logs
pub mod Queue
use chat_store.Common.{List, [], ◌∷◌}
use chat_store.Crates.{Crates}
use chat_store.Store.{Store, Env}
use chat_store.Service.{Cli, Input, step, run}
use chat_store.Service.Transitions.{Change}
use chat_store.Service.Transitions.Steps.{step-Change}

module _ (crates : Crates) (cli : Cli) where
  pub run_induction :
      (P : Store → Type 0)
      → ((s t : Store) → Change crates s t → P s → P t)
      → (inputs : List (Env × Input)) (s : Store) → P s
      → P (run crates cli inputs s)
  unfolding run
  run_induction P keep [] s h = h
  run_induction P keep ((env, input) ∷ inputs) s h =
      run_induction P keep inputs (step crates cli env input s)
        (keep s (step crates cli env input s) (step-Change crates env s cli input) h)

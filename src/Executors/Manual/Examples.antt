-- ===== src/Executors/Manual/Examples.antt =====
-- Task 1 passes tasks 2 and 3 to the executor while it runs.
use magic_core.Prelude.{ℕ, ◌≡◌, refl, true, some, List, [], ◌∷◌, ◌==◌, if◌then◌else◌}
use magic_core.Intrusive.{plain_list}
use magic_core.Executors.Manual.{
  State, init, execute, execute_all, has_tasks, run_next_task, run_at_most, run_next, run_all,
}
use magic_core.Executors.Manual.Fifo.{run_all_lem}

abbrev spawning : ℕ → List ℕ
spawning task = if task == 1 then 2 ∷ 3 ∷ [] else []

abbrev loaded : State (List ℕ)
loaded = execute_all (plain_list ℕ) spawning (1 ∷ 4 ∷ []) (init (plain_list ℕ) spawning)

runs_next : (run_next (plain_list ℕ) spawning loaded).0 ≡ true
unfolding run_next run_at_most run_next_task execute_all execute
runs_next = refl

run_all_lem_example :
    run_all (plain_list ℕ) spawning 5 loaded ≡ some (run_at_most (plain_list ℕ) spawning 4 loaded)
unfolding run_at_most run_next_task has_tasks execute_all execute
run_all_lem_example = run_all_lem (plain_list ℕ) spawning 4 loaded refl

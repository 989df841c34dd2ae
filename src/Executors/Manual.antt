-- ===== src/Executors/Manual.antt =====
-- src/magic/executors/manual.h and manual.cpp: a queue of tasks that its owner runs by hand.
pub mod Fifo
mod Examples
use magic_core.Prelude.{
  ℕ, zero, suc, ◌+◌, Bool, true, false, Option, none, some, List, [], ◌∷◌, ◌++◌, ◌==◌,
}
use magic_core.Intrusive.{ForwardList}

pub record State (C : Type 0) : Type 0 where
  pub tasks : C  -- tasks_
  pub log : List ℕ  -- tasks in the order in which they were passed to Execute
  pub ran : List ℕ  -- tasks in the order in which they were run

-- `spawn` tells which tasks a task passes to the same executor while it runs.
module _ (lists : ForwardList ℕ) (spawn : ℕ → List ℕ) where
  open lists use {Carrier, empty, push_back, pop_front}

  abbrev pub init : State Carrier
  init = record { tasks = empty; log = []; ran = [] }

  pub execute : ℕ → State Carrier → State Carrier
  execute task s = record s { tasks = push_back s.tasks task; log = s.log ++ task ∷ [] }

  pub execute_all : List ℕ → State Carrier → State Carrier
  execute_all [] s = s
  execute_all (task ∷ rest) s = execute_all rest (execute task s)

  -- HasTasks
  pub has_tasks : State Carrier → Bool
  has_tasks s = elim (pop_front s.tasks) [ none ↦ false | some _ ↦ true ]

  -- RunNextTask; `none`: PopFront of an empty list.
  pub run_next_task : State Carrier → Option (State Carrier)
  unfolding execute_all
  run_next_task s = elim (pop_front s.tasks) [
    | none ↦ none
    | some (task, rest) ↦
        some (execute_all (spawn task) record s { tasks = rest; ran = s.ran ++ task ∷ [] })
  ]

  -- RunAtMost: the number of tasks run, and the state behind them.
  pub run_at_most : ℕ → State Carrier → ℕ × State Carrier
  run_at_most zero s = (0, s)
  run_at_most (suc limit) s = elim (run_next_task s) [
    | none ↦ (0, s)
    | some t ↦ let rest = run_at_most limit t in (suc rest.0, rest.1)
  ]

  -- RunNext
  pub run_next : State Carrier → Bool × State Carrier
  unfolding run_at_most
  run_next s = let result = run_at_most 1 s in (result.0 == 1, result.1)

  -- RunAll; `none`: still running when the fuel is used up.
  pub run_all : ℕ → State Carrier → Option (ℕ × State Carrier)
  run_all zero s = none
  run_all (suc fuel) s = elim (run_next_task s) [
    | none ↦ some (0, s)
    | some t ↦ elim (run_all fuel t) [ none ↦ none | some (n, u) ↦ some (suc n, u) ]
  ]

-- ===== src/Executors/ThreadPool/Examples.antt =====
-- A pool of two workers: task 7 is run, 8 is discarded by Stop, and 9 comes too late.
use magic_core.Prelude.{
  ℕ, ◌+◌, ◌≤◌, ◌≡◌, ◌≢◌, refl, true, false, Option, none, some, List, [], ◌∷◌, ◌++◌, arith, length,
}
use magic_core.Prelude.Occurs.{occurs}
use magic_core.Intrusive.{plain_list}
use magic_core.Executors.ThreadPool.{
  State, Event, executes, puts, refuses, leaves, takes, runs, finishes, stops, disposes, init, run,
  step,
}
use magic_core.Executors.ThreadPool.Idle.{pool_idle, pool_wakeup, Joins, pool-Joins}

abbrev get : Option (State (List ℕ)) → State (List ℕ)
get none = init (plain_list ℕ) 2
get (some s) = s

abbrev start : List Event
start = takes ∷ takes ∷ executes 7 ∷ puts 0 ∷ takes ∷ executes 8 ∷ puts 0 ∷ []

-- One worker runs task 7, and the other one has been woken for task 8.
abbrev started : State (List ℕ)
started = get (run (plain_list ℕ) start (init (plain_list ℕ) 2))

started_state : (started.running ≡ 7 ∷ []) × (started.items ≡ 8 ∷ []) × (started.free ≡ 1)
unfolding run step
started_state = (refl, refl, refl)

abbrev stop : List Event
stop = start ++ stops ∷ disposes ∷ disposes ∷ disposes ∷ []

abbrev stopped : State (List ℕ)
stopped = get (run (plain_list ℕ) stop (init (plain_list ℕ) 2))

abbrev finish : List Event
finish = stop ++ executes 9 ∷ puts 0 ∷ refuses 0 ∷ leaves ∷ runs 0 ∷ finishes ∷ []

abbrev finished : State (List ℕ)
finished = get (run (plain_list ℕ) finish (init (plain_list ℕ) 2))

finished_state : (finished.ran ≡ 7 ∷ []) × (finished.discarded ≡ 9 ∷ 8 ∷ [])
unfolding run step
finished_state = (refl, refl)

pool_idle_example :
    (finished.items ≡ [])
    × (finished.running ≡ [])
    × ((x : ℕ) → occurs x finished.ran + occurs x finished.discarded ≡ occurs x finished.log)
unfolding run step
pool_idle_example = pool_idle (plain_list ℕ) 2 finish finished (omega arith) refl refl

pool_wakeup_example :
    (started.sleeping ≢ 0 → (length started.items ≤ started.free) × (started.closed ≡ false))
    × (length started.running + started.finishing + started.free + started.sleeping + started.exited
        ≡ 2)
    × (started.exited ≢ 0 → started.closed ≡ true)
unfolding run step
pool_wakeup_example = pool_wakeup (plain_list ℕ) 2 start started (omega arith) refl

pool-Joins_example : Joins (plain_list ℕ) 2 stopped
unfolding run step
pool-Joins_example = pool-Joins (plain_list ℕ) 2 stop stopped (omega arith) refl refl

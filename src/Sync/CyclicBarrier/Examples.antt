-- ===== src/Sync/CyclicBarrier/Examples.antt =====
-- Two threads: both pass the first round, and one has arrived at the second.
use magic_core.Prelude.{
  length, ◌+◌, ◌*◌, ◌≤◌, ◌<◌, ◌≡◌, refl, Option, none, some, List, [], ◌∷◌, arith,
}
use magic_core.Prelude.Occurs.{occurs}
use magic_core.Sync.CyclicBarrier.{State, Event, arrives, wakes, tests, init, run, step}
use magic_core.Sync.CyclicBarrier.Generations.{barrier_generations}

abbrev rounds : List Event
rounds = arrives ∷ wakes 0 ∷ tests 0 ∷ arrives ∷ tests 0 ∷ arrives ∷ []

abbrev get : Option State → State
get none = init
get (some s) = s

abbrev second : State
second = get (run 2 rounds init)

second_state : (second.generation ≡ 1) × (second.sleeping ≡ 1 ∷ [])
unfolding run step
second_state = (refl, refl)

barrier_generations_example :
    (second.arrivals ≡ second.generation * 2 + second.arrived_count)
    × (second.departures ≤ second.generation * 2)
    × (occurs second.generation second.sleeping + occurs second.generation second.woken
        ≡ second.arrived_count)
    × (second.arrived_count < 2)
    × (length second.sleeping ≡ occurs second.generation second.sleeping)
unfolding run step
barrier_generations_example = barrier_generations 2 rounds second (omega arith) (omega arith) refl

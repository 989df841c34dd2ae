-- ===== src/Sync/Mutex/Examples.antt =====
-- Three fibers and a mutex: while fiber 1 owns it, 2 and 3 enqueue; then 1 unlocks.
use magic_core.Prelude.{ℕ, ◌+◌, ◌≡◌, refl, Option, none, some, List, [], ◌∷◌}
use magic_core.Intrusive.{plain_list}
use magic_core.Sync.Mutex.{
  State, Event, locks, unlocks, advances, queued, stack_of, owning, init, run, step, append_to_list,
}
use magic_core.Prelude.Occurs.{occurs}
use magic_core.Sync.Mutex.Invariant.{holds, waits}
use magic_core.Sync.Mutex.Exclusion.{mutex_waiters}
use magic_core.Sync.Mutex.Handover.{HandsOver, mutex-HandsOver}

abbrev crowd : List Event
crowd =
    locks 1
    ∷ locks 2
    ∷ locks 3
    ∷ advances 2
    ∷ advances 3
    ∷ advances 2
    ∷ advances 3
    ∷ advances 3
    ∷ advances 3
    ∷ []

abbrev get : Option (State (List ℕ)) → State (List ℕ)
get none = init (plain_list ℕ)
get (some s) = s

abbrev crowded : State (List ℕ)
crowded = get (run (plain_list ℕ) crowd (init (plain_list ℕ)))

crowded_state : (stack_of crowded.word ≡ 3 ∷ 2 ∷ []) × (crowded.places 1 ≡ owning)
unfolding run step
crowded_state = (refl, refl)

-- The waiter that came last gets the mutex.
abbrev after : State (List ℕ)
after = get (run (plain_list ℕ) (unlocks 1 ∷ advances 1 ∷ advances 1 ∷ []) crowded)

after_state : (after.waiters ≡ 2 ∷ []) × (after.places 3 ≡ owning) × (after.places 2 ≡ queued)
unfolding run step append_to_list
after_state = (refl, refl, refl)

mutex_waiters_example :
    (occurs 2 (stack_of crowded.word) + occurs 2 crowded.waiters ≡ waits (crowded.places 2))
    × (crowded.places 2 ≡ queued → (g : ℕ) × (holds (crowded.places g) ≡ 1))
unfolding run step
mutex_waiters_example = mutex_waiters (plain_list ℕ) crowd crowded 2 refl

mutex-HandsOver_example : HandsOver (plain_list ℕ) 1 crowded
unfolding run step
mutex-HandsOver_example = mutex-HandsOver (plain_list ℕ) crowd crowded 1 refl refl

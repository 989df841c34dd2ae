-- ===== src/Stackless/Mutex/Examples.antt =====
-- Three coroutines and a mutex: while 1 owns it, 2 and 3 enqueue; then 1 unlocks.
use magic_core.Prelude.{ℕ, ◌≡◌, refl, Option, none, some, List, [], ◌∷◌}
use magic_core.Intrusive.{plain_list}
use magic_core.Sync.Mutex
use magic_core.Sync.Mutex.{Event, locks, unlocks, advances, owning, seen_head}
use magic_core.Sync.Mutex.Invariant.{holds}
use magic_core.Stackless.Mutex.{State, init, run, step, append_to_list}
use magic_core.Prelude.Simulation.{Match}
use magic_core.Stackless.Mutex.Representation.{Rep}
use magic_core.Stackless.Mutex.Refinement.{stackless-Match, stackless_exclusive}

abbrev crowd : List Event
crowd =
    locks 1
    ∷ locks 2
    ∷ locks 3
    ∷ advances 2
    ∷ advances 3
    ∷ advances 2
    ∷ advances 3
    ∷ advances 3
    ∷ advances 3
    ∷ []

abbrev get : Option (State (List ℕ)) → State (List ℕ)
get none = init (plain_list ℕ)
get (some s) = s

abbrev crowded : State (List ℕ)
crowded = get (run (plain_list ℕ) crowd (init (plain_list ℕ)))

crowded_links : (crowded.word ≡ seen_head 3) × (crowded.next 3 ≡ some 2) × (crowded.next 2 ≡ none)
unfolding run step
crowded_links = (refl, refl, refl)

-- The waiter that came last gets the mutex.
abbrev after : State (List ℕ)
after = get (run (plain_list ℕ) (unlocks 1 ∷ advances 1 ∷ advances 1 ∷ []) crowded)

after_state : (after.waiters ≡ 2 ∷ []) × (after.places 3 ≡ owning)
unfolding run step append_to_list
after_state = (refl, refl)

stackless-Match_example :
    Match
      (Rep (plain_list ℕ))
      (run (plain_list ℕ) crowd (init (plain_list ℕ)))
      (Mutex.run (plain_list ℕ) crowd (Mutex.init (plain_list ℕ)))
stackless-Match_example = stackless-Match (plain_list ℕ) crowd

alone : (f g : ℕ) → holds (crowded.places f) ≡ 1 → holds (crowded.places g) ≡ 1 → f ≡ g
unfolding run step
alone = (stackless_exclusive (plain_list ℕ) crowd crowded refl).1

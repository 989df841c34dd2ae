-- ===== src/Stackless/OneShotEvent/Examples.antt =====
-- Coroutines 2 and 3 wait, 2 is slow; 1 fires.
use magic_core.Prelude.{ℕ, ◌≡◌, refl, Option, none, some, List, [], ◌∷◌}
use magic_core.Prelude.Simulation.{Match}
use magic_core.Intrusive.{plain_list}
use magic_core.Sync.OneShotEvent as Event
use magic_core.Sync.OneShotEvent.{Event, waits, fires, advances, passed, queued, seen_signaled}
use magic_core.Stackless.OneShotEvent.{State, init, run, step, collect}
use magic_core.Stackless.OneShotEvent.Representation.{Rep}
use magic_core.Stackless.OneShotEvent.Refinement.{stackless_event-Match, stackless_event_wakeup}

abbrev whole : List Event
whole =
    waits 2
    ∷ waits 3
    ∷ advances 2
    ∷ advances 3
    ∷ advances 3
    ∷ fires 1
    ∷ advances 1
    ∷ advances 1
    ∷ advances 1
    ∷ advances 2
    ∷ advances 2
    ∷ advances 2
    ∷ []

abbrev get : Option (State (List ℕ)) → State (List ℕ)
get none = init (plain_list ℕ)
get (some s) = s

abbrev end_state : State (List ℕ)
end_state = get (run (plain_list ℕ) whole (init (plain_list ℕ)))

both_passed : (end_state.places 2 ≡ passed) × (end_state.places 3 ≡ passed)
unfolding run step collect
both_passed = (refl, refl)

stackless_event-Match_example :
    Match
      (Rep (plain_list ℕ))
      (run (plain_list ℕ) whole (init (plain_list ℕ)))
      (Event.run (plain_list ℕ) whole (Event.init (plain_list ℕ)))
stackless_event-Match_example = stackless_event-Match (plain_list ℕ) 1 whole (refl, tt)

none_suspended : (f : ℕ) → ¬ (end_state.places f ≡ queued)
unfolding run step collect
none_suspended =
    (stackless_event_wakeup (plain_list ℕ) 1 whole end_state (refl, tt) refl).1 refl refl

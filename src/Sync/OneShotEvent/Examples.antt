-- ===== src/Sync/OneShotEvent/Examples.antt =====
-- Fibers 2 and 3 wait, 2 is slow; 1 fires, and later so does 4, once alone and once together with 1.
use magic_core.Prelude.{ℕ, ◌≡◌, refl, false, Option, none, some, List, [], ◌∷◌, ◌++◌}
use magic_core.Intrusive.{plain_list}
use magic_core.Sync.OneShotEvent.{
  State, Event, waits, fires, advances, queued, passed, signaled, init, run, step, collect,
  create_waiter_list,
}
use magic_core.Sync.OneShotEvent.Invariant.{firing}
use magic_core.Sync.OneShotEvent.Wakeup.{event_wakeup, Ends, fire-Ends}

abbrev get : Option (State (List ℕ)) → State (List ℕ)
get none = init (plain_list ℕ)
get (some s) = s

abbrev arrivals : List Event
arrivals = waits 2 ∷ waits 3 ∷ advances 2 ∷ advances 3 ∷ advances 3 ∷ fires 1 ∷ []

-- Fiber 3 is queued, fiber 2 has loaded NoWaiters, fiber 1 is about to exchange.
abbrev firing_state : State (List ℕ)
firing_state = get (run (plain_list ℕ) arrivals (init (plain_list ℕ)))

abbrev whole : List Event
whole = arrivals ++ advances 1 ∷ advances 1 ∷ advances 1 ∷ advances 2 ∷ advances 2 ∷ advances 2 ∷ []

abbrev end_state : State (List ℕ)
end_state = get (run (plain_list ℕ) whole (init (plain_list ℕ)))

end_state_passed : (end_state.places 2 ≡ passed) × (end_state.places 3 ≡ passed)
unfolding run step create_waiter_list collect
end_state_passed = (refl, refl)

abbrev both : State (List ℕ)
both = get (run (plain_list ℕ) (arrivals ++ fires 4 ∷ []) (init (plain_list ℕ)))

event_wakeup_example :
    (end_state.failed ≡ false)
    × ((f : ℕ) → end_state.places f ≡ passed → end_state.word ≡ signaled)
    × (end_state.word ≡ signaled
        → firing (plain_list ℕ) (end_state.places 1) ≡ 0
        → (f : ℕ) → ¬ (end_state.places f ≡ queued))
unfolding run step create_waiter_list collect
event_wakeup_example = event_wakeup (plain_list ℕ) 1 whole end_state (refl, tt) refl

fire-Ends_example : Ends (plain_list ℕ) 1 firing_state
unfolding run step
fire-Ends_example = fire-Ends (plain_list ℕ) 1 arrivals firing_state (refl, tt) refl refl

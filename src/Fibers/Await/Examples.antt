-- ===== src/Fibers/Await/Examples.antt =====
-- A future that is ready late, and one that is ready while the fiber is on its way to sleep.
use magic_core.Prelude.{◌≡◌, refl, true, some, List, [], ◌∷◌}
use magic_core.Fibers.Await.{
  returned, Event, fiber_acts, produces, callback_acts, init, await, produce, invoke, step, run,
}
use magic_core.Fibers.Await.Return.{rests}

abbrev actions : List Event
actions =
    fiber_acts
    ∷ fiber_acts
    ∷ fiber_acts
    ∷ fiber_acts
    ∷ produces 7
    ∷ callback_acts
    ∷ callback_acts
    ∷ fiber_acts
    ∷ []

has_produced : (run actions init).produced ≡ some 7
unfolding run step await produce invoke
has_produced = refl

has_rested : rests (run actions init).place (run actions init).invocation ≡ true
unfolding run step await produce invoke
has_rested = refl

between :
    (run
      (fiber_acts
        ∷ fiber_acts
        ∷ produces 8
        ∷ produces 9
        ∷ fiber_acts
        ∷ fiber_acts
        ∷ callback_acts
        ∷ callback_acts
        ∷ fiber_acts
        ∷ [])
      init).place
    ≡ returned 8
unfolding run step await produce invoke
between = refl

-- ===== src/Sync/BlockingEvent/Examples.antt =====
-- Two threads wait, and Fire is called once: one of them sleeps on.
use magic_core.Prelude.{◌-◌, ◌≤◌, ◌≡◌, refl, ltb, true, false, some, List, [], ◌∷◌}
use magic_core.Prelude.Totals.{total}
use magic_core.Sync.BlockingEvent.{
  sleeping, passed, State, Event, waits, wakes, resumes, fires, init, passes, pass_or_wait, fire,
  step, run,
}
use magic_core.Sync.BlockingEvent.Invariant.{sleepers}
use magic_core.Sync.BlockingEvent.Wakeup.{count_fires, fire_wakes}

abbrev events : List Event
events = waits 0 ∷ waits 1 ∷ wakes 0 ∷ resumes 0 ∷ fires 1 ∷ resumes 1 ∷ []

abbrev final : State
final = record { fired = true; threads = sleeping ∷ passed ∷ [] }

reached : run events (init 2) ≡ some final
unfolding run step pass_or_wait fire
reached = refl

fire_wakes_example :
    (final.fired ≡ ltb 0 (count_fires events))
    × (final.fired ≡ false → total passes final.threads ≡ 0)
    × (sleepers final ≤ 2 - count_fires events)
fire_wakes_example = fire_wakes 2 events final reached

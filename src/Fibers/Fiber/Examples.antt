-- ===== src/Fibers/Fiber/Examples.antt =====
-- Two fibers on one worker: the first waits for its handle, which the second hands the worker to; the
-- first returns, and the second waits and is resumed.
use magic_core.Prelude.{
  Option, All, Bool, arith, ℕ, ◌+◌, ◌<◌, ◌≡◌, refl, true, false, none, some, List, [], ◌∷◌,
}
use magic_core.Prelude.Occurs.{occurs}
use magic_core.Prelude.Totals.{total}
use magic_core.Fibers.StackPool.{allocate, allocate_from, allocate_new, release}
use magic_core.Fibers.Fiber.{
  queued, running, always, maybe, hands_over, inside, State, Event, creates, resumes, awakes, acts,
  returns, awaits, suspends, init, schedule, resume, create, enter, suspend, suspend_alone,
  complete, destroy, go_on, on_completed, run_fiber, pick, advance, step, run,
}
use magic_core.Fibers.Fiber.Invariant.{owns}
use magic_core.Fibers.Fiber.Safety.{is_awaited, holders, living, fiber_places}

abbrev events : List Event
events =
    creates
    ∷ creates
    ∷ acts 0 0 returns
    ∷ acts 0 0 (awaits (maybe false))
    ∷ acts 0 0 returns
    ∷ acts 0 0 returns
    ∷ acts 0 0 (awaits hands_over)
    ∷ acts 0 0 returns
    ∷ acts 0 0 returns
    ∷ acts 0 0 returns
    ∷ acts 0 0 returns
    ∷ acts 0 0 (awaits always)
    ∷ acts 0 0 returns
    ∷ resumes 0
    ∷ creates
    ∷ acts 0 0 returns
    ∷ []

awaited : All (λ e. is_awaited e ≡ true) events
awaited = ground arith

abbrev final : State
final = record {
  fibers =
      record { stack = 0; state = running; awaiter = none; completed = true; alive = false }
      ∷ record { stack = 1; state = running; awaiter = none; completed = false; alive = true }
      ∷ record { stack = 0; state = queued; awaiter = none; completed = false; alive = true }
      ∷ [];
  queue = 2 ∷ [];
  workers = inside 1 ∷ [];
  handles = [];
  stacks = record {
    stack_pool = [];
    fresh = 2;
    metrics = record {
      total_allocate = 3;
      allocate_new_count = 2;
      release_count = 1;
      total_allocate_bytes = 131072;
    };
  };
  failed = false;
}

reached : run events (init 1) ≡ some final
unfolding run step create schedule allocate allocate_from allocate_new advance pick enter suspend
    complete run_fiber on_completed go_on destroy release resume
reached = refl

fiber_places_example :
    (final.failed ≡ false)
    × ((f : ℕ) → holders f final ≡ living f final)
    × ((t : ℕ)
        → t < final.stacks.fresh
        → occurs t final.stacks.stack_pool + total (owns t) final.fibers ≡ 1)
fiber_places_example = fiber_places 1 events final awaited reached

-- A fiber that is resumed through a pointer before its Suspend() fails the check of Resume.
abbrev early : List Event
early = creates ∷ acts 0 0 returns ∷ awakes 0 ∷ acts 0 0 suspends ∷ []

abbrev has_failed : Option State → Bool
has_failed none = false
has_failed (some s) = s.failed

early_fails : has_failed (run early (init 1)) ≡ true
unfolding run step create schedule allocate allocate_from allocate_new advance pick enter
    suspend_alone resume
early_fails = refl

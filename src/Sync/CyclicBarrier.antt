-- ===== src/Sync/CyclicBarrier.antt =====
-- src/magic/concurrency/barrier.h: threads wait for each other, again and again. One event is one
-- critical section, up to the wait or the return; a thread may also wake up by itself, as the
-- standard allows.
pub mod Generations
mod Examples
use magic_core.Prelude.{
  ℕ, suc, ◌+◌, ◌%◌, ◌^◌, Option, none, some, List, [], ◌∷◌, ◌++◌, ◌==◌, get_elem?, erase_idx,
  if◌then◌else◌,
}

pub record State : Type 0 where
  pub generation : ℕ  -- generation_
  pub arrived_count : ℕ
  pub sleeping : List ℕ  -- the generations of the threads in the wait on all_arrived_
  pub woken : List ℕ  -- those of the threads that have been woken and test their loop next
  pub arrivals : ℕ  -- calls of ArriveAndWait so far
  pub departures : ℕ  -- calls that have returned

pub data Event : Type 0 where
  arrives : Event
  wakes : (i : ℕ) → Event
  tests : (i : ℕ) → Event

abbrev pub init : State
init = record {
  generation = 0;
  arrived_count = 0;
  sleeping = [];
  woken = [];
  arrivals = 0;
  departures = 0;
}

-- notify_all
abbrev notify_all : State → State
notify_all s = record s { sleeping = []; woken = s.sleeping ++ s.woken }

-- The test of the loop by a thread that is awake: it sleeps again, or returns.
pub test : (this_thread_generation : ℕ) → State → State
test this_thread_generation s =
    if this_thread_generation == s.generation
    then record s { sleeping = this_thread_generation ∷ s.sleeping }
    else record s { departures = s.departures + 1 }

module _ (participants : ℕ) where
  pub arrive : State → State
  unfolding test
  arrive s =
      if s.arrived_count + 1 == participants
      then test s.generation (
          notify_all record s {
            generation = (s.generation + 1) % 2 ^ 64;
            arrived_count = 0;
            arrivals = s.arrivals + 1;
          })
      else test s.generation
          (record s { arrived_count = s.arrived_count + 1; arrivals = s.arrivals + 1 })

  pub step : Event → State → Option State
  unfolding arrive test
  step arrives s = some (arrive s)
  step (wakes i) s = elim (get_elem? s.sleeping i) [
    | none ↦ none
    | some g ↦ some (record s { sleeping = erase_idx s.sleeping i; woken = g ∷ s.woken })
  ]
  step (tests i) s = elim (get_elem? s.woken i) [
    | none ↦ none
    | some g ↦ some (test g (record s { woken = erase_idx s.woken i }))
  ]

  pub run : List Event → State → Option State
  run [] s = some s
  run (e ∷ es) s = elim (step e s) [ none ↦ none | some t ↦ run es t ]

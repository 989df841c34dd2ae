-- ===== src/Sync/CondVar.antt =====
-- src/magic/fibers/sync/condvar.h and condvar.cpp over fibers/sync/detail/futex.h. A critical section
-- of the spin lock is one event; in ParkIfEqual it lasts until the fiber is suspended. The mutex that
-- Wait unlocks and locks again belongs to the caller, and is not part of the state.
pub mod Waiters
pub mod Wakeup
mod Examples
use magic_core.Prelude.{
  ℕ, zero, suc, ◌+◌, ◌%◌, ◌^◌, Bool, true, false, Option, none, some, List, [], ◌∷◌, ◌++◌, ◌==◌,
  get_elem?, set, if◌then◌else◌,
}
use magic_core.Intrusive.{ForwardList}

-- Where a fiber stands; `C` is the type of intrusive lists.
pub data Place (C : Type 0) : Type 0 where
  outside : Place C
  prepared : (key : ℕ) → Place C  -- PrepareWait has returned
  parked : (key : ℕ) → Place C  -- suspended by ParkIfEqual
  resumed : Place C
  waking : C → Place C  -- Wake, with the list that is left

pub record State (C : Type 0) : Type 0 where
  pub epoch : ℕ
  pub waiters : C
  pub places : List (Place C)
  pub failed : Bool  -- a fiber was resumed that is not suspended

-- What a fiber calls that is outside.
pub data Call : Type 0 where
  wait : Call
  notify_one : Call
  notify_all : Call

-- The next action of a fiber; where it stands outside, of the call
pub data Event : Type 0 where
  acts : (f : ℕ) → Call → Event

-- epoch.fetch_add(1)
abbrev pub next_epoch : ℕ → ℕ
next_epoch e = (e + 1) % 2 ^ 64

module _ {C : Type 0} where
  abbrev pub all_outside : ℕ → List (Place C)
  all_outside zero = []
  all_outside (suc n) = outside ∷ all_outside n

  abbrev pub go : ℕ → Place C → State C → State C
  go f p s = record s { places = set s.places f p }

  -- Fiber::Resume
  abbrev resume_place : ℕ → Option (Place C) → State C → State C
  resume_place g (some (parked key)) s = go g resumed s
  resume_place g _ s = record s { failed = true }

  pub resume : ℕ → State C → State C
  resume g s = resume_place g (get_elem? s.places g) s

-- `append` is IntrusiveList::Append, which moves the items of its argument behind those of a list.
module _ (lists : ForwardList ℕ) (append : lists.Carrier → lists.Carrier → lists.Carrier) where
  open lists use {Carrier, empty, push_back, pop_front}

  abbrev pub init : ℕ → State Carrier
  init fibers = record { epoch = 0; waiters = empty; places = all_outside fibers; failed = false }

  -- ParkIfEqual
  pub park_if_equal : ℕ → ℕ → State Carrier → State Carrier
  park_if_equal f old s =
      if s.epoch == old
      then record (go f (parked old) s) { waiters = push_back s.waiters f }
      else go f resumed s

  -- WakeOne, up to its Wake
  pub wake_one : ℕ → State Carrier → State Carrier
  wake_one f s = elim (pop_front s.waiters) [
    | none ↦ record (go f (waking empty) s) { epoch = next_epoch s.epoch }
    | some (g, rest) ↦ record (go f (waking (push_back empty g)) s) {
      epoch = next_epoch s.epoch;
      waiters = rest;
    }
  ]

  -- WakeAll, up to its Wake
  pub wake_all : ℕ → State Carrier → State Carrier
  wake_all f s = record (go f (waking (append empty s.waiters)) s) {
    epoch = next_epoch s.epoch;
    waiters = empty;
  }

  -- One round of the loop of Wake, or its end
  pub wake : ℕ → Carrier → State Carrier → State Carrier
  unfolding resume
  wake f gs s = elim (pop_front gs) [
    | none ↦ go f outside s
    | some (g, rest) ↦ resume g (go f (waking rest) s)
  ]

  pub advance : ℕ → Call → Place Carrier → State Carrier → Option (State Carrier)
  unfolding park_if_equal wake_one wake_all wake
  advance f wait outside s = some (go f (prepared s.epoch) s)
  advance f notify_one outside s = some (wake_one f s)
  advance f notify_all outside s = some (wake_all f s)
  advance f call (prepared key) s = some (park_if_equal f key s)
  advance f call (parked key) s = none
  advance f call resumed s = some (go f outside s)
  advance f call (waking gs) s = some (wake f gs s)

  pub step : Event → State Carrier → Option (State Carrier)
  unfolding advance
  step (acts f call) s = elim (get_elem? s.places f) [ none ↦ none | some p ↦ advance f call p s ]

  pub run : List Event → State Carrier → Option (State Carrier)
  run [] s = some s
  run (e ∷ es) s = elim (step e s) [ none ↦ none | some t ↦ run es t ]

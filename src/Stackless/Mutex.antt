-- ===== src/Stackless/Mutex.antt =====
-- src/magic/coroutine/stackless/sync/mutex.h, with the links of the waiting nodes as a store. One
-- event is one atomic action on `state_`, by one coroutine.
pub mod Representation
pub mod Refinement
mod Examples
use magic_core.Prelude.{
  ℕ, zero, suc, ◌+◌, Bool, true, false, Option, none, some, List, [], ◌∷◌, ◌==◌, if◌then◌else◌,
}
use magic_core.Stackless.Links.{set_next}
use magic_core.Intrusive.{ForwardList}
use magic_core.Sync.Mutex.{
  Seen, seen_unlocked, seen_no_waiters, seen_head, same_seen, Place, outside, enqueuing, loaded,
  queued, owning, releasing, clearing, flushing, move, Event, tries, locks, unlocks, advances,
}

-- State: 0, 1 or the address of a node, which has the number of its coroutine.
abbrev pub Word : Type 0
Word = Seen

pub record State (C : Type 0) : Type 0 where
  pub word : Word  -- state_
  pub next : ℕ → Option ℕ  -- the link of each node
  pub waiters : C  -- waiters_
  pub places : ℕ → Place
  pub links : ℕ  -- nodes linked so far, which bounds every walk along links
  pub failed : Bool  -- an assert has failed

-- `(Node*)state`, in SetNext and ResetNext.
abbrev pub link_of : Word → Option ℕ
link_of (seen_head n) = some n
link_of _ = none

module _ {C : Type 0} where
  pub go : ℕ → Place → State C → State C
  go f p s = record s { places = move f p s.places }

  -- TryLock; where it fails the coroutine goes to `otherwise`.
  pub try_lock : ℕ → Place → State C → State C
  unfolding go
  try_lock f otherwise s =
      if same_seen s.word seen_unlocked
      then record (go f owning s) { word = seen_no_waiters }
      else go f otherwise s

  -- TryLockOrEnqueue after a load of something other than Unlocked.
  pub enqueue : ℕ → Word → State C → State C
  unfolding go
  enqueue f seen s =
      if same_seen s.word seen
      then record (go f queued s) {
        word = seen_head f;
        next = set_next f (link_of seen) s.next;
        links = s.links + 1;
      }
      else record (go f enqueuing s) { next = set_next f (link_of seen) s.next }

  -- Release: the test after the load.
  pub release_load : ℕ → State C → State C
  unfolding go
  release_load f s = if same_seen s.word seen_no_waiters then go f clearing s else go f flushing s

  -- Release: compare_exchange_strong(LockedNoWaiters, Unlocked).
  pub clear : ℕ → State C → State C
  unfolding go
  clear f s =
      if same_seen s.word seen_no_waiters
      then record (go f outside s) { word = seen_unlocked }
      else go f releasing s

module _ (lists : ForwardList ℕ) where
  open lists use {Carrier, empty, push_back, pop_front}

  abbrev pub init : State Carrier
  init = record {
    word = seen_unlocked;
    next = λ f. none;
    waiters = empty;
    places = λ f. outside;
    links = 0;
    failed = false;
  }

  -- The waiter is resumed and gets the lock; the coroutine that releases it goes on later.
  pub resume_next_waiter : ℕ → State Carrier → State Carrier
  unfolding go
  resume_next_waiter f s = elim (pop_front s.waiters) [
    | none ↦ record s { failed = true }
    | some (next, rest) ↦ record (go next owning (go f outside s)) { waiters = rest }
  ]

  -- AppendToList; `none`: still walking when the fuel is used up.
  pub append_to_list : ℕ → (ℕ → Option ℕ) → Option ℕ → Carrier → Option Carrier
  append_to_list fuel next none waiters = some waiters
  append_to_list zero next (some curr) waiters = none
  append_to_list (suc fuel) next (some curr) waiters =
      append_to_list fuel next (next curr) (push_back waiters curr)

  pub release : ℕ → State Carrier → State Carrier
  unfolding go resume_next_waiter
  release f s = elim (pop_front s.waiters) [
    | none ↦ go f releasing s
    | some _ ↦ resume_next_waiter f s
  ]

  -- Release: exchange(LockedNoWaiters), AppendToList and ResumeNextWaiter; `none`: the walk of
  -- AppendToList does not end.
  pub flush : ℕ → State Carrier → Option (State Carrier)
  unfolding resume_next_waiter
  flush f s = elim (append_to_list s.links s.next (link_of s.word) s.waiters) [
    | none ↦ none
    | some waiters ↦
        some (resume_next_waiter f record s { waiters = waiters; word = seen_no_waiters })
  ]

  pub advance : ℕ → Place → State Carrier → Option (State Carrier)
  unfolding go try_lock enqueue release_load clear flush
  advance f enqueuing s = some (go f (loaded s.word) s)
  advance f (loaded seen_unlocked) s = some (try_lock f enqueuing s)
  advance f (loaded seen) s = some (enqueue f seen s)
  advance f releasing s = some (release_load f s)
  advance f clearing s = some (clear f s)
  advance f flushing s = flush f s
  advance f _ s = none

  -- await_ready of the awaiter of ScopedLock, and TryLock
  pub acquire : ℕ → Place → Place → State Carrier → Option (State Carrier)
  unfolding try_lock
  acquire f otherwise outside s = some (try_lock f otherwise s)
  acquire f otherwise _ s = none

  pub unlock : ℕ → Place → State Carrier → Option (State Carrier)
  unfolding release
  unlock f owning s = some (release f s)
  unlock f _ s = none

  pub step : Event → State Carrier → Option (State Carrier)
  unfolding acquire unlock advance
  step (tries f) s = acquire f outside (s.places f) s
  step (locks f) s = acquire f enqueuing (s.places f) s
  step (unlocks f) s = unlock f (s.places f) s
  step (advances f) s = advance f (s.places f) s

  pub run : List Event → State Carrier → Option (State Carrier)
  run [] s = some s
  run (e ∷ es) s = elim (step e s) [ none ↦ none | some t ↦ run es t ]

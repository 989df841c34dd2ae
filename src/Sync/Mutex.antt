-- ===== src/Sync/Mutex.antt =====
-- src/magic/fibers/sync/mutex.h: a mutex for fibers. One event is one atomic action on `state_`, by
-- one fiber.
pub mod Invariant
pub mod Release
pub mod Exclusion
pub mod Handover
mod Examples
use magic_core.Prelude.{
  ℕ, Bool, true, false, Option, none, some, List, [], ◌∷◌, ◌==◌, if◌then◌else◌,
}
use magic_core.Intrusive.{ForwardList}

-- state_: 0, or 1 or the address of the newest waiter, whose links lead to the older ones. Nodes
-- have the numbers of their fibers.
pub data Word : Type 0 where
  unlocked : Word
  locked : (stack : List ℕ) → Word

-- What a load of state_ tells.
pub data Seen : Type 0 where
  seen_unlocked : Seen
  seen_no_waiters : Seen
  seen_head : ℕ → Seen

abbrev pub observe : Word → Seen
observe unlocked = seen_unlocked
observe (locked []) = seen_no_waiters
observe (locked (node ∷ _)) = seen_head node

-- Where a fiber stands.
pub data Place : Type 0 where
  outside : Place
  enqueuing : Place  -- TryLockOrEnqueue, before the load
  loaded : Seen → Place  -- TryLockOrEnqueue, after the load
  queued : Place  -- suspended; its node is linked
  owning : Place
  releasing : Place  -- Release, before the load
  clearing : Place  -- Release: the load saw LockedNoWaiters
  flushing : Place  -- Release: the load saw something else

pub record State (C : Type 0) : Type 0 where
  pub word : Word  -- state_
  pub waiters : C  -- waiters_
  pub places : ℕ → Place
  pub failed : Bool  -- an assert has failed

pub data Event : Type 0 where
  tries : (fiber : ℕ) → Event  -- TryLock
  locks : (fiber : ℕ) → Event  -- Lock, up to its TryLock
  unlocks : (fiber : ℕ) → Event  -- Unlock, up to its test of waiters_
  advances : (fiber : ℕ) → Event  -- the next action of TryLockOrEnqueue or Release

-- `state == seen`, in compare_exchange_strong.
abbrev pub same_seen : Seen → Seen → Bool
same_seen seen_unlocked seen_unlocked = true
same_seen seen_no_waiters seen_no_waiters = true
same_seen (seen_head m) (seen_head n) = m == n
same_seen _ _ = false

abbrev pub stack_of : Word → List ℕ
stack_of unlocked = []
stack_of (locked stack) = stack

abbrev pub move : ℕ → Place → (ℕ → Place) → ℕ → Place
move f p places g = if g == f then p else places g

module _ {C : Type 0} where
  unfoldable pub go : ℕ → Place → State C → State C
  go f p s = record s { places = move f p s.places }

  -- TryLock; where it fails the fiber goes to `otherwise`.
  unfoldable pub try_lock : ℕ → Place → Word → State C → State C
  unfolding go
  try_lock f otherwise unlocked s = record (go f owning s) { word = locked [] }
  try_lock f otherwise (locked _) s = go f otherwise s

  -- TryLockOrEnqueue after a load of something other than Unlocked.
  unfoldable pub enqueue : ℕ → Seen → State C → State C
  unfolding go
  enqueue f seen s =
      if same_seen (observe s.word) seen
      then record (go f queued s) { word = locked (f ∷ stack_of s.word) }
      else go f enqueuing s

  -- Release: the test after the load.
  unfoldable pub release_load : ℕ → Seen → State C → State C
  unfolding go
  release_load f seen_no_waiters s = go f clearing s
  release_load f _ s = go f flushing s

  -- Release: compare_exchange_strong(LockedNoWaiters, Unlocked).
  unfoldable pub clear : ℕ → Seen → State C → State C
  unfolding go
  clear f seen_no_waiters s = record (go f outside s) { word = unlocked }
  clear f _ s = go f releasing s

module _ (lists : ForwardList ℕ) where
  open lists use {Carrier, empty, push_back, pop_front}

  abbrev pub init : State Carrier
  init = record { word = unlocked; waiters = empty; places = λ f. outside; failed = false }

  -- The waiter gets the lock, and the fiber that releases it leaves.
  unfoldable pub resume_next_waiter : ℕ → State Carrier → State Carrier
  unfolding go
  resume_next_waiter f s = elim (pop_front s.waiters) [
    | none ↦ record s { failed = true }
    | some (next, rest) ↦ record (go next owning (go f outside s)) { waiters = rest }
  ]

  unfoldable pub append_to_list : List ℕ → Carrier → Carrier
  append_to_list [] waiters = waiters
  append_to_list (curr ∷ stack) waiters = append_to_list stack (push_back waiters curr)

  unfoldable pub release : ℕ → State Carrier → State Carrier
  unfolding go resume_next_waiter
  release f s = elim (pop_front s.waiters) [
    | none ↦ go f releasing s
    | some _ ↦ resume_next_waiter f s
  ]

  -- Release: exchange(LockedNoWaiters), AppendToList and ResumeNextWaiter.
  unfoldable pub flush : ℕ → State Carrier → State Carrier
  unfolding resume_next_waiter
  flush f s =
      resume_next_waiter f
        record s { waiters = append_to_list (stack_of s.word) s.waiters; word = locked [] }

  unfoldable pub advance : ℕ → Place → State Carrier → Option (State Carrier)
  unfolding go try_lock enqueue release_load clear flush
  advance f enqueuing s = some (go f (loaded (observe s.word)) s)
  advance f (loaded seen_unlocked) s = some (try_lock f enqueuing s.word s)
  advance f (loaded seen) s = some (enqueue f seen s)
  advance f releasing s = some (release_load f (observe s.word) s)
  advance f clearing s = some (clear f (observe s.word) s)
  advance f flushing s = some (flush f s)
  advance f _ s = none

  unfoldable pub acquire : ℕ → Place → Place → State Carrier → Option (State Carrier)
  unfolding try_lock
  acquire f otherwise outside s = some (try_lock f otherwise s.word s)
  acquire f otherwise _ s = none

  unfoldable pub unlock : ℕ → Place → State Carrier → Option (State Carrier)
  unfolding release
  unlock f owning s = some (release f s)
  unlock f _ s = none

  unfoldable pub step : Event → State Carrier → Option (State Carrier)
  unfolding acquire unlock advance
  step (tries f) s = acquire f outside (s.places f) s
  step (locks f) s = acquire f enqueuing (s.places f) s
  step (unlocks f) s = unlock f (s.places f) s
  step (advances f) s = advance f (s.places f) s

  unfoldable pub run : List Event → State Carrier → Option (State Carrier)
  run [] s = some s
  run (e ∷ es) s = elim (step e s) [ none ↦ none | some t ↦ run es t ]

-- ===== src/Sync/OneShotEvent.antt =====
-- src/magic/fibers/sync/oneshotevent.h: fibers wait until another one fires. One event is one
-- atomic action on `state_`, or one wake-up, by one fiber.
pub mod Invariant
pub mod Firing
pub mod Wakeup
mod Examples
use magic_core.Prelude.{
  ℕ, Bool, true, false, Option, none, some, List, [], ◌∷◌, ◌==◌, if◌then◌else◌,
}
use magic_core.Intrusive.{ForwardList}

-- state_: 1, or 0 or the address of the newest waiter, whose links lead to the older ones. Nodes
-- have the numbers of their fibers.
pub data Word : Type 0 where
  signaled : Word
  waiting : (stack : List ℕ) → Word

-- What a load of state_ tells.
pub data Seen : Type 0 where
  seen_signaled : Seen
  seen_no_waiters : Seen
  seen_head : ℕ → Seen

abbrev pub observe : Word → Seen
observe signaled = seen_signaled
observe (waiting []) = seen_no_waiters
observe (waiting (node ∷ _)) = seen_head node

abbrev pub same_seen : Seen → Seen → Bool
same_seen seen_signaled seen_signaled = true
same_seen seen_no_waiters seen_no_waiters = true
same_seen (seen_head m) (seen_head n) = m == n
same_seen _ _ = false

abbrev pub stack_of : Word → List ℕ
stack_of signaled = []
stack_of (waiting stack) = stack

-- IsReady
unfoldable pub is_ready : Word → Bool
is_ready signaled = true
is_ready (waiting _) = false

-- Where a fiber stands.
pub data Place (C : Type 0) : Type 0 where
  outside : Place C
  enqueuing : Place C  -- TryEnqueue, before the load
  loaded : Seen → Place C  -- TryEnqueue, after the load
  queued : Place C  -- suspended; its node is linked
  passed : Place C  -- WaitAsync has returned
  exchanging : Place C  -- FireImpl, before the exchange
  waking : (waiters : C) → Place C  -- FireImpl, in the loop
  fired : Place C  -- Fire has returned

pub record State (C : Type 0) : Type 0 where
  pub word : Word  -- state_
  pub places : ℕ → Place C
  pub failed : Bool  -- an assert has failed, or Signaled was taken for an address

pub data Event : Type 0 where
  waits : (fiber : ℕ) → Event  -- WaitAsync, up to IsReady
  fires : (fiber : ℕ) → Event  -- Fire, up to its compare_exchange_strong
  advances : (fiber : ℕ) → Event  -- the next action of TryEnqueue or FireImpl

module _ {C : Type 0} where
  abbrev pub is_idle : Place C → Bool
  is_idle outside = true
  is_idle passed = true
  is_idle fired = true
  is_idle _ = false

  abbrev pub move : ℕ → Place C → (ℕ → Place C) → ℕ → Place C
  move f p places g = if g == f then p else places g

  unfoldable pub go : ℕ → Place C → State C → State C
  go f p s = record s { places = move f p s.places }

  unfoldable pub wait_async : ℕ → State C → State C
  unfolding go is_ready
  wait_async f s = if is_ready s.word then go f passed s else go f enqueuing s

  -- TryEnqueue after its load.
  unfoldable pub try_enqueue : ℕ → Seen → State C → State C
  unfolding go
  try_enqueue f seen_signaled s = go f passed s
  try_enqueue f seen s =
      if same_seen (observe s.word) seen
      then record (go f queued s) { word = waiting (f ∷ stack_of s.word) }
      else go f enqueuing s

  -- FireImpl, up to the exchange.
  unfoldable pub fire : ℕ → Seen → State C → State C
  unfolding go
  fire f seen_no_waiters s = record (go f fired s) { word = signaled }
  fire f seen_signaled s = go f fired s
  fire f (seen_head _) s = go f exchanging s

module _ (lists : ForwardList ℕ) where
  open lists use {Carrier, empty, push_back, pop_front}

  abbrev pub init : State Carrier
  init = record { word = waiting []; places = λ f. outside; failed = false }

  unfoldable pub collect : List ℕ → Carrier → Carrier
  collect [] waiters = waiters
  collect (curr ∷ stack) waiters = collect stack (push_back waiters curr)

  -- CreateWaiterList; `none`: the head is not the address of a node.
  unfoldable pub create_waiter_list : Word → Option Carrier
  unfolding collect
  create_waiter_list signaled = none
  create_waiter_list (waiting []) = none
  create_waiter_list (waiting (head ∷ stack)) = some (collect (head ∷ stack) empty)

  -- exchange(Signaled) and CreateWaiterList
  unfoldable pub exchange : ℕ → State Carrier → State Carrier
  unfolding go
  exchange f s = elim (create_waiter_list s.word) [
    | none ↦ record s { word = signaled; failed = true }
    | some waiters ↦ record (go f (waking waiters) s) { word = signaled }
  ]

  -- One round of the loop of FireImpl, or its end.
  unfoldable pub wake_next : ℕ → Carrier → State Carrier → State Carrier
  unfolding go
  wake_next f waiters s = elim (pop_front waiters) [
    | none ↦ go f fired s
    | some (next, rest) ↦ go next passed (go f (waking rest) s)
  ]

  unfoldable pub advance : ℕ → Place Carrier → State Carrier → Option (State Carrier)
  unfolding go try_enqueue exchange wake_next
  advance f enqueuing s = some (go f (loaded (observe s.word)) s)
  advance f (loaded seen) s = some (try_enqueue f seen s)
  advance f exchanging s = some (exchange f s)
  advance f (waking waiters) s = some (wake_next f waiters s)
  advance f _ s = none

  unfoldable pub step : Event → State Carrier → Option (State Carrier)
  unfolding wait_async fire advance
  step (waits f) s = if is_idle (s.places f) then some (wait_async f s) else none
  step (fires f) s = if is_idle (s.places f) then some (fire f (observe s.word) s) else none
  step (advances f) s = advance f (s.places f) s

  unfoldable pub run : List Event → State Carrier → Option (State Carrier)
  run [] s = some s
  run (e ∷ es) s = elim (step e s) [ none ↦ none | some t ↦ run es t ]

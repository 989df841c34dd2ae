-- ===== src/Stackless/OneShotEvent.antt =====
-- src/magic/coroutine/stackless/sync/oneshotevent.h, with the links of the waiting nodes as a
-- store. One event is one atomic action on `state_`, or one wake-up, by one coroutine.
pub mod Representation
pub mod Refinement
mod Examples
use magic_core.Prelude.{
  ℕ, zero, suc, ◌+◌, Bool, true, false, Option, none, some, List, [], ◌∷◌, ◌==◌, if◌then◌else◌,
}
use magic_core.Stackless.Links.{set_next}
use magic_core.Intrusive.{ForwardList}
use magic_core.Sync.OneShotEvent.{
  Seen, seen_signaled, seen_no_waiters, seen_head, same_seen, Place, outside, enqueuing, loaded,
  queued, passed, exchanging, waking, fired, is_idle, move, Event, waits, fires, advances,
}

-- State: 1, 0 or the address of a node, which has the number of its coroutine.
abbrev pub Word : Type 0
Word = Seen

pub record State (C : Type 0) : Type 0 where
  pub word : Word  -- state_
  pub next : ℕ → Option ℕ  -- the link of each node
  pub places : ℕ → Place C
  pub links : ℕ  -- nodes linked so far, which bounds every walk along links
  pub failed : Bool  -- an assert has failed, or Signaled was taken for an address

-- `(Node*)state`, in SetNext and ResetNext.
abbrev pub link_of : Word → Option ℕ
link_of (seen_head n) = some n
link_of _ = none

module _ {C : Type 0} where
  pub go : ℕ → Place C → State C → State C
  go f p s = record s { places = move f p s.places }

  -- IsReady
  pub is_ready : State C → Bool
  is_ready s = same_seen s.word seen_signaled

  -- await_ready, and where it leads
  pub wait_async : ℕ → State C → State C
  unfolding go is_ready
  wait_async f s = if is_ready s then go f passed s else go f enqueuing s

  -- TryEnqueue after its load, called by await_suspend.
  pub try_enqueue : ℕ → Word → State C → State C
  unfolding go
  try_enqueue f seen_signaled s = go f passed s
  try_enqueue f seen s =
      if same_seen s.word seen
      then record (go f queued s) {
        word = seen_head f;
        next = set_next f (link_of seen) s.next;
        links = s.links + 1;
      }
      else record (go f enqueuing s) { next = set_next f (link_of seen) s.next }

  -- FireImpl, up to the exchange.
  pub fire : ℕ → State C → State C
  unfolding go
  fire f s =
      if same_seen s.word seen_no_waiters
      then record (go f fired s) { word = seen_signaled }
      else if same_seen s.word seen_signaled
      then go f fired s
      else go f exchanging s

module _ (lists : ForwardList ℕ) where
  open lists use {Carrier, empty, push_back, pop_front}

  abbrev pub init : State Carrier
  init = record {
    word = seen_no_waiters;
    next = λ f. none;
    places = λ f. outside;
    links = 0;
    failed = false;
  }

  -- The loop of CreateWaiterList; `none`: still walking when the fuel is used up.
  pub collect : ℕ → (ℕ → Option ℕ) → Option ℕ → Carrier → Option Carrier
  collect fuel next none waiters = some waiters
  collect zero next (some curr) waiters = none
  collect (suc fuel) next (some curr) waiters =
      collect fuel next (next curr) (push_back waiters curr)

  -- exchange(Signaled) and CreateWaiterList of a node; `none`: its walk does not end.
  pub exchange : ℕ → State Carrier → Option (State Carrier)
  unfolding go
  exchange f s = elim s.word [
    | seen_head head ↦ elim (collect s.links s.next (some head) empty) [
      | none ↦ none
      | some waiters ↦ some (record (go f (waking waiters) s) { word = seen_signaled })
    ]
    | _ ↦ some (record s { word = seen_signaled; failed = true })
  ]

  -- One round of the loop of FireImpl, with Resume, or its end.
  pub wake_next : ℕ → Carrier → State Carrier → State Carrier
  unfolding go
  wake_next f waiters s = elim (pop_front waiters) [
    | none ↦ go f fired s
    | some (next, rest) ↦ go next passed (go f (waking rest) s)
  ]

  pub advance : ℕ → Place Carrier → State Carrier → Option (State Carrier)
  unfolding go try_enqueue exchange wake_next
  advance f enqueuing s = some (go f (loaded s.word) s)
  advance f (loaded seen) s = some (try_enqueue f seen s)
  advance f exchanging s = exchange f s
  advance f (waking waiters) s = some (wake_next f waiters s)
  advance f _ s = none

  pub step : Event → State Carrier → Option (State Carrier)
  unfolding wait_async fire advance
  step (waits f) s = if is_idle (s.places f) then some (wait_async f s) else none
  step (fires f) s = if is_idle (s.places f) then some (fire f s) else none
  step (advances f) s = advance f (s.places f) s

  pub run : List Event → State Carrier → Option (State Carrier)
  run [] s = some s
  run (e ∷ es) s = elim (step e s) [ none ↦ none | some t ↦ run es t ]

-- ===== src/Sync/BlockingQueue.antt =====
-- src/magic/concurrency/blocking_queue.h: UnboundedBlockingQueue. One event is one critical section;
-- a consumer may also wake up by itself, as the standard allows.
pub mod Delivery
mod Examples
pub mod Invariant
use magic_core.Prelude.{
  ℕ, zero, suc, ◌+◌, ◌<◌, Bool, true, false, Option, none, some, List, [], ◌∷◌, ◌++◌, get_elem?,
  set, ltb, if◌then◌else◌,
}
use magic_core.Prelude.Totals.{total}

-- Where a consumer stands in Take.
pub data Place : Type 0 where
  outside : Place
  sleeping : Place  -- in the wait on not_empty_
  woken : Place  -- it takes the mutex next
  got : Option ℕ → Place  -- Take has returned

pub record State : Type 0 where
  pub buffer : List ℕ
  pub closed : Bool
  pub consumers : List Place
  pub accepted : List ℕ  -- values for which Put has returned true
  pub taken : List ℕ
  pub dropped : List ℕ  -- by Close
  pub disposed : List ℕ  -- values that the disposer of Shutdown was called with

pub data Event : Type 0 where
  puts : ℕ → (notified : ℕ) → Event  -- `notified` is a sleeping consumer, if there is one
  takes : (consumer : ℕ) → Event
  wakes : (consumer : ℕ) → Event
  resumes : (consumer : ℕ) → Event
  closes : Event
  shuts_down : Event

abbrev pub all_outside : ℕ → List Place
all_outside zero = []
all_outside (suc n) = outside ∷ all_outside n

abbrev pub init : ℕ → State
init consumers = record {
  buffer = [];
  closed = false;
  consumers = all_outside consumers;
  accepted = [];
  taken = [];
  dropped = [];
  disposed = [];
}

abbrev pub go : ℕ → Place → State → State
go c p s = record s { consumers = set s.consumers c p }

abbrev pub sleeps : Place → ℕ
sleeps sleeping = 1
sleeps _ = 0

abbrev pub wakened : Place → Place
wakened sleeping = woken
wakened p = p

abbrev pub notified_all : List Place → List Place
notified_all [] = []
notified_all (p ∷ ps) = wakened p ∷ notified_all ps

abbrev pub wake : ℕ → Option Place → State → Option State
wake c (some sleeping) s = some (go c woken s)
wake c _ s = none

-- notify_one
unfoldable pub notify_one : ℕ → State → Option State
notify_one c s =
    if ltb 0 (total sleeps s.consumers) then wake c (get_elem? s.consumers c) s else some s

-- Put, which returns false behind Close
unfoldable pub put : ℕ → ℕ → State → Option State
unfolding notify_one
put v c s =
    if s.closed
    then some s
    else notify_one c (record s { buffer = s.buffer ++ v ∷ []; accepted = s.accepted ++ v ∷ [] })

-- The test of the loop in Take, and TakeLocked
unfoldable pub take_or_wait : ℕ → List ℕ → State → State
take_or_wait c [] s = if s.closed then go c (got none) s else go c sleeping s
take_or_wait c (v ∷ rest) s = record (go c (got (some v)) s) {
  buffer = rest;
  taken = s.taken ++ v ∷ [];
}

unfoldable pub close : State → State
close s = record s {
  closed = true;
  buffer = [];
  dropped = s.buffer ++ s.dropped;
  consumers = notified_all s.consumers;
}

unfoldable pub shutdown : State → State
shutdown s = record s {
  closed = true;
  buffer = [];
  disposed = s.disposed ++ s.buffer;
  consumers = notified_all s.consumers;
}

abbrev pub starts : ℕ → Option Place → State → Option State
starts c (some outside) s = some (take_or_wait c s.buffer s)
starts c (some (got _)) s = some (take_or_wait c s.buffer s)
starts c _ s = none

abbrev pub continues : ℕ → Option Place → State → Option State
continues c (some woken) s = some (take_or_wait c s.buffer s)
continues c _ s = none

unfoldable pub step : Event → State → Option State
unfolding put take_or_wait close shutdown
step (puts v c) s = put v c s
step (takes c) s = starts c (get_elem? s.consumers c) s
step (wakes c) s = wake c (get_elem? s.consumers c) s
step (resumes c) s = continues c (get_elem? s.consumers c) s
step closes s = some (close s)
step shuts_down s = some (shutdown s)

pub run : List Event → State → Option State
unfolding step
run [] s = some s
run (e ∷ es) s = elim (step e s) [ none ↦ none | some t ↦ run es t ]

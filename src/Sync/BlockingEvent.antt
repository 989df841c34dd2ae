-- ===== src/Sync/BlockingEvent.antt =====
-- src/magic/concurrency/oneshotevent.h: OneShotEvent for threads. One event is one critical section; a
-- thread may also wake up by itself, as the standard allows.
mod Examples
pub mod Invariant
pub mod Wakeup
use magic_core.Prelude.{
  ℕ, zero, suc, ◌+◌, ◌<◌, Bool, true, false, Option, none, some, List, [], ◌∷◌, get_elem?, set, ltb,
  if◌then◌else◌,
}
use magic_core.Prelude.Totals.{total}

-- Where a thread stands in Wait.
pub data Place : Type 0 where
  outside : Place
  sleeping : Place  -- in the wait on fired_cond_
  woken : Place  -- it takes the mutex next
  passed : Place

pub record State : Type 0 where
  pub fired : Bool
  pub threads : List Place

pub data Event : Type 0 where
  waits : (thread : ℕ) → Event
  wakes : (thread : ℕ) → Event
  resumes : (thread : ℕ) → Event
  fires : (notified : ℕ) → Event  -- `notified` is a sleeping thread, if there is one

abbrev pub all_outside : ℕ → List Place
all_outside zero = []
all_outside (suc n) = outside ∷ all_outside n

abbrev pub init : ℕ → State
init threads = record { fired = false; threads = all_outside threads }

abbrev pub go : ℕ → Place → State → State
go t p s = record s { threads = set s.threads t p }

abbrev pub sleeps : Place → ℕ
sleeps sleeping = 1
sleeps _ = 0

abbrev pub passes : Place → ℕ
passes passed = 1
passes _ = 0

abbrev pub wake : ℕ → Option Place → State → Option State
wake t (some sleeping) s = some (go t woken s)
wake t _ s = none

-- The test of the loop in Wait
unfoldable pub pass_or_wait : ℕ → State → State
pass_or_wait t s = if s.fired then go t passed s else go t sleeping s

abbrev pub starts : ℕ → Option Place → State → Option State
starts t (some outside) s = some (pass_or_wait t s)
starts t (some passed) s = some (pass_or_wait t s)
starts t _ s = none

abbrev pub continues : ℕ → Option Place → State → Option State
continues t (some woken) s = some (pass_or_wait t s)
continues t _ s = none

-- Fire, with notify_one
unfoldable pub fire : ℕ → State → Option State
fire t s =
    if ltb 0 (total sleeps s.threads)
    then wake t (get_elem? s.threads t) (record s { fired = true })
    else some (record s { fired = true })

unfoldable pub step : Event → State → Option State
unfolding pass_or_wait fire
step (waits t) s = starts t (get_elem? s.threads t) s
step (wakes t) s = wake t (get_elem? s.threads t) s
step (resumes t) s = continues t (get_elem? s.threads t) s
step (fires t) s = fire t s

pub run : List Event → State → Option State
unfolding step
run [] s = some s
run (e ∷ es) s = elim (step e s) [ none ↦ none | some t ↦ run es t ]

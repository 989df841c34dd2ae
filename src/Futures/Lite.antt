-- ===== src/Futures/Lite.antt =====
-- src/magic/concurrency/future_lite.h and future_lite.cpp: a fiber in Get, and a thread in Set. One
-- event is the next access to result_, fiber_ or the state of the fiber by one of them.
pub mod Parking
mod Examples
use magic_core.Prelude.{ℕ, Bool, true, false, Option, none, some, List, [], ◌∷◌, if◌then◌else◌}

-- Where the fiber stands.
pub data Getter : Type 0 where
  starts : Getter
  checked : Getter  -- Get has found no result
  parked : Getter  -- Park has set fiber_
  suspended : Getter
  resumed : Getter  -- it is scheduled again
  returned : ℕ → Getter

-- Where the thread stands.
pub data Setter : Type 0 where
  has : (value : ℕ) → Setter  -- in front of Set
  set : Setter  -- result_ is set
  waking : Setter  -- Wake has taken the fiber from fiber_
  finished : Setter

pub record State : Type 0 where
  pub result : Option ℕ
  pub fiber : Bool  -- fiber_ is not null
  pub getter : Getter
  pub setter : Setter
  pub failed : Bool  -- a check has failed

pub data Event : Type 0 where
  gets : Event
  sets : Event

abbrev pub init : ℕ → State
init value = record {
  result = none;
  fiber = false;
  getter = starts;
  setter = has value;
  failed = false;
}

abbrev returns_value : Option ℕ → State → State
returns_value none s = record s { failed = true }
returns_value (some v) s = record s { getter = returned v }

abbrev look : Option ℕ → State → State
look none s = record s { getter = checked }
look (some v) s = record s { getter = returned v }

-- Get, with Park in it
unfoldable pub get : Getter → State → State
get starts s = look s.result s
get checked s = record s { getter = parked; fiber = true }
get parked s = record s { getter = suspended }
get suspended s = s
get resumed s = returns_value s.result s
get (returned v) s = s

-- Resume, with its check
abbrev resume : Getter → State → State
resume suspended s = record s { getter = resumed; setter = finished }
resume _ s = record s { failed = true; setter = finished }

-- Set, with Wake in it
unfoldable pub set_value : Setter → State → State
set_value (has v) s = record s { result = some v; setter = set }
set_value set s =
    if s.fiber then record s { fiber = false; setter = waking } else record s { setter = finished }
set_value waking s = resume s.getter s
set_value finished s = s

unfoldable pub step : Event → State → State
unfolding get set_value
step gets s = get s.getter s
step sets s = set_value s.setter s

pub run : List Event → State → State
unfolding step
run [] s = s
run (e ∷ es) s = run es (step e s)

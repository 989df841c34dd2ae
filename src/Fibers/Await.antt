-- ===== src/Fibers/Await.antt =====
-- src/magic/fibers/core/await.h: a fiber awaits a future. By the contract of future and promise the
-- callback is invoked once, by the one of Subscribe and SetResult that comes second. One event is the
-- next action of the fiber (or of the worker behind it), of the promise, or of the invocation.
mod Examples
pub mod Return
use magic_core.Prelude.{ℕ, Bool, true, false, Option, none, some, List, [], ◌∷◌, if◌then◌else◌}

-- Where the fiber stands.
pub data Place : Type 0 where
  starts : Place  -- in front of AwaitReady
  not_ready : Place  -- in front of self::Suspend
  suspended : Place  -- AwaitSuspend comes next
  subscribing : Place  -- fiber_ is set
  waits : Place  -- Subscribe has met the promise
  scheduled : Place  -- it is resumed; GetResult comes next
  returned : ℕ → Place

-- Where the invocation of the callback stands.
pub data Invocation : Type 0 where
  not_yet : Invocation
  emplacing : Invocation
  resuming : Invocation  -- result_ is set
  invoked : Invocation

pub record State : Type 0 where
  pub produced : Option ℕ  -- the result in the shared state
  pub subscribed : Bool  -- the callback is there, and was before the result
  pub place : Place
  pub invocation : Invocation
  pub result : Option ℕ  -- result_
  pub failed : Bool  -- a check has failed, or an empty result_ was read

pub data Event : Type 0 where
  fiber_acts : Event
  produces : ℕ → Event  -- SetResult
  callback_acts : Event

abbrev pub init : State
init = record {
  produced = none;
  subscribed = false;
  place = starts;
  invocation = not_yet;
  result = none;
  failed = false;
}

-- AwaitReady, and GetResult if it is
abbrev await_ready : Option ℕ → State → State
await_ready none s = record s { place = not_ready }
await_ready (some v) s = record s { result = some v; place = returned v }

-- Subscribe
abbrev subscribe : Option ℕ → State → State
subscribe none s = record s { place = waits; subscribed = true }
subscribe (some v) s = record s { place = waits; invocation = emplacing }

abbrev get_result : Option ℕ → State → State
get_result none s = record s { failed = true }
get_result (some v) s = record s { place = returned v }

-- Await
unfoldable pub await : Place → State → State
await starts s = await_ready s.produced s
await not_ready s = record s { place = suspended }
await suspended s = record s { place = subscribing }
await subscribing s = subscribe s.produced s
await waits s = s
await scheduled s = get_result s.result s
await (returned v) s = s

-- SetResult, the first one
unfoldable pub produce : Option ℕ → ℕ → State → State
produce (some old) v s = s
produce none v s = record s {
  produced = some v;
  invocation = if s.subscribed then emplacing else s.invocation;
}

-- Resume, with its check
abbrev resume : Place → State → State
resume suspended s = record s { place = scheduled; invocation = invoked }
resume subscribing s = record s { place = scheduled; invocation = invoked }
resume waits s = record s { place = scheduled; invocation = invoked }
resume _ s = record s { failed = true }

-- Invoke
unfoldable pub invoke : Invocation → State → State
invoke not_yet s = s
invoke emplacing s = record s { result = s.produced; invocation = resuming }
invoke resuming s = resume s.place s
invoke invoked s = s

unfoldable pub step : Event → State → State
unfolding await produce invoke
step fiber_acts s = await s.place s
step (produces v) s = produce s.produced v s
step callback_acts s = invoke s.invocation s

pub run : List Event → State → State
unfolding step
run [] s = s
run (e ∷ es) s = run es (step e s)

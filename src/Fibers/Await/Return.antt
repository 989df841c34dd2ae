-- ===== src/Fibers/Await/Return.antt =====
-- Await returns the result of the future, in every order of the actions.
use magic_core.Prelude.{ℕ, ◌≡◌, Bool, true, false, Option, none, some, ◌==◌}
use magic_core.Fibers.Await.{
  Place, starts, not_ready, suspended, subscribing, waits, scheduled, returned, Invocation, not_yet,
  emplacing, resuming, invoked, State,
}

-- The fiber has not met the promise.
abbrev early : Place → Bool
early starts = true
early not_ready = true
early suspended = true
early subscribing = true
early _ = false

-- Before it meets the promise; when it waits for it; when the callback is on its way; and behind it.
abbrev fits : Place → Invocation → Option ℕ → Bool → Option ℕ → Bool
fits waits not_yet none true none = true
fits waits emplacing (some v) subscribed result = true
fits waits resuming (some v) subscribed (some w) = v == w
fits scheduled invoked (some v) subscribed (some w) = v == w
fits (returned w) not_yet (some v) subscribed result = v == w
fits (returned w) invoked (some v) subscribed result = v == w
fits place not_yet produced false none = early place
fits _ _ _ _ _ = false

record Inv (s : State) : Type 0 where
  stage : fits s.place s.invocation s.produced s.subscribed s.result ≡ true
  sane : s.failed ≡ false

-- The parts of a state, which the proof goes through.
abbrev state_of : Place → Invocation → Option ℕ → Bool → Option ℕ → State
state_of place invocation produced subscribed result = record {
  produced = produced;
  subscribed = subscribed;
  place = place;
  invocation = invocation;
  result = result;
  failed = false;
}

-- The fiber has no action of its own, and neither has the callback.
abbrev pub rests : Place → Invocation → Bool
rests waits not_yet = true
rests waits invoked = true
rests (returned v) not_yet = true
rests (returned v) invoked = true
rests _ _ = false

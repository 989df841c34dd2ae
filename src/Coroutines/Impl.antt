-- ===== src/Coroutines/Impl.antt =====
-- src/magic/coroutine/core/impl.h and impl.cpp, and coroutine.cpp. The context switches are those of
-- the sure library: what the routine does until it stops is an argument of `resume`.
use magic_core.Prelude.{ℕ, Bool, true, false, Option, none, some, if◌then◌else◌}

-- How a routine stops, once it is switched to: in Suspend, or behind the call of it in Run.
pub data Stop (S E : Type 0) : Type 0 where
  suspends : (place : S) → Stop S E
  returns : Stop S E
  throws : E → Stop S E

pub record CoroutineImpl (S E : Type 0) : Type 0 where
  pub place : S  -- where the routine goes on
  pub exception : Option E
  pub completed : Bool

-- What Resume does: it returns, or throws, or its assert fails.
pub data Resumed (E : Type 0) : Type 0 where
  back : Resumed E
  rethrown : E → Resumed E
  asserts : Resumed E

abbrev rethrow : {E : Type 0} → Option E → Resumed E
rethrow none = back
rethrow (some e) = rethrown e

module _ {S E : Type 0} where
  abbrev pub new_coroutine : S → CoroutineImpl S E
  new_coroutine place = record { place = place; exception = none; completed = false }

  -- Run up to the switch back to the caller
  abbrev run : Stop S E → CoroutineImpl S E → CoroutineImpl S E
  run (suspends place) c = record c { place = place }
  run returns c = record c { completed = true }
  run (throws e) c = record c { exception = some e; completed = true }

  unfoldable pub resume : Stop S E → CoroutineImpl S E → Resumed E × CoroutineImpl S E
  resume stop c =
      if c.completed then (asserts, c) else let c = run stop c in (rethrow c.exception, c)

  -- Coroutine::Resume, with the coroutine that is current on the thread: the result, the current one
  -- while the routine runs, and the one behind it, which the Defer sets on every way out.
  unfoldable pub resume_current :
      (self : ℕ)
      → Option ℕ
      → Stop S E
      → CoroutineImpl S E
      → (Resumed E × CoroutineImpl S E) × Option ℕ × Option ℕ
  unfolding resume
  resume_current self current stop c = (resume stop c, some self, current)

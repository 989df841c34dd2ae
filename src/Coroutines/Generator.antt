-- ===== src/Coroutines/Generator.antt =====
-- src/magic/coroutine/generator.h. A routine is a machine that sends a value, returns or throws in
-- each of its steps, so that it may also send for ever. A generator is known by a number.
pub mod Trace
use magic_core.Prelude.{
  ℕ, zero, suc, Bool, true, false, not, Option, none, some, List, [], ◌∷◌, if◌then◌else◌,
}
use magic_core.Coroutines.Impl.{
  Stop, suspends, returns, throws, CoroutineImpl, Resumed, back, rethrown, asserts, new_coroutine,
  resume,
}

pub data Act (S E T : Type 0) : Type 0 where
  sends : T → (rest : S) → Act S E T
  ends : Act S E T
  raises : E → Act S E T

pub record Generator (S E T : Type 0) : Type 0 where
  pub coroutine : CoroutineImpl S E
  pub value : Option T

-- What Receive does.
pub data Received (E T : Type 0) : Type 0 where
  gives : Option T → Received E T
  thrown : E → Received E T
  aborts : Received E T

module _ {S E T : Type 0} (routine : S → Act S E T) (self : ℕ) where
  abbrev pub new_generator : S → Generator S E T
  new_generator start = record { coroutine = new_coroutine start; value = none }

  -- SetValue, where the routine sends
  abbrev set_value : Act S E T → Generator S E T → Stop S E × Generator S E T
  set_value (sends v rest) g = (suspends rest, record g { value = some v })
  set_value ends g = (returns, g)
  set_value (raises e) g = (throws e, g)

  -- GenerateNextValue behind Resume; an exception leaves without setting the pointer of the thread.
  abbrev generated :
      Resumed E → (current : Option ℕ) → Generator S E T → Received E T × Option ℕ × Generator S E T
  generated back current g =
      (gives (if not g.coroutine.completed then g.value else none), current, g)
  generated (rethrown e) current g = (thrown e, some self, g)
  generated asserts current g = (aborts, some self, g)

  unfoldable pub generate_next_value :
      (current : Option ℕ) → Generator S E T → Received E T × Option ℕ × Generator S E T
  unfolding resume
  generate_next_value current g =
      if g.coroutine.completed
      then (gives none, current, g)
      else let (stop, g) = set_value (routine g.coroutine.place) g in
        let (resumed, c) = resume stop g.coroutine in
        generated resumed current (record g { coroutine = c })

  -- Receive, called `n` times, which a caller catches the exceptions of.
  pub receive_many :
      (n : ℕ)
      → (current : Option ℕ) → Generator S E T
      → List (Received E T) × Option ℕ × Generator S E T
  unfolding generate_next_value
  receive_many zero current g = ([], current, g)
  receive_many (suc n) current g =
      let (result, current, g) = generate_next_value current g in
      let (results, current, g) = receive_many n current g in (result ∷ results, current, g)

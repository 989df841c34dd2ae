-- ===== src/Lockfree/Stack/Examples.antt =====
-- Two threads meet at the top of the stack: one of them takes the node, and the other one, which
-- still holds it, deletes it. Then the rest is consumed.
use magic_core.Prelude.{
  ℕ, ◌+◌, ◌<◌, ◌≡◌, ◌↔◌, refl, true, false, Option, none, some, List, [], ◌∷◌, arith,
}
use magic_core.Prelude.Occurs.{occurs}
use magic_core.Lockfree.Stack.{
  State, Event, pushes, acts, init, run, step, push, advance, acquire_ref, swap, take, walk,
  consume, increment_global,
}
use magic_core.Lockfree.Stack.Invariant.{linked, holders}
use magic_core.Lockfree.Stack.Safety.{stack_memory}

abbrev meeting : List Event
meeting =
    pushes
    ∷ pushes
    ∷ acts 0 true
    ∷ acts 1 true
    ∷ acts 1 true
    ∷ acts 0 false
    ∷ acts 1 true
    ∷ acts 0 true
    ∷ acts 1 false
    ∷ acts 1 true
    ∷ []

abbrev get : Option State → State
get none = init 0
get (some s) = s

abbrev met : State
met = get (run meeting (init 2))

met_state : (met.consumed ≡ 0 ∷ 1 ∷ []) × (met.alive 0 ≡ false) × (met.alive 1 ≡ false)
unfolding run step push advance acquire_ref swap take walk consume increment_global
met_state = (refl, refl, refl)

stack_memory_example :
    (met.failed ≡ false)
    × ((n : ℕ) → n < met.fresh → linked n met + occurs n met.consumed ≡ 1)
    × ((n : ℕ) → (met.alive n ≡ true) ↔ (0 < linked n met + holders n met))
unfolding run step push advance acquire_ref swap take walk consume increment_global
stack_memory_example = stack_memory 2 meeting met refl (omega arith)

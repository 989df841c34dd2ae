-- ===== src/Memory/Ref/Examples.antt =====
-- Two objects and three variables: copies, an assignment to itself, Release and Adopt.
use magic_core.Prelude.{
  ℕ, ◌+◌, ◌≡◌, ◌≢◌, ◌↔◌, refl, true, false, Option, none, some, List, [], ◌∷◌, arith,
}
use magic_core.Prelude.Occurs.{occurs}
use magic_core.Memory.Ref.{
  State, Event, makes, copies, assigns, releases, adopts, dies, resets, init, run, step,
}
use magic_core.Memory.Ref.Invariant.{owners}
use magic_core.Memory.Ref.Ownership.{ref_ownership}

abbrev life : List Event
life =
    makes 0
    ∷ copies 1 0
    ∷ assigns 1 1
    ∷ makes 2
    ∷ assigns 0 2
    ∷ releases 1
    ∷ dies 1
    ∷ adopts 1 0
    ∷ dies 1
    ∷ resets 2
    ∷ []

abbrev get : Option State → State
get none = init 0
get (some s) = s

-- The first object is deleted with its last reference, and the second one is not.
abbrev lived : State
lived = get (run life (init 3))

lived_state : (lived.alive 0 ≡ false) × (lived.alive 1 ≡ true) × (lived.count 1 ≡ 1)
unfolding run step
lived_state = (refl, refl, refl)

ref_ownership_example :
    (lived.failed ≡ false)
    × ((o : ℕ)
        → (lived.count o ≡ owners o lived.refs + occurs o lived.raw)
          × ((lived.alive o ≡ true) ↔ (owners o lived.refs + occurs o lived.raw ≢ 0)))
unfolding run step
ref_ownership_example = ref_ownership 3 life lived (omega arith) refl

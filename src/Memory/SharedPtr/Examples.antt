-- ===== src/Memory/SharedPtr/Examples.antt =====
-- Shared pointers to two objects, and one in an atomic cell.
use magic_core.Prelude.{
  ℕ, ◌≡◌, ◌≢◌, ◌↔◌, refl, true, false, Option, none, some, List, [], ◌∷◌, arith,
}
use magic_core.Memory.SharedPtr.{
  State, Event, makes, copies, assigns, swaps, resets, init, run, step,
}
use magic_core.Memory.Ref.Invariant.{owners}
use magic_core.Memory.SharedPtr.Ownership.{shared_ownership}
use magic_core.Memory.SharedPtr.Atomic.{
  Cell, init_cell, load, store, acquire_ref, store_value, drop_old, add_stored, load_deletes,
}

abbrev life : List Event
life = makes 0 ∷ copies 1 0 ∷ assigns 1 1 ∷ makes 2 ∷ swaps 0 2 ∷ assigns 2 0 ∷ resets 1 ∷ []

abbrev get : Option State → State
get none = init 0
get (some s) = s

-- The first object is deleted with its last owner, and the second one has two.
abbrev lived : State
lived = get (run life (init 3))

lived_state : (lived.alive 0 ≡ false) × (lived.alive 1 ≡ true) × (lived.strong 1 ≡ 2)
unfolding run step
lived_state = (refl, refl, refl)

shared_ownership_example :
    (lived.failed ≡ false)
    × ((b : ℕ)
        → (lived.strong b ≡ owners b lived.refs)
          × (lived.transient b ≡ owners b lived.refs)
          × ((lived.alive b ≡ true) ↔ (owners b lived.refs ≢ 0)))
unfolding run step
shared_ownership_example = shared_ownership 3 life lived (omega arith) refl

-- A pointer is stored, and its variable is reset: the cell has the only reference.
abbrev get_both : Option (Cell × State) → Cell × State
get_both none = (init_cell, init 0)
get_both (some x) = x

abbrev stored : Cell × State
stored = get_both (store 0 (init_cell, get (run (makes 0 ∷ []) (init 2))))

abbrev alone : State
alone = get (run (resets 0 ∷ []) stored.1)

load_deletes_example :
    (d : Cell) × (t u : State) × (load 1 (stored.0, alone) ≡ some (d, t))
    × (step (resets 1) t ≡ some u)
    × (d.ptr ≡ some 0)
    × (u.alive 0 ≡ false)
unfolding run step store load acquire_ref store_value drop_old add_stored
load_deletes_example = load_deletes 1 0 stored.0 alone refl refl refl (refl, refl)

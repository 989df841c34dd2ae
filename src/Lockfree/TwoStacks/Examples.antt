-- ===== src/Lockfree/TwoStacks/Examples.antt =====
-- Two values are put and moved, one is taken, and a third one comes in between.
use magic_core.Prelude.{◌≡◌, refl, some, List, [], ◌∷◌, ◌++◌}
use magic_core.Lockfree.TwoStacks.{
  Place, outside, popping, State, Event, puts, acts, init, put_value, advance, step, run,
}
use magic_core.Lockfree.TwoStacks.Fifo.{contents, queue_fifo}

abbrev events : List Event
events =
    puts 5 ∷ puts 6 ∷ acts 0 ∷ acts 0 ∷ acts 0 ∷ puts 7 ∷ acts 0 ∷ acts 0 ∷ acts 0 ∷ acts 0 ∷ []

abbrev final : List Place → State
final consumers = record {
  main = 7 ∷ [];
  reserve = 6 ∷ [];
  consumers = consumers;
  put = 5 ∷ 6 ∷ 7 ∷ [];
  taken = 5 ∷ [];
}

reached : run events (init 1) ≡ some (final (popping ∷ []))
unfolding run step put_value advance
reached = refl

queue_fifo_example :
    (p : Place) × ((final (popping ∷ [])).consumers ≡ p ∷ [])
    × ((final (popping ∷ [])).taken ++ contents p (final (popping ∷ [])) ≡ 5 ∷ 6 ∷ 7 ∷ [])
queue_fifo_example = queue_fifo events (final (popping ∷ [])) reached

both_reached : run events (init 2) ≡ some (final (popping ∷ outside ∷ []))
unfolding run step put_value advance
both_reached = refl

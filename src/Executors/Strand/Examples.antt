-- ===== src/Executors/Strand/Examples.antt =====
-- Runs of the strand: two threads put tasks, the second while the first task is being run.
use magic_core.Prelude.{
  ℕ, ◌≤◌, ◌≡◌, refl, List, [], ◌∷◌, ◌++◌, some, none, Option, arith, ◌-◌, length, reverse, true,
  false, ◌↔◌, ◌^◌,
}
use magic_core.Intrusive.{plain_list}
use magic_core.Lockfree.Queue.{take_all}
use magic_core.Executors.Strand.{State, Event, puts, announces, advances, releases, init, run, step}
use magic_core.Executors.Strand.Order.{pending}
use magic_core.Executors.Strand.Safety.{strand_serial, strand_quiescent, strand_lifetime}
use magic_core.Executors.Strand.Progress.{Drains, strand-Drains}

abbrev get : Option (State (List ℕ)) → State (List ℕ)
get none = init
get (some s) = s

-- The second task is put before the first batch takes the queue, and announced after it has run.
abbrev late_announce : List Event
late_announce =
    puts 7
    ∷ announces
    ∷ advances 0
    ∷ puts 8
    ∷ advances 0
    ∷ advances 0
    ∷ advances 0
    ∷ advances 0
    ∷ []

abbrev to_the_end : List Event
to_the_end = late_announce ++ announces ∷ releases ∷ []

abbrev late : State (List ℕ)
late = get (run (plain_list ℕ) late_announce init)

late_state : (late.ran ≡ 7 ∷ 8 ∷ []) × (late.counter ≡ 2 ^ 64 - 1) × (late.jobs ≡ [])
unfolding run step take_all
late_state = (refl, refl, refl)

ended : State (List ℕ)
unfolding run step take_all
ended = get (run (plain_list ℕ) to_the_end init)

ended-run : run (plain_list ℕ) to_the_end init ≡ some ended
unfolding ended
ended-run = refl

strand_serial_example :
    (length ended.jobs ≤ 1)
    × (ended.ran ++ (pending (plain_list ℕ) ended.jobs ++ reverse ended.tasks) ≡ ended.log)
strand_serial_example =
    strand_serial (plain_list ℕ) to_the_end ended (unfold ended in omega arith) ended-run

strand_quiescent_example : (ended.ran ≡ ended.log) × (ended.tasks ≡ []) × (ended.counter ≡ 0)
unfolding ended
strand_quiescent_example =
    strand_quiescent (plain_list ℕ) to_the_end ended (omega arith) refl refl refl

strand_lifetime_example :
    (ended.destroyed ≡ true) ↔ ((ended.owned ≡ false) × (ended.jobs ≡ []) × (ended.releasing ≡ 0))
unfolding ended
strand_lifetime_example = strand_lifetime (plain_list ℕ) to_the_end ended (omega arith) refl

strand-Drains_example : Drains (plain_list ℕ) late
unfolding run step take_all
strand-Drains_example = strand-Drains (plain_list ℕ) late_announce late (omega arith) refl

-- ===== src/Futures/Contract/Examples.antt =====
-- A contract whose future is moved to another executor while the promise is being set.
use magic_core.Prelude.{ℕ, ◌≡◌, refl, false, Option, none, some, List, [], ◌∷◌}
use magic_core.Futures.Contract.{
  World, received, Event, sets, produces, completes, reroutes, subscribes, consumes, polls, init,
  step, run,
}
use magic_core.Futures.Contract.Once.{due, result_of, contract_once}

abbrev race : List (Event ℕ ℕ)
race = sets 42 ∷ reroutes 2 ∷ subscribes 5 ∷ consumes ∷ produces ∷ completes ∷ []

abbrev get : Option (World ℕ ℕ) → World ℕ ℕ
get none = init 1
get (some w) = w

after_race : World ℕ ℕ
unfolding run step
after_race = get (run race (init 1))

after_race_executed : after_race.executed ≡ (2, 5, 42) ∷ []
unfolding after_race
after_race_executed = refl

polled : (get (run (sets 7 ∷ polls ∷ produces ∷ polls ∷ []) (init 1))).consumer ≡ received 7
unfolding run step
polled = refl

contract_once_example :
    (after_race.failed ≡ false)
    × (after_race.executed ≡ due after_race.shared.executor after_race.producer after_race.consumer)
    × ((r : ℕ) → after_race.consumer ≡ received r → result_of after_race.producer ≡ some r)
contract_once_example = contract_once 1 race after_race (unfold after_race in refl)

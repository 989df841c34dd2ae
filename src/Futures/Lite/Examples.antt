-- ===== src/Futures/Lite/Examples.antt =====
-- The orders in which Get returns, and one in which it does not.
use magic_core.Prelude.{◌≡◌, refl, true, false, [], ◌∷◌, some}
use magic_core.Futures.Lite.{returned, gets, sets, init, get, set_value, step, run}
use magic_core.Futures.Lite.Parking.{asleep, get_sleeps}

get_sleeps_example :
    (asleep (run (gets ∷ sets ∷ sets ∷ gets ∷ gets ∷ sets ∷ gets ∷ []) (init 7)).getter ≡ 1)
    × ((run (gets ∷ sets ∷ sets ∷ gets ∷ gets ∷ sets ∷ gets ∷ []) (init 7)).failed ≡ false)
    × ((run (gets ∷ sets ∷ sets ∷ gets ∷ gets ∷ sets ∷ gets ∷ []) (init 7)).result ≡ some 7)
get_sleeps_example = get_sleeps 7 (gets ∷ gets ∷ sets ∷ gets ∷ [])

parks_first :
    (run (gets ∷ gets ∷ gets ∷ sets ∷ sets ∷ sets ∷ gets ∷ []) (init 7)).getter ≡ returned 7
unfolding run step get set_value
parks_first = refl

set_first : (run (sets ∷ gets ∷ []) (init 7)).getter ≡ returned 7
unfolding run step get set_value
set_first = refl

-- Wake between the store of fiber_ and Suspend: the check in Resume fails.
resumed_early : (run (gets ∷ gets ∷ sets ∷ sets ∷ sets ∷ []) (init 7)).failed ≡ true
unfolding run step get set_value
resumed_early = refl

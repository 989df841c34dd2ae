-- ===== src/Sync/CondVar/Examples.antt =====
-- Two fibers wait, and only one of them has parked when the third one notifies all.
use magic_core.Prelude.{◌<◌, ℕ, ◌≡◌, refl, Option, none, some, List, [], ◌∷◌, ◌++◌, arith}
use magic_core.Intrusive.{plain_list}
use magic_core.Sync.CondVar.{
  State, Event, acts, wait, notify_all, init, step, run, advance, park_if_equal, wake_one, wake_all,
  wake, resume,
}
use magic_core.Sync.CondVar.Wakeup.{condvar_wakeup}

abbrev join : List ℕ → List ℕ → List ℕ
join xs ys = xs ++ ys

abbrev get : Option (State (List ℕ)) → State (List ℕ)
get none = init (plain_list ℕ) join 0
get (some s) = s

abbrev before : List Event
before = acts 0 wait ∷ acts 1 wait ∷ acts 1 wait ∷ []

abbrev behind : List Event
behind = acts 0 wait ∷ acts 2 wait ∷ acts 2 wait ∷ acts 0 wait ∷ acts 0 wait ∷ acts 0 wait ∷ []

abbrev crowd : State (List ℕ)
crowd = get (run (plain_list ℕ) join before (init (plain_list ℕ) join 3))

abbrev notified : State (List ℕ)
notified = get (step (plain_list ℕ) join (acts 2 notify_all) crowd)

abbrev later : State (List ℕ)
later = get (run (plain_list ℕ) join behind notified)

later_state : (later.waiters ≡ 0 ∷ []) × (later.epoch ≡ 1)
unfolding run step advance park_if_equal wake_one wake_all wake resume
later_state = (refl, refl)

condvar_wakeup_example : crowd.epoch < 1
unfolding run step advance park_if_equal wake_one wake_all wake resume
condvar_wakeup_example =
    condvar_wakeup (plain_list ℕ) join 2 behind crowd notified later refl refl refl (omega arith) 0
      1 refl (omega arith)

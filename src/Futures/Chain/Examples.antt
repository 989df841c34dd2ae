-- ===== src/Futures/Chain/Examples.antt =====
-- A chain whose first continuation fails, which recovers and goes on with an inner chain; and one
-- whose error handler throws.
use magic_core.Prelude.{
  ℕ, suc, length, ◌≤◌, ◌+◌, ◌*◌, ◌≡◌, refl, false, Option, none, some, List, [], ◌∷◌, ◌==◌,
  if◌then◌else◌, All,
}
use magic_core.Futures.Chain.{
  ok, failure, Steps, subscribe, via, Cell, spent, then_sync, then_async, recover, State, init,
  start, run, step, execute, flattened, invoke, chain, build, perform, set_result, set_slot,
  set_callback, callback_slot, set_executor,
}
use magic_core.Futures.Chain.Meaning.{eval, to_list}
use magic_core.Futures.Chain.Equivalence.{chain_equivalent, chain-Ends}
use magic_core.Futures.Chain.Work.{build_work}

abbrev steps : Steps ℕ
steps = via 2 (
    then_sync (λ v. if v == 3 then failure 7 else ok (v + 1))
      (recover (λ e. some (ok 10))
        (then_async (λ v. some (1, ok (v * 2))) (λ v. then_sync (λ w. ok (v + w)) subscribe)
          subscribe)))

abbrev get : Option (State ℕ) → State ℕ
get none = init
get (some s) = s

abbrev schedule : List ℕ
schedule = 0 ∷ 0 ∷ 0 ∷ 1 ∷ 0 ∷ 0 ∷ 0 ∷ 1 ∷ 0 ∷ 0 ∷ 0 ∷ 0 ∷ 0 ∷ 0 ∷ 0 ∷ []

abbrev done : ℕ → Cell ℕ
done e = record { executor = e; slot = spent }

abbrev ended : State ℕ
ended = record {
  cells = done 2 ∷ done 2 ∷ done 2 ∷ done 2 ∷ done 1 ∷ done 1 ∷ [];
  pool = [];
  reported = ok 30 ∷ [];
  lost = 0;
  failed = false;
}

reached : run schedule (start 0 (ok 3) steps) ≡ some ended
unfolding run step start execute flattened invoke chain build perform set_result set_slot
    set_callback callback_slot set_executor
reached = refl

chain_equivalent_example :
    (ended.failed ≡ false)
    × All (λ a. some a ≡ eval steps (some (ok 3))) ended.reported
    × (ended.pool ≡ [] → ended.reported ≡ to_list (eval steps (some (ok 3))))
chain_equivalent_example = chain_equivalent 0 (ok 3) steps schedule ended reached

chain-Ends_example :
    (length schedule ≤ suc (build_work steps (some (ok 3))))
    × ((ks : List ℕ) × (t : State ℕ) × (run ks ended ≡ some t)
        × (t.pool ≡ [])
        × (t.reported ≡ to_list (eval steps (some (ok 3)))))
chain-Ends_example = chain-Ends 0 (ok 3) steps schedule ended reached

-- The handler throws: the promise dies in the lambda, and nobody is told.
abbrev silent : State ℕ
silent = get (run (0 ∷ 0 ∷ 0 ∷ 0 ∷ []) (start 0 (failure 1) (recover (λ e. none) subscribe)))

silent_state : (silent.pool ≡ []) × (silent.reported ≡ []) × (silent.lost ≡ 1)
unfolding run step start execute flattened invoke chain build perform set_result set_slot
    set_callback callback_slot set_executor
silent_state = (refl, refl, refl)

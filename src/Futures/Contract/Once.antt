-- ===== src/Futures/Contract/Once.antt =====
-- The callback of a future runs once, with the result of its promise.
use magic_core.Prelude.{
  ℕ, ◌+◌, ◌≡◌, inl, inr, false, Option, none, some, List, [], ◌∷◌, arith, Option-cases, subst,
}
use magic_core.Futures.Contract.{
  Producer, unset, emplaced, completing, set_done, Consumer, subscribed, invoking, consumed,
  received, World, Event, sets, produces, completes, reroutes, subscribes, consumes, invokes, polls,
  init, step, run,
}

abbrev producer_state : {R : Type 0} → Producer R → ℕ
producer_state (completing r) = 2
producer_state (set_done r) = 2
producer_state _ = 0

abbrev pub result_of : {R : Type 0} → Producer R → Option R
result_of unset = none
result_of (emplaced r) = some r
result_of (completing r) = some r
result_of (set_done r) = some r

module _ {R C : Type 0} where
  abbrev consumer_state : Consumer R C → ℕ
  consumer_state (invoking c) = 1
  consumer_state (consumed c) = 1
  consumer_state (received r) = 1
  consumer_state _ = 0

  abbrev pub callback_of : Consumer R C → Option C
  callback_of (subscribed c) = some c
  callback_of (invoking c) = some c
  callback_of (consumed c) = some c
  callback_of _ = none

  -- What was executed, from where the two ends stand.
  abbrev pub due : ℕ → Producer R → Consumer R C → List (ℕ × C × R)
  due executor (set_done r) (consumed c) = (executor, c, r) ∷ []
  due executor _ _ = []

  -- The end that completes the rendezvous has found the other one there.
  abbrev Meets : Producer R → Consumer R C → Type 0
  Meets (completing r) (consumed c) = Unit
  Meets (completing r) _ = ⊥
  Meets (set_done r) (invoking c) = Unit
  Meets (set_done r) (received r') = r ≡ r'
  Meets _ (invoking c) = ⊥
  Meets _ (received r) = ⊥
  Meets _ _ = Unit

  record Inv (w : World R C) : Type 0 where
    state : w.shared.state ≡ producer_state w.producer + consumer_state w.consumer
    result : w.shared.result ≡ result_of w.producer
    callback : w.shared.callback ≡ callback_of w.consumer
    meets : Meets w.producer w.consumer
    done : w.executed ≡ due w.shared.executor w.producer w.consumer
    sane : w.failed ≡ false

  step-Inv : (e : Event R C) (w v : World R C) → Inv w → step e w ≡ some v → Inv v
  unfolding step
  step-Inv (sets r) w v i e = ground arith
  step-Inv produces w v i e = ground arith
  step-Inv completes w v i e = ground arith
  step-Inv (reroutes x) w v i e = ground arith
  step-Inv (subscribes c) w v i e = ground arith
  step-Inv consumes w v i e = ground arith
  step-Inv invokes w v i e = ground arith
  step-Inv polls w v i e = ground arith

  received_lem :
      (p : Producer R) (c : Consumer R C)
      → Meets p c
      → (r : R) → c ≡ received r
      → result_of p ≡ some r
  received_lem unset c m r e = ground arith
  received_lem (emplaced x) c m r e = ground arith
  received_lem (completing x) c m r e = ground arith
  received_lem (set_done x) c m r e = ground arith

  run-Inv : (es : List (Event R C)) (w v : World R C) → Inv w → run es w ≡ some v → Inv v
  unfolding run
  run-Inv [] w v i e = subst Inv (ground arith) i
  run-Inv (x ∷ es) w v i e = elim (Option-cases (step x w)) [
    | inl stuck ↦ absurd (ground arith)
    | inr (u, moved) ↦ run-Inv es u v (step-Inv x w u i moved) (ground arith)
  ]

  init-Inv : (executor : ℕ) → Inv (init executor)
  init-Inv executor = ground arith

  reach-Inv :
      (executor : ℕ) (es : List (Event R C)) (w : World R C)
      → run es (init executor) ≡ some w
      → Inv w
  reach-Inv executor es w e = run-Inv es (init executor) w (init-Inv executor) e

  -- Whatever the order in which the two ends of a contract act, nothing panics and no check fails.
  -- A callback has been passed to an executor exactly when the promise was set and a subscription
  -- was made and both are through, and then once: this callback, with this result, to the executor
  -- that the future had last. A result that was polled is the one that was set.
  pub contract_once :
      (executor : ℕ) (es : List (Event R C)) (w : World R C)
      → run es (init executor) ≡ some w
      → (w.failed ≡ false)
        × (w.executed ≡ due w.shared.executor w.producer w.consumer)
        × ((r : R) → w.consumer ≡ received r → result_of w.producer ≡ some r)
  contract_once executor es w e =
      let i = reach-Inv executor es w e in
      (i.sane, i.done, λ r at_end. received_lem w.producer w.consumer i.meets r at_end)

-- ===== src/Futures/Chain/Meaning.antt =====
-- What a chain of futures is for: its result, as a function of the results of its parts, and what
-- each callback makes of its future. `none` is a future that never gets its result.
use magic_core.Prelude.{ℕ, ◌≡◌, refl, Option, none, some, List, [], ◌∷◌}
use magic_core.Futures.Chain.{
  Answer, ok, failure, Steps, subscribe, via, then_sync, then_async, recover, Callback, maps,
  flattens, recovers, passes,
}

module _ {V : Type 0} where
  abbrev pub map_answer : (V → Answer V) → Option (Answer V) → Option (Answer V)
  map_answer f none = none
  map_answer f (some (ok v)) = some (f v)
  map_answer f (some (failure e)) = some (failure e)

  abbrev pub bind_answer : (V → Option (Answer V)) → Option (Answer V) → Option (Answer V)
  bind_answer f none = none
  bind_answer f (some (ok v)) = f v
  bind_answer f (some (failure e)) = some (failure e)

  abbrev pub recover_answer : (ℕ → Option (Answer V)) → Option (Answer V) → Option (Answer V)
  recover_answer h none = none
  recover_answer h (some (ok v)) = some (ok v)
  recover_answer h (some (failure e)) = h e

  abbrev pub second : Option (ℕ × Answer V) → Option (Answer V)
  second none = none
  second (some (e, r)) = some r

  -- The result behind the steps
  unfoldable pub eval : Steps V → Option (Answer V) → Option (Answer V)
  eval subscribe x = x
  eval (via e steps) x = eval steps x
  eval (then_sync f steps) x = eval steps (map_answer f x)
  eval (then_async source inner steps) x =
      eval steps (bind_answer (λ v. eval (inner v) (second (source v))) x)
  eval (recover h steps) x = eval steps (recover_answer h x)

  -- What a callback sets its promise to
  unfoldable pub result_of : Callback V → Option (Answer V) → Option (Answer V)
  unfolding eval
  result_of (maps f p) = map_answer f
  result_of (flattens source inner p) = bind_answer λ v. eval (inner v) (second (source v))
  result_of (recovers h p) = recover_answer h
  result_of (passes p) = λ x. x

  abbrev pub to_list : Option (Answer V) → List (Answer V)
  to_list none = []
  to_list (some r) = r ∷ []

  pub eval-none : (steps : Steps V) → eval steps none ≡ none
  unfolding eval
  eval-none subscribe = refl
  eval-none (via e steps) = eval-none steps
  eval-none (then_sync f steps) = eval-none steps
  eval-none (then_async source inner steps) = eval-none steps
  eval-none (recover h steps) = eval-none steps

-- ===== src/Coroutines/Generator/Trace.antt =====
-- The values of a generator are those that its routine sends.
use magic_core.Prelude.{
  ℕ, zero, suc, ◌≡◌, refl, inl, inr, ◌⊎◌, true, false, Option, none, some, List, [], ◌∷◌, arith,
}
use magic_core.Coroutines.Impl.{resume}
use magic_core.Coroutines.Generator.{
  Act, sends, ends, raises, Generator, Received, gives, thrown, new_generator, generate_next_value,
  receive_many,
}

abbrev pub nothings : {E T : Type 0} → ℕ → List (Received E T)
nothings zero = []
nothings (suc n) = gives none ∷ nothings n

module _ {S E T : Type 0} where
  Act-cases :
      (a : Act S E T)
      → ((v : T) × (rest : S) × (a ≡ sends v rest)) ⊎ ((a ≡ ends) ⊎ ((e : E) × (a ≡ raises e)))
  Act-cases (sends v rest) = inl (v, rest, refl)
  Act-cases ends = inr (inl refl)
  Act-cases (raises e) = inr (inr (e, refl))

  module _ (routine : S → Act S E T) where
    -- The first `n` results, by the routine alone.
    unfoldable pub trace : ℕ → S → List (Received E T)
    trace zero s = []
    trace (suc n) s = elim (routine s) [
      | sends v rest ↦ gives (some v) ∷ trace n rest
      | ends ↦ gives none ∷ nothings n
      | raises e ↦ thrown e ∷ nothings n
    ]

    module _ (self : ℕ) where
      -- The pointer of the thread behind them: it is lost when the routine has thrown.
      unfoldable pub pointer : ℕ → S → Option ℕ → Option ℕ
      pointer zero s current = current
      pointer (suc n) s current = elim (routine s) [
        | sends v rest ↦ pointer n rest current
        | ends ↦ current
        | raises e ↦ some self
      ]

      -- A generator whose routine is at `s`
      abbrev at_place : S → Option T → Generator S E T
      at_place s value = record {
        coroutine = record { place = s; exception = none; completed = false };
        value = value;
      }

      completed_results :
          (n : ℕ) (current : Option ℕ) (g : Generator S E T)
          → g.coroutine.completed ≡ true
          → ((receive_many routine self n current g).0 ≡ nothings n)
            × ((receive_many routine self n current g).1 ≡ current)
      unfolding receive_many generate_next_value
      completed_results zero current g done = (refl, refl)
      completed_results (suc n) current g done =
          let (results, same) = completed_results n current g done in
          (ground (arith, done, results), ground (arith, done, same))

      place_results :
          (n : ℕ) (current : Option ℕ) (s : S) (value : Option T)
          → ((receive_many routine self n current (at_place s value)).0 ≡ trace n s)
            × ((receive_many routine self n current (at_place s value)).1 ≡ pointer n s current)
      unfolding receive_many generate_next_value resume trace pointer
      place_results zero current s value = (refl, refl)
      place_results (suc n) current s value = elim (Act-cases (routine s)) [
        | inl (v, rest, act) ↦
            let (results, same) = place_results n current rest (some v) in
            (ground (arith, act, results), ground (arith, act, same))
        | inr (inl act) ↦
            let g = record (at_place s value) {
              coroutine = record { place = s; exception = none; completed = true };
            } in
            let (results, same) = completed_results n current g refl in
            (ground (arith, act, results), ground (arith, act, same))
        | inr (inr (e, act)) ↦
            let g = record (at_place s value) {
              coroutine = record { place = s; exception = some e; completed = true };
            } in
            let (results, same) = completed_results n (some self) g refl in
            (ground (arith, act, results), ground (arith, act, same))
      ]

      -- Any number of calls of Receive, on a new generator over any routine: they give the values in
      -- the order in which the routine sends them, throw where it throws, and give nothing behind its
      -- end; no assert fails. The thread's pointer to the current generator is what it was before,
      -- unless the routine has thrown: then it stays at this generator.
      pub generator_trace :
          (n : ℕ) (current : Option ℕ) (start : S)
          → ((receive_many routine self n current (new_generator routine self start)).0
              ≡ trace n start)
            × ((receive_many routine self n current (new_generator routine self start)).1
                ≡ pointer n start current)
      generator_trace n current start = place_results n current start none

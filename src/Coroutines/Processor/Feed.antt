-- ===== src/Coroutines/Processor/Feed.antt =====
-- The routine of a processor receives the values that are sent, one by one.
use magic_core.Prelude.{
  ◌≡◌, refl, inl, inr, ◌⊎◌, Bool, true, false, Option, none, some, List, [], ◌∷◌, arith,
}
use magic_core.Coroutines.Impl.{Resumed, back, rethrown, asserts, resume}
use magic_core.Coroutines.Processor.{
  Act, receives, ends, raises, Place, starts, in_receive, Processor, new_processor, receive,
  set_value, send_many,
}

-- The assert in Resume, for each value that comes too late
abbrev pub late : {E T : Type 0} → List (Option T) → List (Resumed E)
late [] = []
late (value ∷ values) = asserts ∷ late values

module _ {S E T : Type 0} where
  Act-cases :
      (a : Act S E T)
      → ((k : Option T → S) × (a ≡ receives k)) ⊎ ((a ≡ ends) ⊎ ((e : E) × (a ≡ raises e)))
  Act-cases (receives k) = inl (k, refl)
  Act-cases ends = inr (inl refl)
  Act-cases (raises e) = inr (inr (e, refl))

  module _ (routine : S → Act S E T) where
    -- What the sends come to, by the routine alone: `k` is what it does with the next value.
    unfoldable pub fed : (Option T → S) → List (Option T) → List (Resumed E)
    fed k [] = []
    fed k (value ∷ values) = elim (routine (k value)) [
      | receives l ↦ back ∷ fed l values
      | ends ↦ back ∷ late values
      | raises e ↦ rethrown e ∷ late values
    ]

    -- A routine that does not receive before its end gets no value.
    unfoldable pub fed_from : S → List (Option T) → List (Resumed E)
    unfolding fed
    fed_from start [] = []
    fed_from start (value ∷ values) = elim (routine start) [
      | receives k ↦ fed k (value ∷ values)
      | ends ↦ back ∷ late values
      | raises e ↦ rethrown e ∷ late values
    ]

    -- The sends come to the results, and the processor stands somewhere.
    abbrev pub Comes : List (Option T) → Processor S E T → List (Resumed E) → Type 0
    Comes values p results =
        (q : Processor S E T) × (send_many routine values p ≡ some (results, q))

    completed_late :
        (values : List (Option T)) (p : Processor S E T)
        → p.coroutine.completed ≡ true
        → Comes values p (late values)
    unfolding send_many set_value
    completed_late [] p done = (p, refl)
    completed_late (value ∷ values) p done =
        let filled = record p { value = value; has_next_value = true } in
        let (q, rest) = completed_late values filled done in (q, ground (arith, done, rest))

    -- A processor whose routine is in Receive
    abbrev waiting : Place S T → Option T → Bool → Processor S E T
    waiting place value has_next = record {
      coroutine = record { place = place; exception = none; completed = false };
      value = value;
      has_next_value = has_next;
    }

    abbrev finished : Place S T → Option E → Option T → Bool → Processor S E T
    finished place exception value has_next = record {
      coroutine = record { place = place; exception = exception; completed = true };
      value = value;
      has_next_value = has_next;
    }

    waiting-fed :
        (values : List (Option T)) (k : Option T → S) (old : Option T)
        → Comes values (waiting (in_receive k) old false) (fed k values)
    unfolding send_many set_value receive resume fed
    waiting-fed [] k old = (waiting (in_receive k) old false, refl)
    waiting-fed (value ∷ values) k old = elim (Act-cases (routine (k value))) [
      | inl (l, act) ↦ let (q, rest) = waiting-fed values l value in (q, ground (arith, act, rest))
      | inr (inl act) ↦
          let (q, rest) = completed_late values (finished (in_receive k) none value false) refl in
          (q, ground (arith, act, rest))
      | inr (inr (e, act)) ↦
          let (q, rest) =
            completed_late values (finished (in_receive k) (some e) value false) refl in
          (q, ground (arith, act, rest))
    ]

    -- For every routine and every list of values (`none` is Close): each Send hands its value to the
    -- next Receive of the routine, in order, and returns when the routine receives again or returns;
    -- it throws where the routine throws; and the assert in Resume fails for a value that is sent
    -- behind the end of the routine, and for no other. The fuel of the model is enough.
    pub processor_fed :
        (values : List (Option T)) (start : S)
        → Comes values (new_processor routine start) (fed_from start values)
    unfolding send_many set_value receive resume fed_from fed
    processor_fed [] start = (new_processor routine start, refl)
    processor_fed (value ∷ values) start = elim (Act-cases (routine start)) [
      | inl (k, first) ↦ elim (Act-cases (routine (k value))) [
        | inl (l, act) ↦
            let (q, rest) = waiting-fed values l value in (q, ground (arith, first, act, rest))
        | inr (inl act) ↦
            let (q, rest) = completed_late values (finished (starts start) none value false) refl in
            (q, ground (arith, first, act, rest))
        | inr (inr (e, act)) ↦
            let (q, rest) =
              completed_late values (finished (starts start) (some e) value false) refl in
            (q, ground (arith, first, act, rest))
      ]
      | inr (inl first) ↦
          let (q, rest) = completed_late values (finished (starts start) none value true) refl in
          (q, ground (arith, first, rest))
      | inr (inr (e, first)) ↦
          let (q, rest) =
            completed_late values (finished (starts start) (some e) value true) refl in
          (q, ground (arith, first, rest))
    ]

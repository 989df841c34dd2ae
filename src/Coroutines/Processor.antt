-- ===== src/Coroutines/Processor.antt =====
-- src/magic/coroutine/processor.h. A routine is a machine that receives, returns or throws in each of
-- its steps. A processor is known by a number.
pub mod Feed
use magic_core.Prelude.{
  ℕ, zero, suc, Bool, true, false, Option, none, some, List, [], ◌∷◌, if◌then◌else◌,
}
use magic_core.Coroutines.Impl.{
  Stop, suspends, returns, throws, CoroutineImpl, Resumed, back, rethrown, asserts, new_coroutine,
  resume,
}

pub data Act (S E T : Type 0) : Type 0 where
  receives : (Option T → S) → Act S E T
  ends : Act S E T
  raises : E → Act S E T

-- Where the routine is: at its start, or in the loop of Receive.
pub data Place (S T : Type 0) : Type 0 where
  starts : S → Place S T
  in_receive : (Option T → S) → Place S T

pub record Processor (S E T : Type 0) : Type 0 where
  pub coroutine : CoroutineImpl (Place S T) E
  pub value : Option T
  pub has_next_value : Bool

module _ {S E T : Type 0} (routine : S → Act S E T) where
  abbrev pub new_processor : S → Processor S E T
  new_processor start = record {
    coroutine = new_coroutine (starts start);
    value = none;
    has_next_value = false;
  }

  -- Receive, with its loop and TakeValue, and the routine behind it up to where it stops. Each Receive
  -- tests has_next_value_ again; `none`: there are more of them than the fuel.
  unfoldable pub receive :
      (fuel : ℕ) → (Option T → S) → Processor S E T → Option (Stop (Place S T) E × Processor S E T)
  receive zero k p = none
  receive (suc fuel) k p = elim p.has_next_value [
    | false ↦ some (suspends (in_receive k), p)
    | true ↦
        let next = record p { has_next_value = false } in
        elim (routine (k p.value)) [
          | receives l ↦ receive fuel l next
          | ends ↦ some (returns, next)
          | raises e ↦ some (throws e, next)
        ]
  ]

  abbrev begun : ℕ → Act S E T → Processor S E T → Option (Stop (Place S T) E × Processor S E T)
  begun fuel (receives k) p = receive fuel k p
  begun fuel ends p = some (returns, p)
  begun fuel (raises e) p = some (throws e, p)

  abbrev go_on : ℕ → Place S T → Processor S E T → Option (Stop (Place S T) E × Processor S E T)
  go_on fuel (starts s) p = begun fuel (routine s) p
  go_on fuel (in_receive k) p = receive fuel k p

  -- SetValue: Send with a value, and Close with none. Fuel 2 is for the Receive that takes the value
  -- and for the one that suspends.
  unfoldable pub set_value : Option T → Processor S E T → Option (Resumed E × Processor S E T)
  unfolding receive resume
  set_value value p =
      let filled = record p { value = value; has_next_value = true } in
      if p.coroutine.completed
      then some (asserts, filled)
      else elim (go_on 2 p.coroutine.place filled) [
        | none ↦ none
        | some (stop, q) ↦
            let (resumed, c) = resume stop q.coroutine in some (resumed, record q { coroutine = c })
      ]

  -- Send and Close in any order, by a caller that catches the exceptions.
  pub send_many : List (Option T) → Processor S E T → Option (List (Resumed E) × Processor S E T)
  unfolding set_value
  send_many [] p = some ([], p)
  send_many (value ∷ values) p = elim (set_value value p) [
    | none ↦ none
    | some (result, q) ↦ elim (send_many values q) [
      | none ↦ none
      | some (results, r) ↦ some (result ∷ results, r)
    ]
  ]

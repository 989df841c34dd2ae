-- ===== src/Futures/Contract.antt =====
-- src/magic/futures/core/detail/shared_state.h, promise.h, future.h and concurrency/rendezvous.h:
-- the two ends of one contract, interleaved. One event is one atomic action.
pub mod Once
mod Examples
use Prim.Native.Nat.{bit_or}
use magic_core.Prelude.{
  ℕ, Bool, true, false, Option, none, some, List, [], ◌∷◌, ◌++◌, ◌==◌, if◌then◌else◌,
}

-- States::Producer and States::Consumer
abbrev producer_bit : ℕ
producer_bit = 2

abbrev consumer_bit : ℕ
consumer_bit = 1

-- Rendezvous::Produce and Consume: the result, and the new state. `none` is the panic.
pub produce : ℕ → Option (Bool × ℕ)
produce state =
    if state == 0
    then some (false, bit_or state producer_bit)
    else if state == consumer_bit
    then some (true, bit_or state producer_bit)
    else none

pub consume : ℕ → Option (Bool × ℕ)
consume state =
    if state == 0
    then some (false, bit_or state consumer_bit)
    else if state == producer_bit
    then some (true, bit_or state consumer_bit)
    else none

-- Rendezvous::Produced
abbrev pub produced : ℕ → Bool
produced state = state == producer_bit

-- `R` is the type of results, `C` that of callbacks; executors are numbered.
pub record SharedState (R C : Type 0) : Type 0 where
  pub executor : ℕ
  pub callback : Option C
  pub result : Option R
  pub state : ℕ

-- Where the promise stands in Promise::Set.
pub data Producer (R : Type 0) : Type 0 where
  unset : Producer R
  emplaced : R → Producer R  -- result_.emplace is done
  completing : R → Producer R  -- Produce has returned true
  set_done : R → Producer R

-- Where the future stands.
pub data Consumer (R C : Type 0) : Type 0 where
  pending : Consumer R C
  subscribed : C → Consumer R C  -- callback_ is written
  invoking : C → Consumer R C  -- Consume has returned true
  consumed : C → Consumer R C
  received : R → Consumer R C  -- GetResult has returned

pub record World (R C : Type 0) : Type 0 where
  pub shared : SharedState R C
  pub producer : Producer R
  pub consumer : Consumer R C
  pub executed : List (ℕ × C × R)  -- callbacks passed to an executor, with their result
  pub failed : Bool  -- a panic or a failed check

pub data Event (R C : Type 0) : Type 0 where
  sets : R → Event R C
  produces : Event R C
  completes : Event R C
  reroutes : (executor : ℕ) → Event R C  -- Via
  subscribes : C → Event R C
  consumes : Event R C
  invokes : Event R C
  polls : Event R C  -- IsReady, and GetResult if it holds

-- MakeContractVia
abbrev pub init : {R C : Type 0} → ℕ → World R C
init executor = record {
  shared = record { executor = executor; callback = none; result = none; state = 0 };
  producer = unset;
  consumer = pending;
  executed = [];
  failed = false;
}

module _ {R C : Type 0} where
  fail : World R C → World R C
  fail w = record w { failed = true }

  -- InvokeCallback, which reads both optional parts.
  dispatch : Option C → Option R → World R C → World R C
  unfolding fail
  dispatch none r w = fail w
  dispatch (some c) none w = fail w
  dispatch (some c) (some r) w = record w {
    executed = w.executed ++ (w.shared.executor, c, r) ∷ [];
  }

  invoke_callback : World R C → World R C
  unfolding dispatch
  invoke_callback w = dispatch w.shared.callback w.shared.result w

  set_state : ℕ → World R C → World R C
  set_state n w = record w { shared = record (w.shared) { state = n } }

  act_produce : R → World R C → World R C
  unfolding produce set_state fail
  act_produce r w = elim (produce w.shared.state) [
    | none ↦ fail w
    | some (both, n) ↦ record (set_state n w) {
      producer = if both then completing r else set_done r;
    }
  ]

  act_consume : C → World R C → World R C
  unfolding consume set_state fail
  act_consume c w = elim (consume w.shared.state) [
    | none ↦ fail w
    | some (both, n) ↦ record (set_state n w) { consumer = if both then invoking c else consumed c }
  ]

  -- GetResult: WHEELS_VERIFY(state_.Consume()), then *result_.
  get_result : World R C → World R C
  unfolding consume set_state fail
  get_result w = elim (consume w.shared.state) [
    | none ↦ fail w
    | some (both, n) ↦
        if both
        then elim w.shared.result [
          | none ↦ fail w
          | some r ↦ record (set_state n w) { consumer = received r }
        ]
        else fail w
  ]

  act_poll : World R C → World R C
  unfolding get_result
  act_poll w = if produced w.shared.state then get_result w else w

  -- What the producer does next; `none`: the event is not its next action.
  produce_event : Event R C → Producer R → World R C → Option (World R C)
  unfolding act_produce invoke_callback
  produce_event (sets r) unset w =
      some (record w { shared = record (w.shared) { result = some r }; producer = emplaced r })
  produce_event produces (emplaced r) w = some (act_produce r w)
  produce_event completes (completing r) w =
      some (record (invoke_callback w) { producer = set_done r })
  produce_event _ _ w = none

  consume_event : Event R C → Consumer R C → World R C → Option (World R C)
  unfolding act_consume invoke_callback act_poll
  consume_event (reroutes e) pending w =
      some (record w { shared = record (w.shared) { executor = e } })
  consume_event (subscribes c) pending w =
      some (record w { shared = record (w.shared) { callback = some c }; consumer = subscribed c })
  consume_event polls pending w = some (act_poll w)
  consume_event consumes (subscribed c) w = some (act_consume c w)
  consume_event invokes (invoking c) w = some (record (invoke_callback w) { consumer = consumed c })
  consume_event _ _ w = none

  pub step : Event R C → World R C → Option (World R C)
  unfolding produce_event consume_event
  step (sets r) w = produce_event (sets r) w.producer w
  step produces w = produce_event produces w.producer w
  step completes w = produce_event completes w.producer w
  step (reroutes e) w = consume_event (reroutes e) w.consumer w
  step (subscribes c) w = consume_event (subscribes c) w.consumer w
  step polls w = consume_event polls w.consumer w
  step consumes w = consume_event consumes w.consumer w
  step invokes w = consume_event invokes w.consumer w

  pub run : List (Event R C) → World R C → Option (World R C)
  run [] w = some w
  run (e ∷ es) w = elim (step e w) [ none ↦ none | some v ↦ run es v ]

-- ===== src/Futures/Chain.antt =====
-- Then, Recover, Via and Subscribe of src/magic/futures/core/future.h, and futures/execute.h: chains
-- of futures. A contract is here what Contract.Once shows of it: each end acts in one action. Values
-- have one type, and a function that throws gives `none`, or an error where Invoke catches it.
pub mod Meaning
pub mod Invariant
pub mod Hands
pub mod Actions
pub mod Growth
pub mod Work
pub mod Preservation
pub mod Combination
pub mod Schedule
pub mod Equivalence
mod Examples
use magic_core.Prelude.{
  ℕ, zero, suc, ◌+◌, Bool, true, false, Option, none, some, List, [], ◌∷◌, ◌++◌, length, get_elem?,
  set, erase_idx,
}

-- Result<T>
pub data Answer (V : Type 0) : Type 0 where
  ok : V → Answer V
  failure : (error : ℕ) → Answer V

-- What is called on a future, in the order of the calls, up to its subscription.
pub data Steps (V : Type 0) : Type 0 where
  subscribe : Steps V
  via : (executor : ℕ) → Steps V → Steps V
  then_sync : (V → Answer V) → Steps V → Steps V
  -- Its continuation runs futures::Execute, and calls steps on the future that it returns.
  then_async : (V → Option (ℕ × Answer V)) → (V → Steps V) → Steps V → Steps V
  recover : (ℕ → Option (Answer V)) → Steps V → Steps V

-- The lambdas that Subscribe takes, with the promise that they hold. The last one is the lambda of
-- the asynchronous Then, or without a promise the user's.
pub data Callback (V : Type 0) : Type 0 where
  maps : (V → Answer V) → (promise : ℕ) → Callback V
  flattens : (V → Option (ℕ × Answer V)) → (V → Steps V) → (promise : ℕ) → Callback V
  recovers : (ℕ → Option (Answer V)) → (promise : ℕ) → Callback V
  passes : (promise : Option ℕ) → Callback V

-- The rendezvous of one contract, and what it holds.
pub data Slot (V : Type 0) : Type 0 where
  empty : Slot V
  ready : Answer V → Slot V
  waits : Callback V → Slot V
  spent : Slot V

pub record Cell (V : Type 0) : Type 0 where
  pub executor : ℕ
  pub slot : Slot V

pub data Task (V : Type 0) : Type 0 where
  sets : (promise : ℕ) → Answer V → Task V  -- the task of futures::Execute
  calls : (executor : ℕ) → Callback V → Answer V → Task V  -- a callback that was executed
  builds : (future : ℕ) → Steps V → (promise : Option ℕ) → Task V  -- a thread calling steps

pub record State (V : Type 0) : Type 0 where
  pub cells : List (Cell V)
  pub pool : List (Task V)  -- what runs or will run, in any order
  pub reported : List (Answer V)  -- what the user's callback was called with
  pub lost : ℕ  -- promises that were destroyed unset
  pub failed : Bool  -- one end of a contract acted twice

module _ {V : Type 0} where
  -- executor_->Execute(task), or a thread that goes on
  abbrev pub add : Task V → State V → State V
  add t s = record s { pool = s.pool ++ t ∷ [] }

  abbrev pub put : ℕ → ℕ → Slot V → State V → State V
  put c executor slot s = record s {
    cells = set s.cells c (record { executor = executor; slot = slot });
  }

  abbrev pub fail : State V → State V
  fail s = record s { failed = true }

  -- MakeContractVia: the contract has the next number.
  abbrev pub make_contract_via : ℕ → State V → State V
  make_contract_via executor s = record s {
    cells = s.cells ++ record { executor = executor; slot = empty } ∷ [];
  }

  set_slot : ℕ → ℕ → Answer V → Slot V → State V → State V
  set_slot p executor r empty s = put p executor (ready r) s
  set_slot p executor r (waits cb) s = add (calls executor cb r) (put p executor spent s)
  set_slot p executor r _ s = fail s

  -- Promise::Set, SetValue and SetError
  pub set_result : ℕ → Answer V → State V → State V
  unfolding set_slot
  set_result p r s = elim (get_elem? s.cells p) [
    | none ↦ fail s
    | some cell ↦ set_slot p cell.executor r cell.slot s
  ]

  callback_slot : ℕ → ℕ → Callback V → Slot V → State V → State V
  callback_slot c executor cb empty s = put c executor (waits cb) s
  callback_slot c executor cb (ready r) s = add (calls executor cb r) (put c executor spent s)
  callback_slot c executor cb _ s = fail s

  -- Future::Subscribe
  pub set_callback : ℕ → Callback V → State V → State V
  unfolding callback_slot
  set_callback c cb s = elim (get_elem? s.cells c) [
    | none ↦ fail s
    | some cell ↦ callback_slot c cell.executor cb cell.slot s
  ]

  -- Future::Via and GetExecutor
  pub set_executor : ℕ → ℕ → State V → State V
  set_executor c e s = elim (get_elem? s.cells c) [
    | none ↦ fail s
    | some cell ↦ put c e cell.slot s
  ]

  abbrev pub executor_of : ℕ → State V → ℕ
  executor_of c s = elim (get_elem? s.cells c) [ none ↦ 0 | some cell ↦ cell.executor ]

  -- The promise dies with the lambda, where UniqueCallback::Invoke has caught an exception.
  abbrev pub lose : State V → State V
  lose s = record s { lost = suc s.lost }

  -- futures::Execute, and the thread that goes on with its future
  pub execute : ℕ → Answer V → Steps V → Option ℕ → State V → State V
  execute executor r steps k s =
      let c = length s.cells in
      add (builds c steps k) (add (sets c r) (make_contract_via executor s))

  abbrev answered : ℕ → Option (Answer V) → State V → State V
  answered p none s = lose s
  answered p (some r) s = set_result p r s

  flattened : ℕ → Option (ℕ × Answer V) → Steps V → State V → State V
  unfolding execute
  flattened p none steps s = lose s
  flattened p (some (e, r)) steps s = execute e r steps (some p) s

  -- The bodies of the lambdas
  pub invoke : Callback V → Answer V → State V → State V
  unfolding set_result flattened
  invoke (maps f p) (ok v) s = set_result p (f v) s
  invoke (maps f p) (failure e) s = set_result p (failure e) s
  invoke (flattens source steps p) (ok v) s = flattened p (source v) (steps v) s
  invoke (flattens source steps p) (failure e) s = set_result p (failure e) s
  invoke (recovers h p) (ok v) s = set_result p (ok v) s
  invoke (recovers h p) (failure e) s = answered p (h e) s
  invoke (passes (some p)) r s = set_result p r s
  invoke (passes none) r s = record s { reported = s.reported ++ r ∷ [] }

  -- A combinator: a new contract takes the executor of the future, whose callback gets its promise.
  pub chain : ℕ → (ℕ → Callback V) → Steps V → Option ℕ → State V → State V
  unfolding set_callback
  chain c cb steps k s =
      let p = length s.cells in
      add (builds p steps k) (set_callback c (cb p) (make_contract_via (executor_of c s) s))

  pub build : ℕ → Steps V → Option ℕ → State V → State V
  unfolding set_callback set_executor chain
  build c subscribe k s = set_callback c (passes k) s
  build c (via e steps) k s = add (builds c steps k) (set_executor c e s)
  build c (then_sync f steps) k s = chain c (maps f) steps k s
  build c (then_async source inner steps) k s = chain c (flattens source inner) steps k s
  build c (recover h steps) k s = chain c (recovers h) steps k s

  pub perform : Task V → State V → State V
  unfolding set_result invoke build
  perform (sets p r) s = set_result p r s
  perform (calls e cb r) s = invoke cb r s
  perform (builds c steps k) s = build c steps k s

  -- One action of the task with this index
  pub step : ℕ → State V → Option (State V)
  unfolding perform
  step i s = elim (get_elem? s.pool i) [
    | none ↦ none
    | some t ↦ some (perform t (record s { pool = erase_idx s.pool i }))
  ]

  pub run : List ℕ → State V → Option (State V)
  run [] s = some s
  run (i ∷ is) s = elim (step i s) [ none ↦ none | some t ↦ run is t ]

  abbrev pub init : State V
  init = record { cells = []; pool = []; reported = []; lost = 0; failed = false }

  -- A program: futures::Execute, steps, and the user's callback
  pub start : ℕ → Answer V → Steps V → State V
  unfolding execute
  start executor r steps = execute executor r steps none init

-- ===== src/Executors/ThreadPool.antt =====
-- src/magic/executors/thread_pool.h and thread_pool.cpp, over concurrency/atomic_counter.h and
-- concurrency/intrusive/blocking_queue.h. One event is one atomic action, or one critical section
-- of the queue, by one thread.
pub mod Invariant
pub mod Idle
mod Examples
use magic_core.Prelude.{
  ℕ, zero, suc, ◌+◌, ◌-◌, ◌%◌, ◌^◌, Bool, true, false, Option, none, some, List, [], ◌∷◌, ◌++◌,
  ◌==◌, get_elem?, erase_idx, if◌then◌else◌,
}
use magic_core.Intrusive.{ForwardList}

-- Where Stop stands.
pub data Closer : Type 0 where
  not_closing : Closer
  disposing : Closer  -- in CloseImpl, with the mutex of the queue, before its test of items_
  settling : Closer  -- in the disposer, before counter_.Done()
  joining : Closer  -- CloseImpl has returned

-- The mutex of the queue is not held by Stop.
pub is_unlocked : Closer → Bool
is_unlocked not_closing = true
is_unlocked joining = true
is_unlocked _ = false

pub record State (C : Type 0) : Type 0 where
  pub counter : ℕ  -- counter_
  pub items : C  -- items_
  pub closed : Bool  -- closed_
  pub closer : Closer
  pub entering : List ℕ  -- tasks of threads in Execute, between Add and Put
  pub refused : List ℕ  -- tasks of threads in Execute for which Put has returned false
  pub leaving : ℕ  -- threads in Execute before Done
  pub running : List ℕ  -- tasks that workers run
  pub finishing : ℕ  -- workers before Done
  pub free : ℕ  -- workers before the test of items_ in Take
  pub sleeping : ℕ  -- workers in not_empty_.wait
  pub exited : ℕ  -- workers that have left WorkerRoutine
  pub log : List ℕ  -- tasks passed to Execute
  pub ran : List ℕ
  pub discarded : List ℕ

pub data Event : Type 0 where
  executes : (task : ℕ) → Event  -- Execute: counter_.Add()
  puts : (i : ℕ) → Event  -- Execute: tasks_.Put(task)
  refuses : (i : ℕ) → Event  -- Execute: task->Discard()
  leaves : Event  -- Execute: counter_.Done()
  takes : Event  -- Take, from its test of items_ up to its return or its wait
  wakes : Event  -- a spurious wake-up
  runs : (i : ℕ) → Event  -- task->Run() returns
  finishes : Event  -- WorkerRoutine: counter_.Done()
  stops : Event  -- Stop enters CloseImpl
  disposes : Event  -- the next action of CloseImpl

abbrev pub word : ℕ
word = 2 ^ 64

module _ {C : Type 0} where
  -- AtomicCounter::Add and Done
  add : State C → State C
  add s = record s { counter = (s.counter + 1) % word }

  done : State C → State C
  done s = record s { counter = (s.counter + word - 1) % word }

  notify_one : State C → State C
  notify_one s =
      if s.sleeping == 0 then s else record s { sleeping = s.sleeping - 1; free = s.free + 1 }

  notify_all : State C → State C
  notify_all s = record s { sleeping = 0; free = s.free + s.sleeping }

module _ (lists : ForwardList ℕ) where
  open lists use {Carrier, empty, push_back, pop_front}

  abbrev pub init : ℕ → State Carrier
  init threads = record {
    counter = 0;
    items = empty;
    closed = false;
    closer = not_closing;
    entering = [];
    refused = [];
    leaving = 0;
    running = [];
    finishing = 0;
    free = threads;
    sleeping = 0;
    exited = 0;
    log = [];
    ran = [];
    discarded = [];
  }

  pub put : ℕ → ℕ → State Carrier → State Carrier
  unfolding notify_one
  put i task s =
      if s.closed
      then record s { entering = erase_idx s.entering i; refused = task ∷ s.refused }
      else notify_one record s { entering = erase_idx s.entering i; items = push_back s.items task }

  -- Take by a worker that is awake.
  pub take_task : State Carrier → State Carrier
  take_task s = elim (pop_front s.items) [
    | none ↦
        if s.closed
        then record s { free = s.free - 1; exited = s.exited + 1 }
        else record s { free = s.free - 1; sleeping = s.sleeping + 1 }
    | some (task, rest) ↦ record s { items = rest; free = s.free - 1; running = task ∷ s.running }
  ]

  -- The loop of CloseImpl with the disposer of Stop.
  pub dispose : Closer → State Carrier → Option (State Carrier)
  unfolding done notify_all
  dispose disposing s = elim (pop_front s.items) [
    | none ↦ some (record (notify_all s) { closed = true; closer = joining })
    | some (task, rest) ↦
        some (record s { items = rest; closer = settling; discarded = task ∷ s.discarded })
  ]
  dispose settling s = some (record (done s) { closer = disposing })
  dispose _ s = none

  pub step : Event → State Carrier → Option (State Carrier)
  unfolding add done is_unlocked put take_task dispose
  step (executes task) s =
      some (record (add s) { entering = task ∷ s.entering; log = task ∷ s.log })
  step (puts i) s =
      if is_unlocked s.closer
      then elim (get_elem? s.entering i) [ none ↦ none | some task ↦ some (put i task s) ]
      else none
  step (refuses i) s = elim (get_elem? s.refused i) [
    | none ↦ none
    | some task ↦ some (record s {
      refused = erase_idx s.refused i;
      leaving = s.leaving + 1;
      discarded = task ∷ s.discarded;
    })
  ]
  step leaves s =
      if s.leaving == 0 then none else some (record (done s) { leaving = s.leaving - 1 })
  step takes s =
      if is_unlocked s.closer then if s.free == 0 then none else some (take_task s) else none
  step wakes s =
      if s.sleeping == 0
      then none
      else some (record s { sleeping = s.sleeping - 1; free = s.free + 1 })
  step (runs i) s = elim (get_elem? s.running i) [
    | none ↦ none
    | some task ↦ some (record s {
      running = erase_idx s.running i;
      finishing = s.finishing + 1;
      ran = task ∷ s.ran;
    })
  ]
  step finishes s =
      if s.finishing == 0
      then none
      else some (record (done s) { finishing = s.finishing - 1; free = s.free + 1 })
  step stops s = elim s.closer [ not_closing ↦ some (record s { closer = disposing }) | _ ↦ none ]
  step disposes s = dispose s.closer s

  pub run : List Event → State Carrier → Option (State Carrier)
  run [] s = some s
  run (e ∷ es) s = elim (step e s) [ none ↦ none | some t ↦ run es t ]

-- ===== src/Executors/Strand.antt =====
-- src/magic/executors/strand.h and strand.cpp: a strand runs its tasks one at a time, over any
-- executor. One event is one atomic action of one thread.
pub mod Invariant
pub mod Order
pub mod Lifetime
pub mod Safety
pub mod Progress
mod Examples
use magic_core.Prelude.{
  ℕ, zero, suc, ◌+◌, ◌-◌, ◌%◌, ◌^◌, ◌≡◌, Bool, true, false, Option, none, some, List, [], ◌∷◌, ◌++◌,
  get_elem?, set, erase_idx, ltb, ◌==◌, if◌then◌else◌,
}
use magic_core.Intrusive.{ForwardList}
use magic_core.Lockfree.Queue.{Stack, put, take_all}

-- std::atomic<size_t> arithmetic.
abbrev pub word : ℕ
word = 2 ^ 64

-- Where a thread stands that is responsible for the strand's next batch.
pub data Phase (C : Type 0) : Type 0 where
  starting : Phase C  -- in Execute, fetch_add has returned 0
  submitted : Phase C  -- RunNextBatch has passed the strand to the executor
  running : (items : C) (completed : ℕ) → Phase C  -- the loop of Run
  rescheduling : Phase C  -- fetch_sub has returned more than `completed`

pub record State (C : Type 0) : Type 0 where
  pub tasks : Stack  -- tasks_
  pub counter : ℕ  -- counter_
  pub refs : ℕ  -- ref_count_ of StrandImpl
  pub owned : Bool  -- the handle `Strand` exists
  pub destroyed : Bool  -- `delete this` was executed
  pub entering : ℕ  -- threads in Execute between Put and fetch_add
  pub jobs : List (Phase C)
  pub releasing : ℕ  -- threads before the last ReleaseRef of Run
  pub log : List ℕ  -- tasks in the order in which they were put
  pub ran : List ℕ  -- tasks in the order in which they were run

pub data Event : Type 0 where
  puts : (task : ℕ) → Event  -- Execute: tasks_.Put(task)
  announces : Event  -- Execute: counter_.fetch_add(1)
  advances : (job : ℕ) → Event  -- the next action of a job
  releases : Event  -- Run: ReleaseRef()
  drops : Event  -- the handle goes away; no call of Execute is in progress

-- Strand(executor), which holds the one reference of New.
abbrev pub init : {C : Type 0} → State C
init = record {
  tasks = [];
  counter = 0;
  refs = 1;
  owned = true;
  destroyed = false;
  entering = 0;
  jobs = [];
  releasing = 0;
  log = [];
  ran = [];
}

module _ {C : Type 0} where
  add_ref : State C → State C
  add_ref s = record s { refs = (s.refs + 1) % word }

  release_ref : State C → State C
  release_ref s = record s {
    refs = (s.refs + word - 1) % word;
    destroyed = if s.refs == 1 then true else s.destroyed;
  }

  execute_put : ℕ → State C → State C
  execute_put task s = record s {
    tasks = put task s.tasks;
    entering = s.entering + 1;
    log = s.log ++ task ∷ [];
  }

  execute_announce : State C → State C
  execute_announce s = record s {
    counter = (s.counter + 1) % word;
    entering = s.entering - 1;
    jobs = if s.counter == 0 then starting ∷ s.jobs else s.jobs;
  }

  -- RunNextBatch: AddRef, then the executor takes the strand.
  run_next_batch : ℕ → State C → State C
  unfolding add_ref
  run_next_batch i s = record (add_ref s) { jobs = set s.jobs i submitted }

  -- `counter_.fetch_sub(completed) > completed`
  run_subtract : ℕ → ℕ → State C → State C
  run_subtract i completed s =
      if ltb completed s.counter
      then record s {
        counter = (s.counter + word - completed) % word;
        jobs = set s.jobs i rescheduling;
      }
      else record s {
        counter = (s.counter + word - completed) % word;
        jobs = erase_idx s.jobs i;
        releasing = s.releasing + 1;
      }

  pub any_starting : List (Phase C) → Bool
  any_starting [] = false
  any_starting (starting ∷ js) = true
  any_starting (_ ∷ js) = any_starting js

  drop_handle : State C → Option (State C)
  unfolding release_ref any_starting
  drop_handle s =
      if s.owned
      then if s.entering == 0
        then if any_starting s.jobs then none else some (record (release_ref s) { owned = false })
        else none
      else none

module _ (lists : ForwardList ℕ) where
  open lists use {Carrier, pop_front}

  -- One round of the loop of Run, or its end.
  run_loop : ℕ → Carrier → ℕ → State Carrier → State Carrier
  unfolding run_subtract
  run_loop i items completed s = elim (pop_front items) [
    | none ↦ run_subtract i completed s
    | some (task, rest) ↦ record s {
      jobs = set s.jobs i (running rest (completed + 1));
      ran = s.ran ++ task ∷ [];
    }
  ]

  pub work : ℕ → Phase Carrier → State Carrier → State Carrier
  unfolding run_next_batch run_loop
  work i starting s = run_next_batch i s
  work i submitted s = record s {
    tasks = [];
    jobs = set s.jobs i (running (take_all lists s.tasks) 0);
  }
  work i (running items completed) s = run_loop i items completed s
  work i rescheduling s = record (run_next_batch i s) { releasing = s.releasing + 1 }

  -- `none`: the event cannot happen in this state.
  pub step : Event → State Carrier → Option (State Carrier)
  unfolding execute_put execute_announce release_ref work drop_handle
  step (puts task) s = if s.owned then some (execute_put task s) else none
  step announces s = if s.entering == 0 then none else some (execute_announce s)
  step (advances i) s = elim (get_elem? s.jobs i) [ none ↦ none | some p ↦ some (work i p s) ]
  step releases s =
      if s.releasing == 0
      then none
      else some (record (release_ref s) { releasing = s.releasing - 1 })
  step drops s = drop_handle s

  pub run : List Event → State Carrier → Option (State Carrier)
  run [] s = some s
  run (e ∷ es) s = elim (step e s) [ none ↦ none | some t ↦ run es t ]

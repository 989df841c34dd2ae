-- ===== src/Fibers/Fiber.antt =====
-- src/magic/fibers/core/fiber.h, fiber.cpp, handle.h, handle.cpp and awaiter.h: fibers on the workers
-- of an executor. What a routine does next is chosen by the events. A fiber is known by its number,
-- which is its address; each handle that an awaiter has stored is used for one call.
pub mod Invariant
pub mod Moves
pub mod Steps
mod Examples
pub mod Safety
pub mod Turns
use magic_core.Prelude.{
  ℕ, zero, suc, ◌+◌, Bool, true, false, not, ◌&&◌, Option, none, some, List, [], ◌∷◌, ◌++◌, length,
  get_elem?, set, erase_idx, if◌then◌else◌,
}
use magic_core.Fibers.StackPool.{StackAllocator, no_stacks, allocate, release}

pub data FiberState : Type 0 where
  pending : FiberState
  queued : FiberState
  running : FiberState
  suspended : FiberState

-- ISuspendAwaiter, by what its OnCompleted does with the handle
pub data Awaiter : Type 0 where
  yields : Awaiter  -- YieldAwaiter
  always : Awaiter  -- IAlwaysSuspendAwaiter: AwaitSuspend stores the handle
  maybe : (continues : Bool) → Awaiter  -- IMaybeSuspendAwaiter, by the result of its AwaitSuspend
  hands_over : Awaiter  -- Unlocker of sync/mutex.h: it schedules the fiber and returns a stored handle

-- What a routine does next.
pub data Action : Type 0 where
  returns : Action
  awaits : Awaiter → Action  -- Suspend(awaiter)
  suspends : Action  -- Suspend()

-- Fiber
pub record Cell : Type 0 where
  pub stack : ℕ
  pub state : FiberState
  pub awaiter : Option Awaiter
  pub completed : Bool  -- coroutine_.IsCompleted()
  pub alive : Bool  -- the fiber is not deleted

-- Where a worker of the executor stands.
pub data Worker : Type 0 where
  idle : Worker
  inside : (fiber : ℕ) → Worker  -- in the coroutine, inside Step
  back : (fiber : ℕ) → Worker  -- in RunFiber, behind Step

pub record State : Type 0 where
  pub fibers : List Cell
  pub queue : List ℕ  -- tasks in the executor
  pub workers : List Worker
  pub handles : List ℕ  -- handles that awaiters have stored
  pub stacks : StackAllocator
  pub failed : Bool  -- a check fails, or a deleted fiber is used

-- `acts` is the next action of a worker: an idle one runs the task at `entry` of the queue; in the
-- coroutine the routine does the action; behind it RunFiber goes on, where an awaiter that hands over
-- has the handle at `entry`, or an invalid one.
pub data Event : Type 0 where
  creates : Event  -- Fiber::Create, by Go
  discards : (entry : ℕ) → Event  -- Discard
  resumes : (handle : ℕ) → Event  -- FiberHandle::Resume, by anybody
  schedules : (handle : ℕ) → Event  -- FiberHandle::Schedule, by anybody
  awakes : (fiber : ℕ) → Event  -- Fiber::Resume through a pointer, as ParkingLot::Wake does
  acts : (worker entry : ℕ) → Action → Event

abbrev pub all_idle : ℕ → List Worker
all_idle zero = []
all_idle (suc n) = idle ∷ all_idle n

abbrev pub init : ℕ → State
init workers = record {
  fibers = [];
  queue = [];
  workers = all_idle workers;
  handles = [];
  stacks = no_stacks;
  failed = false;
}

abbrev pub fail : State → State
fail s = record s { failed = true }

abbrev pub put : ℕ → Cell → State → State
put f cell s = record s { fibers = set s.fibers f cell }

abbrev pub go : ℕ → Worker → State → State
go w p s = record s { workers = set s.workers w p }

-- Access to a fiber
abbrev pub access : ℕ → State → (Cell → State) → State
access f s k = elim (get_elem? s.fibers f) [
  | none ↦ fail s
  | some cell ↦ if cell.alive then k cell else fail s
]

abbrev pub is_suspended : FiberState → Bool
is_suspended suspended = true
is_suspended _ = false

pub schedule : ℕ → State → State
schedule f s =
    access f s
      λ cell. record (put f (record cell { state = queued }) s) { queue = s.queue ++ f ∷ [] }

-- Fiber::Resume
pub resume : ℕ → State → State
unfolding schedule
resume f s = access f s λ cell. if is_suspended cell.state then schedule f s else fail s

-- The constructor
abbrev new_fiber : ℕ → Cell
new_fiber stack = record {
  stack = stack;
  state = pending;
  awaiter = none;
  completed = false;
  alive = true;
}

-- Create, with AllocateStack in the constructor
pub create : State → State
unfolding schedule allocate
create s =
    let (stack, stacks) = allocate s.stacks in
    schedule (length s.fibers)
      record s { stacks = stacks; fibers = s.fibers ++ new_fiber stack ∷ [] }

-- Step, up to the switch to the coroutine, which must not be completed
pub enter : ℕ → ℕ → State → State
enter w f s = access f s λ cell.
    if cell.completed then fail s else go w (inside f) (put f (record cell { state = running }) s)

-- Suspend(awaiter)
pub suspend : ℕ → Awaiter → ℕ → State → State
suspend w awaiter f s =
    access f s
      λ cell. go w (back f) (put f (record cell { awaiter = some awaiter; state = suspended }) s)

-- Suspend()
pub suspend_alone : ℕ → ℕ → State → State
suspend_alone w f s = access f s λ cell. go w (back f) (put f (record cell { state = suspended }) s)

-- CoroutineImpl::Run behind the routine
pub complete : ℕ → ℕ → State → State
complete w f s = access f s λ cell. go w (back f) (put f (record cell { completed = true }) s)

pub destroy : ℕ → State → State
unfolding release
destroy f s = access f s λ cell. record (put f (record cell { alive = false }) s) {
  stacks = release cell.stack s.stacks;
}

-- The loop of Run with the next handle of an awaiter
pub go_on : ℕ → ℕ → Option ℕ → State → State
unfolding enter
go_on w entry none s = s
go_on w entry (some g) s = enter w g (record s { handles = erase_idx s.handles entry })

-- OnCompleted(this), and what Run does with the handle that it returns
pub on_completed : ℕ → ℕ → ℕ → Option Awaiter → State → State
unfolding schedule enter go_on
on_completed w entry f none s = go w idle s
on_completed w entry f (some hands_over) s =
    go_on w entry (get_elem? s.handles entry) (go w idle (schedule f s))
on_completed w entry f (some yields) s = go w idle (schedule f s)
on_completed w entry f (some always) s = record (go w idle s) { handles = f ∷ s.handles }
on_completed w entry f (some (maybe true)) s = enter w f s
on_completed w entry f (some (maybe false)) s = record (go w idle s) { handles = f ∷ s.handles }

-- RunFiber behind Step
pub run_fiber : ℕ → ℕ → ℕ → State → State
unfolding destroy on_completed
run_fiber w entry f s = access f s λ cell.
    if cell.completed
    then go w idle (destroy f s)
    else if is_suspended cell.state
    then on_completed w entry f cell.awaiter (put f (record cell { awaiter = none }) s)
    else fail s

-- Run, of a task that is taken from the queue
pub pick : ℕ → Option ℕ → ℕ → State → Option State
unfolding enter
pick w none entry s = none
pick w (some f) entry s = some (enter w f (record s { queue = erase_idx s.queue entry }))

pub advance : ℕ → ℕ → Action → Worker → State → Option State
unfolding pick suspend suspend_alone complete run_fiber
advance w entry a idle s = pick w (get_elem? s.queue entry) entry s
advance w entry returns (inside f) s = some (complete w f s)
advance w entry (awaits a) (inside f) s = some (suspend w a f s)
advance w entry suspends (inside f) s = some (suspend_alone w f s)
advance w entry a (back f) s = some (run_fiber w entry f s)

pub step : Event → State → Option State
unfolding create destroy schedule resume advance
step creates s = some (create s)
step (discards entry) s = elim (get_elem? s.queue entry) [
  | none ↦ none
  | some f ↦ some (destroy f (record s { queue = erase_idx s.queue entry }))
]
step (resumes k) s = elim (get_elem? s.handles k) [
  | none ↦ none
  | some f ↦ some (resume f (record s { handles = erase_idx s.handles k }))
]
step (schedules k) s = elim (get_elem? s.handles k) [
  | none ↦ none
  | some f ↦ some (schedule f (record s { handles = erase_idx s.handles k }))
]
step (awakes f) s = some (resume f s)
step (acts w entry a) s = elim (get_elem? s.workers w) [
  | none ↦ none
  | some p ↦ advance w entry a p s
]

pub run : List Event → State → Option State
run [] s = some s
run (e ∷ es) s = elim (step e s) [ none ↦ none | some t ↦ run es t ]

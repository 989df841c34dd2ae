-- ===== src/Fibers/Fiber/Invariant.antt =====
-- Where each fiber is: in the queue, on a worker, behind a handle, or nowhere; and where each stack is.
use magic_core.Prelude.{
  ℕ, ◌+◌, ◌≤◌, ◌<◌, ◌≡◌, Bool, true, false, Option, none, some, ◌==◌, get_elem?, if◌then◌else◌,
}
use magic_core.Prelude.Occurs.{occurs}
use magic_core.Prelude.Totals.{total}
use magic_core.Fibers.Fiber.{
  FiberState, queued, running, suspended, Awaiter, Cell, Worker, inside, back, State,
}

pub data Where : Type 0 where
  in_queue : Where
  on_worker : Where
  coming_back : Where  -- RunFiber is going to look at it
  waiting : Where  -- for its handle
  nowhere : Where

abbrev where_suspended : Option Awaiter → Where
where_suspended none = waiting
where_suspended (some a) = coming_back

abbrev where_alive : FiberState → Option Awaiter → Bool → Where
where_alive queued none false = in_queue
where_alive running none false = on_worker
where_alive running none true = coming_back
where_alive suspended a false = where_suspended a
where_alive _ _ _ = nowhere

abbrev pub where_of : Option Cell → Where
where_of none = nowhere
where_of (some c) = if c.alive then where_alive c.state c.awaiter c.completed else nowhere

abbrev pub queued_at : Where → ℕ
queued_at in_queue = 1
queued_at _ = 0

abbrev pub worked_at : Where → ℕ
worked_at on_worker = 1
worked_at _ = 0

abbrev pub back_at : Where → ℕ
back_at coming_back = 1
back_at _ = 0

abbrev pub waiting_at : Where → ℕ
waiting_at waiting = 1
waiting_at _ = 0

abbrev nowhere_at : Where → ℕ
nowhere_at nowhere = 1
nowhere_at _ = 0

-- 1 for a fiber that nobody would ever run again and nobody has deleted.
abbrev pub lost : Option Cell → ℕ
lost none = 0
lost (some c) = if c.alive then nowhere_at (where_of (some c)) else 0

-- 1 for a worker that runs the fiber, and for one that has come back from it.
abbrev pub runs : ℕ → Worker → ℕ
runs f (inside g) = if f == g then 1 else 0
runs f _ = 0

abbrev pub looks : ℕ → Worker → ℕ
looks f (back g) = if f == g then 1 else 0
looks f _ = 0

-- 1 for a fiber that is there and has the stack.
abbrev pub owns : ℕ → Cell → ℕ
owns t c = if c.alive then (if t == c.stack then 1 else 0) else 0

abbrev pub place : ℕ → State → Where
place f s = where_of (get_elem? s.fibers f)

-- The running worker may hold a fiber itself, which `extra` counts.
pub record Inv (s : State) : Type 0 where
  pub queues : (f : ℕ) → occurs f s.queue ≡ queued_at (place f s)
  pub works : (f : ℕ) → total (runs f) s.workers ≡ worked_at (place f s)
  pub backs : (f : ℕ) → total (looks f) s.workers ≡ back_at (place f s)
  pub waits : (f : ℕ) → occurs f s.handles ≡ waiting_at (place f s)
  pub stacked :
      (t : ℕ) → t < s.stacks.fresh → occurs t s.stacks.stack_pool + total (owns t) s.fibers ≡ 1
  pub unmade :
      (t : ℕ) → s.stacks.fresh ≤ t → occurs t s.stacks.stack_pool + total (owns t) s.fibers ≡ 0
  pub kept : (f : ℕ) → lost (get_elem? s.fibers f) ≡ 0
  pub sane : s.failed ≡ false

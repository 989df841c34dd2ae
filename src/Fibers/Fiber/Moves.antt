-- ===== src/Fibers/Fiber/Moves.antt =====
-- One fiber goes from one place to another, or is made or deleted.
use magic_core.Prelude.{
  ℕ, ◌+◌, ◌≡◌, refl, inl, inr, ◌⊎◌, Bool, true, false, Option, none, some, List, ◌==◌, get_elem?,
  set, if◌then◌else◌, arith,
}
use magic_core.Prelude.Occurs.{occurs}
use magic_core.Prelude.Totals.{total, total-set, get_elem?-set}
use magic_core.Fibers.StackPool.{StackAllocator}
use magic_core.Fibers.Fiber.{
  FiberState, pending, queued, running, suspended, Awaiter, Cell, Worker, State, put,
}
use magic_core.Fibers.Fiber.Invariant.{
  Where, where_of, queued_at, worked_at, back_at, waiting_at, runs, looks, owns, lost, Inv,
}

module _ (f : ℕ) (c c' : Cell) (s : State) (found : get_elem? s.fibers f ≡ some c) where
  abbrev pub was : Where
  was = where_of (some c)

  abbrev pub now : Where
  now = where_of (some c')

  -- The counts of the new lists differ from the old ones as the cell does.
  pub move-Inv :
      (queue : List ℕ) (workers : List Worker) (handles : List ℕ) (stacks : StackAllocator)
      → ((g : ℕ)
          → occurs g queue + (if g == f then queued_at was else 0)
            ≡ occurs g s.queue + (if g == f then queued_at now else 0))
      → ((g : ℕ)
          → total (runs g) workers + (if g == f then worked_at was else 0)
            ≡ total (runs g) s.workers + (if g == f then worked_at now else 0))
      → ((g : ℕ)
          → total (looks g) workers + (if g == f then back_at was else 0)
            ≡ total (looks g) s.workers + (if g == f then back_at now else 0))
      → ((g : ℕ)
          → occurs g handles + (if g == f then waiting_at was else 0)
            ≡ occurs g s.handles + (if g == f then waiting_at now else 0))
      → ((t : ℕ) → occurs t stacks.stack_pool + owns t c' ≡ occurs t s.stacks.stack_pool + owns t c)
      → stacks.fresh ≡ s.stacks.fresh
      → lost (some c') ≡ 0
      → Inv s
      → Inv (record (put f c' s) {
        queue = queue;
        workers = workers;
        handles = handles;
        stacks = stacks;
      })
  move-Inv queue workers handles stacks q r b w o same new i =
      let G = get_elem?-set s.fibers f c c' found in
      record {
        queues = λ g. ground (arith, i.queues g, G g, q g, found);
        works = λ g. ground (arith, i.works g, G g, r g, found);
        backs = λ g. ground (arith, i.backs g, G g, b g, found);
        waits = λ g. ground (arith, i.waits g, G g, w g, found);
        stacked = λ t h. omega (
          arith,
          i.stacked t (omega (arith, h, same)),
          o t,
          total-set (owns t) s.fibers f c c' found,
        );
        unmade = λ t h. omega (
          arith,
          i.unmade t (omega (arith, h, same)),
          o t,
          total-set (owns t) s.fibers f c c' found,
        );
        kept = λ g. ground (arith, i.kept g, G g, new);
        sane = i.sane;
      }

-- What the cell of a fiber is, from where the fiber is.
abbrev pub live_cell : ℕ → FiberState → Option Awaiter → Bool → Cell
live_cell stack state a completed = record {
  stack = stack;
  state = state;
  awaiter = a;
  completed = completed;
  alive = true;
}

pub in_queue_cell :
    (x : Option Cell)
    → queued_at (where_of x) ≡ 1
    → (stack : ℕ) × (x ≡ some (live_cell stack queued none false))
in_queue_cell none h = absurd (ground (arith, h))
in_queue_cell (some c) h = (c.stack, ground (arith, h))

pub waiting_cell :
    (x : Option Cell)
    → waiting_at (where_of x) ≡ 1
    → (stack : ℕ) × (x ≡ some (live_cell stack suspended none false))
waiting_cell none h = absurd (ground (arith, h))
waiting_cell (some c) h = (c.stack, ground (arith, h))

pub on_worker_cell :
    (x : Option Cell)
    → worked_at (where_of x) ≡ 1
    → (stack : ℕ) × (x ≡ some (live_cell stack running none false))
on_worker_cell none h = absurd (ground (arith, h))
on_worker_cell (some c) h = (c.stack, ground (arith, h))

back_cell :
    (c : Cell) (st : FiberState) (a : Option Awaiter)
    → c.state ≡ st
    → c.awaiter ≡ a
    → back_at (where_of (some c)) ≡ 1
    → ((stack : ℕ) × (some c ≡ some (live_cell stack running none true)))
      ⊎ ((stack : ℕ) × (b : Awaiter) × (some c ≡ some (live_cell stack suspended (some b) false)))
back_cell c pending a e e' h = absurd (ground (arith, h, e, e'))
back_cell c queued a e e' h = absurd (ground (arith, h, e, e'))
back_cell c running a e e' h = inl (c.stack, ground (arith, h, e, e'))
back_cell c suspended none e e' h = absurd (ground (arith, h, e, e'))
back_cell c suspended (some b) e e' h = inr (c.stack, b, ground (arith, h, e, e'))

-- The routine has returned, or it has suspended the fiber with an awaiter.
pub coming_back_cell :
    (x : Option Cell)
    → back_at (where_of x) ≡ 1
    → ((stack : ℕ) × (x ≡ some (live_cell stack running none true)))
      ⊎ ((stack : ℕ) × (a : Awaiter) × (x ≡ some (live_cell stack suspended (some a) false)))
coming_back_cell none h = absurd (ground (arith, h))
coming_back_cell (some c) h = back_cell c c.state c.awaiter refl refl h

-- A worker goes from one place to another.
module _ (w : ℕ) (p q : Worker) (s : State) (found : get_elem? s.workers w ≡ some p) where
  pub runs_moved :
      (g : ℕ) → total (runs g) (set s.workers w q) + runs g p ≡ total (runs g) s.workers + runs g q
  runs_moved g = total-set (runs g) s.workers w p q found

  pub looks_moved :
      (g : ℕ)
      → total (looks g) (set s.workers w q) + looks g p ≡ total (looks g) s.workers + looks g q
  looks_moved g = total-set (looks g) s.workers w p q found

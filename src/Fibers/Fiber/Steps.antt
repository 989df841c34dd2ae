-- ===== src/Fibers/Fiber/Steps.antt =====
-- The steps of a fiber, but for those of RunFiber behind Step and of Create.
use magic_core.Prelude.{
  ℕ, ◌≡◌, refl, true, false, none, some, [], ◌∷◌, ◌++◌, get_elem?, set, erase_idx, arith,
}
use magic_core.Prelude.Occurs.{occurs-append, occurs-erase_idx}
use magic_core.Fibers.StackPool.{release}
use magic_core.Fibers.Fiber.{
  queued, running, suspended, Awaiter, idle, inside, back, State, schedule, resume, enter, suspend,
  complete, destroy,
}
use magic_core.Fibers.Fiber.Invariant.{Inv}
use magic_core.Fibers.Fiber.Moves.{
  move-Inv, live_cell, in_queue_cell, waiting_cell, on_worker_cell, runs_moved, looks_moved,
}

pub discard-Inv :
    (j f : ℕ) (s : State)
    → get_elem? s.queue j ≡ some f
    → Inv s
    → Inv (destroy f (record s { queue = erase_idx s.queue j }))
unfolding destroy release
discard-Inv j f s at_j i =
    let Q = occurs-erase_idx s.queue j f at_j in
    let (stack, found) = in_queue_cell (get_elem? s.fibers f) (ground (arith, i.queues f, Q f)) in
    let c = live_cell stack queued none false in
    let m =
      move-Inv f c (record c { alive = false }) s found (erase_idx s.queue j) s.workers s.handles
        (release stack s.stacks) (λ g. ground (arith, Q g)) (λ g. ground arith) (λ g. ground arith)
        (λ g. ground arith) (λ t. ground arith) refl refl i in
    ground (arith, found, m)

pub resume-Inv :
    (k f : ℕ) (s : State)
    → get_elem? s.handles k ≡ some f
    → Inv s
    → Inv (resume f (record s { handles = erase_idx s.handles k }))
unfolding resume schedule
resume-Inv k f s at_k i =
    let W = occurs-erase_idx s.handles k f at_k in
    let (stack, found) = waiting_cell (get_elem? s.fibers f) (ground (arith, i.waits f, W f)) in
    let c = live_cell stack suspended none false in
    let Q = λ (g : ℕ). occurs-append g s.queue (f ∷ []) in
    let m =
      move-Inv f c (record c { state = queued }) s found (s.queue ++ f ∷ []) s.workers
        (erase_idx s.handles k) s.stacks (λ g. ground (arith, Q g)) (λ g. ground arith)
        (λ g. ground arith) (λ g. ground (arith, W g)) (λ t. refl) refl refl i in
    ground (arith, found, m)

pub schedule-Inv :
    (k f : ℕ) (s : State)
    → get_elem? s.handles k ≡ some f
    → Inv s
    → Inv (schedule f (record s { handles = erase_idx s.handles k }))
unfolding schedule
schedule-Inv k f s at_k i =
    let W = occurs-erase_idx s.handles k f at_k in
    let (stack, found) = waiting_cell (get_elem? s.fibers f) (ground (arith, i.waits f, W f)) in
    let c = live_cell stack suspended none false in
    let Q = λ (g : ℕ). occurs-append g s.queue (f ∷ []) in
    let m =
      move-Inv f c (record c { state = queued }) s found (s.queue ++ f ∷ []) s.workers
        (erase_idx s.handles k) s.stacks (λ g. ground (arith, Q g)) (λ g. ground arith)
        (λ g. ground arith) (λ g. ground (arith, W g)) (λ t. refl) refl refl i in
    ground (arith, found, m)

pub pick-Inv :
    (w j f : ℕ) (s : State)
    → get_elem? s.workers w ≡ some idle
    → get_elem? s.queue j ≡ some f
    → Inv s
    → Inv (enter w f (record s { queue = erase_idx s.queue j }))
unfolding enter
pick-Inv w j f s at_w at_j i =
    let Q = occurs-erase_idx s.queue j f at_j in
    let R = runs_moved w idle (inside f) s at_w in
    let L = looks_moved w idle (inside f) s at_w in
    let (stack, found) = in_queue_cell (get_elem? s.fibers f) (ground (arith, i.queues f, Q f)) in
    let c = live_cell stack queued none false in
    let m =
      move-Inv f c (record c { state = running }) s found (erase_idx s.queue j)
        (set s.workers w (inside f)) s.handles s.stacks (λ g. ground (arith, Q g))
        (λ g. ground (arith, R g)) (λ g. ground (arith, L g)) (λ g. ground arith) (λ t. refl) refl
        refl i in
    ground (arith, found, m)

-- The handle of a fiber that waits is used to run it.
pub handed-Inv :
    (w k f : ℕ) (s : State)
    → get_elem? s.workers w ≡ some idle
    → get_elem? s.handles k ≡ some f
    → Inv s
    → Inv (enter w f (record s { handles = erase_idx s.handles k }))
unfolding enter
handed-Inv w k f s at_w at_k i =
    let W = occurs-erase_idx s.handles k f at_k in
    let R = runs_moved w idle (inside f) s at_w in
    let L = looks_moved w idle (inside f) s at_w in
    let (stack, found) = waiting_cell (get_elem? s.fibers f) (ground (arith, i.waits f, W f)) in
    let c = live_cell stack suspended none false in
    let m =
      move-Inv f c (record c { state = running }) s found s.queue (set s.workers w (inside f))
        (erase_idx s.handles k) s.stacks (λ g. ground arith) (λ g. ground (arith, R g))
        (λ g. ground (arith, L g)) (λ g. ground (arith, W g)) (λ t. refl) refl refl i in
    ground (arith, found, m)

pub suspend-Inv :
    (w f : ℕ) (a : Awaiter) (s : State)
    → get_elem? s.workers w ≡ some (inside f)
    → Inv s
    → Inv (suspend w a f s)
unfolding suspend
suspend-Inv w f a s at_w i =
    let R = runs_moved w (inside f) (back f) s at_w in
    let L = looks_moved w (inside f) (back f) s at_w in
    let (stack, found) = on_worker_cell (get_elem? s.fibers f) (ground (arith, i.works f, R f)) in
    let c = live_cell stack running none false in
    let m =
      move-Inv f c (record c { awaiter = some a; state = suspended }) s found s.queue
        (set s.workers w (back f)) s.handles s.stacks (λ g. ground arith) (λ g. ground (arith, R g))
        (λ g. ground (arith, L g)) (λ g. ground arith) (λ t. refl) refl refl i in
    ground (arith, found, m)

pub complete-Inv :
    (w f : ℕ) (s : State) → get_elem? s.workers w ≡ some (inside f) → Inv s → Inv (complete w f s)
unfolding complete
complete-Inv w f s at_w i =
    let R = runs_moved w (inside f) (back f) s at_w in
    let L = looks_moved w (inside f) (back f) s at_w in
    let (stack, found) = on_worker_cell (get_elem? s.fibers f) (ground (arith, i.works f, R f)) in
    let c = live_cell stack running none false in
    let m =
      move-Inv f c (record c { completed = true }) s found s.queue (set s.workers w (back f))
        s.handles s.stacks (λ g. ground arith) (λ g. ground (arith, R g)) (λ g. ground (arith, L g))
        (λ g. ground arith) (λ t. refl) refl refl i in
    ground (arith, found, m)

-- ===== src/Fibers/Fiber/Turns.antt =====
-- RunFiber and Create keep every fiber in its place.
use magic_core.Prelude.{
  ℕ, ◌+◌, ◌≤◌, ◌<◌, ◌≡◌, refl, inl, inr, sym, subst, true, false, Option, none, some, List, [], ◌∷◌,
  ◌++◌, ◌==◌, length, get_elem?, set, if◌then◌else◌, arith,
}
use magic_core.Prelude.Occurs.{occurs, occurs-append}
use magic_core.Prelude.Totals.{
  total, total-append, get_elem?-set, get_elem?-append_last, set-set, set-append_last,
  get_elem?-length,
}
use magic_core.Fibers.StackPool.{
  StackAllocator, count_allocate, allocate, allocate_from, allocate_new, release,
}
use magic_core.Fibers.Fiber.{
  pending, queued, running, suspended, Awaiter, yields, always, maybe, hands_over, idle, inside,
  back, State, put, go, schedule, create, enter, destroy, go_on, on_completed, run_fiber,
}
use magic_core.Fibers.Fiber.Invariant.{owns, Inv}
use magic_core.Fibers.Fiber.Steps.{handed-Inv}
use magic_core.Fibers.Fiber.Moves.{move-Inv, runs_moved, looks_moved, live_cell, coming_back_cell}

-- RunFiber behind a routine that has returned
finish-Inv :
    (w entry f stack : ℕ) (s : State)
    → get_elem? s.workers w ≡ some (back f)
    → get_elem? s.fibers f ≡ some (live_cell stack running none true)
    → Inv s
    → Inv (run_fiber w entry f s)
unfolding run_fiber destroy release
finish-Inv w entry f stack s at_w found i =
    let R = runs_moved w (back f) idle s at_w in
    let L = looks_moved w (back f) idle s at_w in
    let c = live_cell stack running none true in
    let m =
      move-Inv f c (record c { alive = false }) s found s.queue (set s.workers w idle) s.handles
        (release stack s.stacks) (λ g. ground arith) (λ g. ground (arith, R g))
        (λ g. ground (arith, L g)) (λ g. ground arith) (λ t. ground arith) refl refl i in
    ground (arith, found, m)

-- The state in which OnCompleted is called
abbrev exchanged : ℕ → ℕ → State → State
exchanged f stack s = put f (live_cell stack suspended none false) s

again :
    (f stack : ℕ) (a : Option Awaiter) (s : State)
    → get_elem? s.fibers f ≡ some (live_cell stack suspended a false)
    → get_elem? (exchanged f stack s).fibers f ≡ some (live_cell stack suspended none false)
again f stack a s found =
    let G =
      get_elem?-set s.fibers f (live_cell stack suspended a false)
        (live_cell stack suspended none false) found f in
    ground (arith, G)

-- A fiber that has come back is scheduled, and its worker is idle.
abbrev yielded : ℕ → ℕ → ℕ → State → State
yielded w f stack s = record s {
  fibers = set s.fibers f (live_cell stack queued none false);
  queue = s.queue ++ f ∷ [];
  workers = set s.workers w idle;
}

yielded-Inv :
    (w f stack : ℕ) (a : Awaiter) (s : State)
    → get_elem? s.workers w ≡ some (back f)
    → get_elem? s.fibers f ≡ some (live_cell stack suspended (some a) false)
    → Inv s
    → Inv (yielded w f stack s)
yielded-Inv w f stack a s at_w found i =
    let R = runs_moved w (back f) idle s at_w in
    let L = looks_moved w (back f) idle s at_w in
    let Q = λ (g : ℕ). occurs-append g s.queue (f ∷ []) in
    move-Inv f (live_cell stack suspended (some a) false) (live_cell stack queued none false) s
      found (s.queue ++ f ∷ []) (set s.workers w idle) s.handles s.stacks (λ g. ground (arith, Q g))
      (λ g. ground (arith, R g)) (λ g. ground (arith, L g)) (λ g. ground arith) (λ t. refl) refl
      refl i

-- What scheduling it comes to.
schedule-exchanged :
    (w f stack : ℕ) (a : Awaiter) (s : State)
    → get_elem? s.fibers f ≡ some (live_cell stack suspended (some a) false)
    → go w idle (schedule f (exchanged f stack s)) ≡ yielded w f stack s
unfolding schedule
schedule-exchanged w f stack a s found =
    let old = live_cell stack suspended none false in
    let new = live_cell stack queued none false in
    ground (arith, again f stack (some a) s found, set-set s.fibers f old new)

go_on-Inv :
    (w entry : ℕ) (next : Option ℕ) (s : State)
    → get_elem? s.workers w ≡ some idle
    → get_elem? s.handles entry ≡ next
    → Inv s
    → Inv (go_on w entry next s)
unfolding go_on
go_on-Inv w entry none s at_w at_k i = i
go_on-Inv w entry (some g) s at_w at_k i = handed-Inv w entry g s at_w at_k i

turn-Inv :
    (w entry f stack : ℕ) (a : Awaiter) (s : State)
    → get_elem? s.workers w ≡ some (back f)
    → get_elem? s.fibers f ≡ some (live_cell stack suspended (some a) false)
    → Inv s
    → Inv (on_completed w entry f (some a) (exchanged f stack s))
unfolding on_completed enter
turn-Inv w entry f stack yields s at_w found i =
    subst Inv (sym (schedule-exchanged w f stack yields s found))
      (yielded-Inv w f stack yields s at_w found i)
turn-Inv w entry f stack hands_over s at_w found i =
    let idles : get_elem? (set s.workers w idle) w ≡ some idle =
      ground (arith, get_elem?-set s.workers w (back f) idle at_w w) in
    subst (λ t. Inv (go_on w entry (get_elem? s.handles entry) t))
      (sym (schedule-exchanged w f stack hands_over s found))
      (go_on-Inv w entry (get_elem? s.handles entry) (yielded w f stack s) idles refl
        (yielded-Inv w f stack hands_over s at_w found i))
turn-Inv w entry f stack always s at_w found i =
    let R = runs_moved w (back f) idle s at_w in
    let L = looks_moved w (back f) idle s at_w in
    move-Inv f (live_cell stack suspended (some always) false)
      (live_cell stack suspended none false) s found s.queue (set s.workers w idle) (f ∷ s.handles)
      s.stacks (λ g. ground arith) (λ g. ground (arith, R g)) (λ g. ground (arith, L g))
      (λ g. ground arith) (λ t. refl) refl refl i
turn-Inv w entry f stack (maybe true) s at_w found i =
    let R = runs_moved w (back f) (inside f) s at_w in
    let L = looks_moved w (back f) (inside f) s at_w in
    let old = live_cell stack suspended none false in
    let new = live_cell stack running none false in
    let m =
      move-Inv f (live_cell stack suspended (some (maybe true)) false) new s found s.queue
        (set s.workers w (inside f)) s.handles s.stacks (λ g. ground arith)
        (λ g. ground (arith, R g)) (λ g. ground (arith, L g)) (λ g. ground arith) (λ t. refl) refl
        refl i in
    ground (arith, again f stack (some (maybe true)) s found, set-set s.fibers f old new, m)
turn-Inv w entry f stack (maybe false) s at_w found i =
    let R = runs_moved w (back f) idle s at_w in
    let L = looks_moved w (back f) idle s at_w in
    move-Inv f (live_cell stack suspended (some (maybe false)) false)
      (live_cell stack suspended none false) s found s.queue (set s.workers w idle) (f ∷ s.handles)
      s.stacks (λ g. ground arith) (λ g. ground (arith, R g)) (λ g. ground (arith, L g))
      (λ g. ground arith) (λ t. refl) refl refl i

pub run_fiber-Inv :
    (w entry f : ℕ) (s : State)
    → get_elem? s.workers w ≡ some (back f)
    → Inv s
    → Inv (run_fiber w entry f s)
unfolding run_fiber
run_fiber-Inv w entry f s at_w i =
    let L = looks_moved w (back f) idle s at_w in
    elim (coming_back_cell (get_elem? s.fibers f) (ground (arith, i.backs f, L f))) [
      | inl (stack, found) ↦ finish-Inv w entry f stack s at_w found i
      | inr (stack, a, found) ↦
          let m = turn-Inv w entry f stack a s at_w found i in ground (arith, found, m)
    ]

-- A new fiber with a stack that nobody has.
scheduled-Inv :
    (stack : ℕ) (stacks : StackAllocator) (s : State)
    → ((t : ℕ)
        → t < stacks.fresh
        → occurs t stacks.stack_pool + total (owns t) s.fibers + (if t == stack then 1 else 0) ≡ 1)
    → ((t : ℕ)
        → stacks.fresh ≤ t
        → occurs t stacks.stack_pool + total (owns t) s.fibers + (if t == stack then 1 else 0) ≡ 0)
    → Inv s
    → Inv (record s {
      stacks = stacks;
      queue = s.queue ++ length s.fibers ∷ [];
      fibers = s.fibers ++ live_cell stack queued none false ∷ [];
    })
scheduled-Inv stack stacks s once never i =
    let n = length s.fibers in
    let c = live_cell stack queued none false in
    let out = get_elem?-length s.fibers in
    let G = get_elem?-append_last s.fibers c in
    let Q = λ (g : ℕ). occurs-append g s.queue (n ∷ []) in
    let O = λ (t : ℕ). total-append (owns t) s.fibers (c ∷ []) in
    record {
      queues = λ g. ground (arith, i.queues g, G g, Q g, out);
      works = λ g. ground (arith, i.works g, G g, out);
      backs = λ g. ground (arith, i.backs g, G g, out);
      waits = λ g. ground (arith, i.waits g, G g, out);
      stacked = λ t h. omega (arith, once t h, O t);
      unmade = λ t h. omega (arith, never t h, O t);
      kept = λ g. ground (arith, i.kept g, G g, out);
      sane = i.sane;
    }

created_schedule :
    (stack : ℕ) (stacks : StackAllocator) (s : State)
    → schedule
        (length s.fibers)
        (record s { stacks = stacks; fibers = s.fibers ++ live_cell stack pending none false ∷ [] })
      ≡ record s {
        stacks = stacks;
        queue = s.queue ++ length s.fibers ∷ [];
        fibers = s.fibers ++ live_cell stack queued none false ∷ [];
      }
unfolding schedule
created_schedule stack stacks s =
    let old = live_cell stack pending none false in
    let new = live_cell stack queued none false in
    ground (
      arith,
      get_elem?-append_last s.fibers old (length s.fibers),
      set-append_last s.fibers old new,
    )

allocated-Inv :
    (pool : List ℕ) (s : State)
    → s.stacks.stack_pool ≡ pool
    → Inv s
    → let r = allocate_from pool s.stacks in
      Inv (record s {
        stacks = r.1;
        queue = s.queue ++ length s.fibers ∷ [];
        fibers = s.fibers ++ live_cell r.0 queued none false ∷ [];
      })
unfolding allocate_from allocate_new
allocated-Inv [] s e i =
    scheduled-Inv s.stacks.fresh (allocate_new s.stacks).1 s
      (λ t h. ground (arith, h, e, i.stacked t, i.unmade t))
      (λ t h. ground (arith, h, e, i.unmade t)) i
allocated-Inv (stack ∷ rest) s e i =
    scheduled-Inv stack
      (record (s.stacks) { stack_pool = rest; metrics = count_allocate s.stacks.metrics }) s
      (λ t h. ground (arith, h, e, i.stacked t)) (λ t h. ground (arith, h, e, i.unmade t)) i

pub create-Inv : (s : State) → Inv s → Inv (create s)
unfolding create allocate
create-Inv s i =
    let (stack, stacks) = allocate_from s.stacks.stack_pool s.stacks in
    subst Inv (sym (created_schedule stack stacks s)) (allocated-Inv s.stacks.stack_pool s refl i)

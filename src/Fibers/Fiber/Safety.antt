-- ===== src/Fibers/Fiber/Safety.antt =====
-- What every order of the events keeps.
use magic_core.Prelude.{
  All, true, ℕ, zero, suc, ◌+◌, ◌<◌, ◌≡◌, refl, inl, inr, Option-cases, Bool, false, Option, none,
  some, List, [], ◌∷◌, get_elem?, if◌then◌else◌, arith,
}
use magic_core.Prelude.Occurs.{occurs}
use magic_core.Prelude.Totals.{total}
use magic_core.Fibers.Fiber.{
  Action, returns, awaits, suspends, Cell, Worker, idle, inside, back, State, Event, creates,
  discards, resumes, schedules, awakes, acts, all_idle, init, pick, advance, step, run,
}
use magic_core.Fibers.Fiber.Invariant.{
  queued_at, worked_at, back_at, waiting_at, where_of, lost, runs, looks, owns, Inv,
}
use magic_core.Fibers.Fiber.Steps.{
  discard-Inv, resume-Inv, schedule-Inv, pick-Inv, suspend-Inv, complete-Inv,
}
use magic_core.Fibers.Fiber.Turns.{run_fiber-Inv, create-Inv}

idle_runs : (n f : ℕ) → total (runs f) (all_idle n) ≡ 0
idle_runs zero f = refl
idle_runs (suc n) f = ground (arith, idle_runs n f)

idle_looks : (n f : ℕ) → total (looks f) (all_idle n) ≡ 0
idle_looks zero f = refl
idle_looks (suc n) f = ground (arith, idle_looks n f)

init-Inv : (workers : ℕ) → Inv (init workers)
init-Inv workers = record {
  queues = λ f. ground arith;
  works = λ f. ground (arith, idle_runs workers f);
  backs = λ f. ground (arith, idle_looks workers f);
  waits = λ f. ground arith;
  stacked = λ t h. absurd (omega (arith, h));
  unmade = λ t h. ground arith;
  kept = λ f. ground arith;
  sane = refl;
}

picked-Inv :
    (w entry : ℕ) (next : Option ℕ) (s t : State)
    → get_elem? s.queue entry ≡ next
    → get_elem? s.workers w ≡ some idle
    → pick w next entry s ≡ some t
    → Inv s
    → Inv t
unfolding pick
picked-Inv w entry none s t at_j at_w r i = absurd (ground arith)
picked-Inv w entry (some f) s t at_j at_w r i =
    let m = pick-Inv w entry f s at_w at_j i in ground (arith, r, m)

-- Nothing is done without an awaiter: no Suspend() that has none, and no Resume through a pointer.
abbrev pub is_awaited : Event → Bool
is_awaited (awakes f) = false
is_awaited (acts w entry suspends) = false
is_awaited _ = true

advance-Inv :
    (w entry : ℕ) (a : Action) (p : Worker) (s t : State)
    → is_awaited (acts w entry a) ≡ true
    → get_elem? s.workers w ≡ some p
    → advance w entry a p s ≡ some t
    → Inv s
    → Inv t
unfolding advance
advance-Inv w entry suspends p s t h at_w r i = absurd (ground (arith, h))
advance-Inv w entry returns idle s t h at_w r i =
    picked-Inv w entry (get_elem? s.queue entry) s t refl at_w r i
advance-Inv w entry (awaits a) idle s t h at_w r i =
    picked-Inv w entry (get_elem? s.queue entry) s t refl at_w r i
advance-Inv w entry returns (inside f) s t h at_w r i =
    let m = complete-Inv w f s at_w i in ground (arith, r, m)
advance-Inv w entry (awaits a) (inside f) s t h at_w r i =
    let m = suspend-Inv w f a s at_w i in ground (arith, r, m)
advance-Inv w entry returns (back f) s t h at_w r i =
    let m = run_fiber-Inv w entry f s at_w i in ground (arith, r, m)
advance-Inv w entry (awaits a) (back f) s t h at_w r i =
    let m = run_fiber-Inv w entry f s at_w i in ground (arith, r, m)

step-Inv : (e : Event) (s t : State) → is_awaited e ≡ true → step e s ≡ some t → Inv s → Inv t
unfolding step
step-Inv creates s t h r i = let m = create-Inv s i in ground (arith, r, m)
step-Inv (discards entry) s t h r i = elim (Option-cases (get_elem? s.queue entry)) [
  | inl found ↦ absurd (ground (arith, r, found))
  | inr (f, found) ↦ let m = discard-Inv entry f s found i in ground (arith, r, found, m)
]
step-Inv (resumes k) s t h r i = elim (Option-cases (get_elem? s.handles k)) [
  | inl found ↦ absurd (ground (arith, r, found))
  | inr (f, found) ↦ let m = resume-Inv k f s found i in ground (arith, r, found, m)
]
step-Inv (schedules k) s t h r i = elim (Option-cases (get_elem? s.handles k)) [
  | inl found ↦ absurd (ground (arith, r, found))
  | inr (f, found) ↦ let m = schedule-Inv k f s found i in ground (arith, r, found, m)
]
step-Inv (awakes f) s t h r i = absurd (ground (arith, h))
step-Inv (acts w entry a) s t h r i = elim (Option-cases (get_elem? s.workers w)) [
  | inl found ↦ absurd (ground (arith, r, found))
  | inr (p, found) ↦ advance-Inv w entry a p s t h found (ground (arith, r, found)) i
]

run-Inv :
    (es : List Event) (s t : State)
    → All (λ e. is_awaited e ≡ true) es
    → run es s ≡ some t
    → Inv s
    → Inv t
unfolding run
run-Inv [] s t h r i = ground arith
run-Inv (e ∷ es) s t (h, hs) r i = elim (Option-cases (step e s)) [
  | inl stepped ↦ absurd (ground (arith, r, stepped))
  | inr (u, stepped) ↦ run-Inv es u t hs (ground (arith, r, stepped)) (step-Inv e s u h stepped i)
]

-- How many tasks, workers and stored handles have the fiber.
abbrev pub holders : ℕ → State → ℕ
holders f s =
    occurs f s.queue + total (runs f) s.workers + total (looks f) s.workers + occurs f s.handles

abbrev is_alive : Option Cell → Bool
is_alive none = false
is_alive (some c) = c.alive

-- 1 for a fiber that is there.
abbrev pub living : ℕ → State → ℕ
living f s = if is_alive (get_elem? s.fibers f) then 1 else 0

holders_cell :
    (x : Option Cell)
    → lost x ≡ 0
    → queued_at (where_of x)
        + worked_at (where_of x)
        + back_at (where_of x)
        + waiting_at (where_of x)
      ≡ (if is_alive x then 1 else 0)
holders_cell none h = ground arith
holders_cell (some c) h = ground (arith, h)

-- After any events, from a pool of idle workers and no fibers, where fibers suspend with awaiters
-- alone and are resumed by their handles, each of which is used once (not by Suspend() without one, nor by Resume through a
-- pointer, of which ParkingLot makes use): no check of Fiber has failed, and none
-- has touched a deleted fiber; each fiber that is there is in exactly one place, which is a task in
-- the executor, a worker that runs it or has just come back from it, or a stored handle, and a
-- deleted one is nowhere; each stack that was made is in the pool or belongs to one fiber.
pub fiber_places :
    (workers : ℕ) (es : List Event) (s : State)
    → All (λ e. is_awaited e ≡ true) es
    → run es (init workers) ≡ some s
    → (s.failed ≡ false)
      × ((f : ℕ) → holders f s ≡ living f s)
      × ((t : ℕ) → t < s.stacks.fresh → occurs t s.stacks.stack_pool + total (owns t) s.fibers ≡ 1)
fiber_places workers es s h r =
    let i = run-Inv es (init workers) s h r (init-Inv workers) in
    (
      i.sane,
      λ f. omega (
        arith,
        i.queues f,
        i.works f,
        i.backs f,
        i.waits f,
        holders_cell (get_elem? s.fibers f) (i.kept f),
      ),
      i.stacked,
    )

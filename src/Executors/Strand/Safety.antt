-- ===== src/Executors/Strand/Safety.antt =====
-- What holds after any sequence of events that a new strand goes through.
use mathlib.Core.List.{append-nil}
use magic_core.Prelude.{
  ℕ, ◌≤◌, ◌<◌, ◌^◌, ◌≡◌, refl, ◌↔◌, inl, inr, true, false, List, [], ◌∷◌, ◌++◌, some, arith, length,
  length-append, reverse, Option-cases, subst, get_elem?, nil_of_length, ap, sym, ◌∙◌,
}
use magic_core.Intrusive.{ForwardList}
use magic_core.Executors.Strand.{
  Phase, starting, submitted, running, rescheduling, State, Event, puts, announces, advances,
  releases, drops, init, release_ref, execute_put, execute_announce, run_next_batch, run_subtract,
  drop_handle, any_starting, run_loop, work, step, run,
}
use magic_core.Executors.Strand.Invariant.{Counts, step-Counts, init-Counts}
use magic_core.Executors.Strand.Order.{pending, IsInOrder, step-IsInOrder}
use magic_core.Executors.Strand.Lifetime.{Refs, step-Refs, init-Refs, holds}

module _ (lists : ForwardList ℕ) where
  open lists use {Carrier, pop_front, to_list, pop_front_cases}

  pub record Inv (s : State Carrier) : Type 0 where
    pub counts : Counts lists s
    pub order : IsInOrder lists s
    pub refs : Refs lists s

  pub ran-le-log : (s : State Carrier) → IsInOrder lists s → length s.ran ≤ length s.log
  ran-le-log s o =
      omega (arith, ap length o, length-append s.ran (pending lists s.jobs ++ reverse s.tasks))

  pub step-Inv :
      (e : Event) (s t : State Carrier)
      → length s.log < 2 ^ 63
      → Inv s
      → step lists e s ≡ some t
      → Inv t
  step-Inv e s t small v h = record {
    counts = step-Counts lists e s t small v.counts h;
    order = step-IsInOrder lists e s t v.counts v.order h;
    refs = step-Refs lists e s t (omega (arith, small, ran-le-log s v.order)) v.counts v.refs h;
  }

  log-work : (i : ℕ) (p : Phase Carrier) (s : State Carrier) → (work lists i p s).log ≡ s.log
  unfolding work run_next_batch run_loop run_subtract
  log-work i starting s = refl
  log-work i submitted s = refl
  log-work i (running items n) s = ground arith
  log-work i rescheduling s = refl

  log-step :
      (e : Event) (s t : State Carrier) → step lists e s ≡ some t → length s.log ≤ length t.log
  unfolding step release_ref drop_handle execute_announce execute_put
  log-step (puts x) s t e = ground (arith, length-append s.log (x ∷ []))
  log-step announces s t e = ground arith
  log-step (advances i) s t e = elim (Option-cases (get_elem? s.jobs i)) [
    | inl missing ↦ absurd (ground arith)
    | inr (p, found) ↦ ground (arith, log-work i p s)
  ]
  log-step releases s t e = ground arith
  log-step drops s t e = ground arith

  log-run :
      (es : List Event) (s t : State Carrier)
      → run lists es s ≡ some t
      → length s.log ≤ length t.log
  unfolding run
  log-run [] s t e = ground arith
  log-run (x ∷ es) s t e = elim (Option-cases (step lists x s)) [
    | inl stuck ↦ absurd (ground arith)
    | inr (u, moved) ↦ omega (arith, log-step x s u moved, log-run es u t (ground arith))
  ]

  run-Inv :
      (es : List Event) (s t : State Carrier)
      → length t.log < 2 ^ 63
      → Inv s
      → run lists es s ≡ some t
      → Inv t
  unfolding run
  run-Inv [] s t small v e = subst Inv (ground arith) v
  run-Inv (x ∷ es) s t small v e = elim (Option-cases (step lists x s)) [
    | inl stuck ↦ absurd (ground arith)
    | inr (u, moved) ↦
        let rest : run lists es u ≡ some t = ground arith in
        run-Inv es u t small
          (step-Inv x s u (omega (arith, log-step x s u moved, log-run es u t rest)) v moved) rest
  ]

  init-Inv : Inv init
  init-Inv = record { counts = init-Counts lists; order = refl; refs = init-Refs lists }

  -- Whatever a new strand goes through, its state satisfies the invariant, as long as fewer than
  -- 2 ^ 63 tasks were put.
  pub reach-Inv :
      (es : List Event) (t : State Carrier)
      → length t.log < 2 ^ 63
      → run lists es init ≡ some t
      → Inv t
  reach-Inv es t small e = run-Inv es init t small init-Inv e

  pub quiescent-Inv :
      (s : State Carrier)
      → length s.log < 2 ^ 63
      → Inv s
      → s.entering ≡ 0
      → s.jobs ≡ []
      → (s.ran ≡ s.log) × (s.tasks ≡ []) × (s.counter ≡ 0)
  quiescent-Inv s small v quiet idle =
      (sym (append-nil s.ran) ∙ ground (arith, empty, v.order), empty, ground (arith, empty))
    where
      open v use {counts}
      open counts use {settled, ranged, turn}

      empty : s.tasks ≡ []
      empty = nil_of_length s.tasks (ground arith)

  no_jobs : (js : List (Phase Carrier)) → holds lists js ≡ 0 → any_starting js ≡ false → js ≡ []
  unfolding any_starting
  no_jobs [] h e = refl
  no_jobs (starting ∷ js) h e = cc
  no_jobs (submitted ∷ js) h e = absurd (omega arith)
  no_jobs (running items n ∷ js) h e = absurd (omega arith)
  no_jobs (rescheduling ∷ js) h e = absurd (omega arith)

  -- A strand that fewer than 2 ^ 63 tasks were put into never has two batches at once, in whatever
  -- order its threads act: at most one job is starting, in the executor, running or rescheduling.
  -- The tasks run so far, those of the running batch and those in the queue are, in this order,
  -- exactly the tasks put, in the order in which they were put.
  pub strand_serial :
      (es : List Event) (t : State Carrier)
      → length t.log < 2 ^ 63
      → run lists es init ≡ some t
      → (length t.jobs ≤ 1) × (t.ran ++ (pending lists t.jobs ++ reverse t.tasks) ≡ t.log)
  strand_serial es t small e =
      let v = reach-Inv es t small e in (omega (arith, v.counts.turn), v.order)

  -- No task is left behind: when no thread is inside Execute and no batch of a strand that fewer
  -- than 2 ^ 63 tasks were put into is under way, every task that was put has been run, in order,
  -- the queue is empty and the counter is back at zero.
  pub strand_quiescent :
      (es : List Event) (t : State Carrier)
      → length t.log < 2 ^ 63
      → run lists es init ≡ some t
      → t.entering ≡ 0
      → t.jobs ≡ []
      → (t.ran ≡ t.log) × (t.tasks ≡ []) × (t.counter ≡ 0)
  strand_quiescent es t small e quiet idle =
      quiescent-Inv t small (reach-Inv es t small e) quiet idle

  -- The implementation of a strand that fewer than 2 ^ 63 tasks were put into is destroyed exactly
  -- when the handle is gone, no batch is under way and no run has still to release its reference.
  pub strand_lifetime :
      (es : List Event) (t : State Carrier)
      → length t.log < 2 ^ 63
      → run lists es init ≡ some t
      → (t.destroyed ≡ true) ↔ ((t.owned ≡ false) × (t.jobs ≡ []) × (t.releasing ≡ 0))
  strand_lifetime es t small e = (
    λ gone.
        let none_left = refs.ends.0 gone in
        let lone : t.owned ≡ false = ground (arith, refs.counted) in
        (
          lone,
          no_jobs t.jobs (omega (arith, refs.counted)) (refs.entered lone).1,
          omega (arith, refs.counted),
        ),
    λ over. ground (arith, refs.counted, refs.ends.1),
  )
    where
      open (reach-Inv es t small e) use {refs}

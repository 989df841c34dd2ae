-- ===== src/Executors/Strand/Progress.antt =====
-- The strand does not stop with work left: from every state that it can reach, the threads that are
-- at work bring it to a state where every task has run.
use magic_core.Prelude.{
  ℕ, zero, suc, ◌+◌, ◌*◌, ◌<◌, ◌^◌, ◌≡◌, refl, List, [], ◌∷◌, some, arith, length, length-append,
  reverse, length-reverse, ap, ◌∙◌,
}
use magic_core.Intrusive.{ForwardList}
use magic_core.Lockfree.Queue.{to_list-take_all}
use magic_core.Executors.Strand.{
  Phase, starting, submitted, running, rescheduling, State, Event, announces, advances, init,
  execute_announce, run_next_batch, run_subtract, run_loop, work, step, run,
}
use magic_core.Executors.Strand.Invariant.{Counts}
use magic_core.Executors.Strand.Safety.{Inv, step-Inv, reach-Inv, quiescent-Inv}

module _ (lists : ForwardList ℕ) where
  open lists use {Carrier, pop_front, to_list, pop_front_cases}

  -- Actions of the job before the next batch, or before the strand is idle.
  abbrev ahead : List (Phase Carrier) → ℕ
  ahead [] = 0
  ahead (starting ∷ js) = 2
  ahead (submitted ∷ js) = 1
  ahead (running items n ∷ js) = 3 + length (to_list items)
  ahead (rescheduling ∷ js) = 2

  abbrev measure : State Carrier → ℕ
  measure s = ahead s.jobs + 4 * length s.tasks

  record Advances (s t : State Carrier) : Type 0 where
    nearer : measure t < measure s
    quiet : t.entering ≡ s.entering
    log : t.log ≡ s.log

  run_loop-Advances :
      (items : Carrier) (n : ℕ) (s : State Carrier)
      → s.jobs ≡ running items n ∷ []
      → Advances s (run_loop lists 0 items n s)
  unfolding run_loop run_subtract
  run_loop-Advances items n s e = ground (arith, pop_front_cases items)

  work-Advances :
      (p : Phase Carrier) (s : State Carrier)
      → s.jobs ≡ p ∷ []
      → Counts lists s
      → Advances s (work lists 0 p s)
  unfolding work run_next_batch
  work-Advances starting s e c = ground arith
  work-Advances submitted s e c = ground (
    arith,
    ap length (to_list-take_all lists s.tasks),
    length-append (reverse s.tasks) [],
    length-reverse s.tasks,
  )
  work-Advances (running items n) s e c = run_loop-Advances items n s e
  work-Advances rescheduling s e c = ground arith

  step_only :
      (p : Phase Carrier) (s : State Carrier)
      → s.jobs ≡ p ∷ []
      → step lists (advances 0) s ≡ some (work lists 0 p s)
  unfolding step
  step_only p s e = ground arith

  -- Some further events, none of which puts a task, end with every task run.
  abbrev pub Drains : State Carrier → Type 0
  Drains s =
      (es : List Event) × (t : State Carrier) × (run lists es s ≡ some t)
      × (t.ran ≡ s.log)
      × (t.log ≡ s.log)

  prepend :
      (e : Event) (s u : State Carrier)
      → step lists e s ≡ some u
      → u.log ≡ s.log
      → Drains u
      → Drains s
  unfolding run
  prepend e s u moved same (es, t, r, done, kept) =
      (e ∷ es, t, ground arith, done ∙ same, kept ∙ same)

  drain :
      (fuel : ℕ) (s : State Carrier) (js : List (Phase Carrier))
      → s.jobs ≡ js
      → measure s < fuel
      → length s.log < 2 ^ 63
      → Inv lists s
      → s.entering ≡ 0
      → Drains s
  unfolding run
  drain zero s js e m small v quiet = absurd (omega arith)
  drain (suc fuel) s [] e m small v quiet =
      ([], s, refl, (quiescent-Inv lists s small v quiet e).0, refl)
  drain (suc fuel) s (p ∷ []) e m small v quiet =
      let a = work-Advances p s e v.counts in
      let moved = step_only p s e in
      prepend (advances 0) s (work lists 0 p s) moved a.log (
        drain fuel (work lists 0 p s) (work lists 0 p s).jobs refl (omega (arith, a.nearer))
          (omega (arith, small, ap length a.log)) (step-Inv lists (advances 0) s _ small v moved)
          (a.quiet ∙ quiet))
  drain (suc fuel) s (p ∷ q ∷ js) e m small v quiet = absurd (ground (arith, v.counts.turn))

  announce_all :
      (n : ℕ) (s : State Carrier) → s.entering ≡ n → length s.log < 2 ^ 63 → Inv lists s → Drains s
  unfolding step execute_announce
  announce_all zero s e small v = drain (suc (measure s)) s s.jobs refl (omega arith) small v e
  announce_all (suc n) s e small v =
      let moved : step lists announces s ≡ some (execute_announce s) = ground arith in
      prepend announces s (execute_announce s) moved refl (
        announce_all n (execute_announce s) (omega arith) small
          (step-Inv lists announces s _ small v moved))

  -- From every state that a strand reaches while fewer than 2 ^ 63 tasks are put, some events that
  -- put no task lead to a state where every task that was put has run: a strand never stops with
  -- work left, whoever put the work and whenever.
  pub strand-Drains :
      (es : List Event) (t : State Carrier)
      → length t.log < 2 ^ 63
      → run lists es init ≡ some t
      → Drains t
  strand-Drains es t small e = announce_all t.entering t refl small (reach-Inv lists es t small e)

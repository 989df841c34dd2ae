-- ===== src/Executors/ThreadPool/Idle.antt =====
-- What WaitIdle and Stop of a thread pool wait for.
use magic_core.Prelude.{
  All, Bool, ℕ, zero, suc, ◌+◌, ◌-◌, ◌*◌, ◌^◌, ◌≤◌, ◌<◌, ◌≡◌, ◌≢◌, refl, ◌⊎◌, inl, inr, true, false,
  some, List, [], ◌∷◌, arith, length, Option-cases, ap, subst, nil_of_length, ◌∙◌, ℕ_discrete,
}
use magic_core.Prelude.Occurs.{occurs}
use magic_core.Intrusive.{ForwardList}
use magic_core.Executors.ThreadPool.{
  joining, State, Event, executes, puts, refuses, leaves, takes, wakes, runs, finishes, stops,
  disposes, add, done, is_unlocked, notify_one, notify_all, init, put, take_task, dispose, step,
  run,
}
use magic_core.Executors.ThreadPool.Invariant.{Inv, init-Inv, step-Inv}

module _ (lists : ForwardList ℕ) where
  open lists use {Carrier, to_list, pop_front, pop_front_cases}

  log-step :
      (e : Event) (s t : State Carrier) → step lists e s ≡ some t → length s.log ≤ length t.log
  unfolding step add done put notify_one notify_all take_task dispose
  log-step (executes x) s t e = ground arith
  log-step (puts i) s t e = ground arith
  log-step (refuses i) s t e = ground arith
  log-step leaves s t e = ground arith
  log-step takes s t e = ground arith
  log-step wakes s t e = ground arith
  log-step (runs i) s t e = ground arith
  log-step finishes s t e = ground arith
  log-step stops s t e = ground arith
  log-step disposes s t e = ground arith

  log-run :
      (es : List Event) (s t : State Carrier)
      → run lists es s ≡ some t
      → length s.log ≤ length t.log
  unfolding run
  log-run [] s t e = ground arith
  log-run (x ∷ es) s t e = elim (Option-cases (step lists x s)) [
    | inl stuck ↦ absurd (ground arith)
    | inr (u, moved) ↦ omega (arith, log-step x s u moved, log-run es u t (ground arith))
  ]

  run-Inv :
      (threads : ℕ) (es : List Event) (s t : State Carrier)
      → length t.log < 2 ^ 63
      → Inv lists threads s
      → run lists es s ≡ some t
      → Inv lists threads t
  unfolding run
  run-Inv threads [] s t small v e = subst (Inv lists threads) (ground arith) v
  run-Inv threads (x ∷ es) s t small v e = elim (Option-cases (step lists x s)) [
    | inl stuck ↦ absurd (ground arith)
    | inr (u, moved) ↦
        let rest : run lists es u ≡ some t = ground arith in
        run-Inv threads es u t small
          (step-Inv lists threads x s u (omega (arith, log-step x s u moved, log-run es u t rest)) v
            moved)
          rest
  ]

  reach-Inv :
      (threads : ℕ) (es : List Event) (t : State Carrier)
      → length t.log < 2 ^ 63
      → run lists es (init lists threads) ≡ some t
      → Inv lists threads t
  reach-Inv threads es t small e =
      run-Inv threads es (init lists threads) t small (init-Inv lists threads) e

  -- When the counter of a pool that was given fewer than 2 ^ 63 tasks is zero, which is what
  -- WaitIdle waits for, no task is queued or being run, and every task was run or discarded exactly
  -- as often as it was passed to Execute.
  pub pool_idle :
      (threads : ℕ) (es : List Event) (t : State Carrier)
      → length t.log < 2 ^ 63
      → run lists es (init lists threads) ≡ some t
      → t.counter ≡ 0
      → (to_list t.items ≡ [])
        × (t.running ≡ [])
        × ((x : ℕ) → occurs x t.ran + occurs x t.discarded ≡ occurs x t.log)
  pool_idle threads es t small e zero_count = (
    no_items,
    no_running,
    λ x. ground (arith, v.seen x, no_items, no_running, no_entering, no_refused),
  )
    where
      v : Inv lists threads t
      v = reach-Inv threads es t small e

      no_items : to_list t.items ≡ []
      no_items = nil_of_length (to_list t.items) (omega (arith, v.counted))

      no_running : t.running ≡ []
      no_running = nil_of_length t.running (omega (arith, v.counted))

      no_entering : t.entering ≡ []
      no_entering = nil_of_length t.entering (omega (arith, v.counted))

      no_refused : t.refused ≡ []
      no_refused = nil_of_length t.refused (omega (arith, v.counted))

  -- Of a pool that was given fewer than 2 ^ 63 tasks no wake-up is lost: while a worker sleeps, the
  -- queue is open and each queued task has a worker of its own that is awake and about to take one.
  -- No worker is ever lost, and none leaves before the queue is closed.
  pub pool_wakeup :
      (threads : ℕ) (es : List Event) (t : State Carrier)
      → length t.log < 2 ^ 63
      → run lists es (init lists threads) ≡ some t
      → (t.sleeping ≢ 0 → (length (to_list t.items) ≤ t.free) × (t.closed ≡ false))
        × (length t.running + t.finishing + t.free + t.sleeping + t.exited ≡ threads)
        × (t.exited ≢ 0 → t.closed ≡ true)
  pool_wakeup threads es t small e =
      let v = reach-Inv threads es t small e in (v.awake, v.crew, v.stay)

  -- Actions of the workers themselves: none wakes up by itself, and nobody else acts.
  abbrev pub is_own : Event → Bool
  is_own takes = true
  is_own (runs i) = true
  is_own finishes = true
  is_own _ = false

  -- The workers' own actions, with which no task is passed to Execute, end with every worker gone.
  abbrev pub Joins : ℕ → State Carrier → Type 0
  Joins threads s =
      (es : List Event) × (t : State Carrier) × All (λ e. is_own e ≡ true) es
      × (run lists es s ≡ some t)
      × (t.exited ≡ threads)
      × (t.log ≡ s.log)

  abbrev measure : State Carrier → ℕ
  measure s = 3 * length s.running + 2 * s.finishing + s.free

  record Advances (s t : State Carrier) : Type 0 where
    nearer : measure t < measure s
    still : t.closer ≡ joining
    log : t.log ≡ s.log

  -- A worker that can act, and what it does.
  next :
      (threads : ℕ) (s : State Carrier) (running : List ℕ)
      → s.running ≡ running
      → s.closer ≡ joining
      → Inv lists threads s
      → ((s.exited ≡ threads) × (measure s ≡ 0))
        ⊎ ((e : Event) × (t : State Carrier) × (is_own e ≡ true)
            × (step lists e s ≡ some t)
            × Advances s t)
  unfolding step done is_unlocked take_task
  next threads s (x ∷ xs) busy there v =
      let t : State Carrier = record s {
        running = xs;
        finishing = s.finishing + 1;
        ran = x ∷ s.ran;
      } in
      inr (runs 0, t, refl, ground (arith, busy), ground (arith, busy, there))
  next threads s [] busy there v = elim (ℕ_discrete s.finishing 0) [
    | no some_finish ↦ inr (
      finishes,
      record (done s) { finishing = s.finishing - 1; free = s.free + 1 },
      refl,
      ground arith,
      ground (arith, busy, there),
    )
    | yes none_finish ↦ elim (ℕ_discrete s.free 0) [
      | no some_free ↦ inr (
        takes,
        record s { free = s.free - 1; exited = s.exited + 1 },
        refl,
        ground (arith, v.closing, there, pop_front_cases s.items),
        ground (arith, busy, there),
      )
      | yes none_free ↦
          inl (ground (arith, v.crew, v.awake, v.closing, there, busy), ground (arith, busy))
    ]
  ]

  retire :
      (fuel threads : ℕ) (s : State Carrier)
      → measure s < fuel
      → length s.log < 2 ^ 63
      → s.closer ≡ joining
      → Inv lists threads s
      → Joins threads s
  unfolding run
  retire zero threads s m small there v = absurd (omega arith)
  retire (suc fuel) threads s m small there v = elim (next threads s s.running refl there v) [
    | inl (gone, _) ↦ ([], s, tt, refl, gone, refl)
    | inr (e, u, own, moved, a) ↦
        let (es, t, owns, r, gone, kept) =
          retire fuel threads u (omega (arith, a.nearer)) (omega (arith, small, ap length a.log))
            a.still (step-Inv lists threads e s u small v moved) in
        (e ∷ es, t, (own, owns), ground (arith, moved), gone, kept ∙ a.log)
  ]

  -- When Stop has closed the queue of a pool that was given fewer than 2 ^ 63 tasks, and the tasks
  -- that are being run return, the workers' own actions lead every one of them out of its routine:
  -- none of them sleeps on until it wakes up spuriously, and Stop can join them all.
  pub pool-Joins :
      (threads : ℕ) (es : List Event) (t : State Carrier)
      → length t.log < 2 ^ 63
      → run lists es (init lists threads) ≡ some t
      → t.closer ≡ joining
      → Joins threads t
  pool-Joins threads es t small e there =
      retire (suc (measure t)) threads t (omega arith) small there (reach-Inv threads es t small e)

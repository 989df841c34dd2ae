-- ===== src/Sync/CyclicBarrier/Generations.antt =====
-- Threads pass the barrier by whole generations.
use magic_core.Prelude.{
  ◌%◌, true, false, [], ◌++◌, length-append, ℕ, zero, suc, ◌+◌, ◌*◌, ◌^◌, ◌≤◌, ◌<◌, ◌≡◌, inl, inr,
  some, List, ◌∷◌, ◌==◌, get_elem?, erase_idx, arith, length, Option-cases, Bool-cases, subst,
}
use magic_core.Prelude.Occurs.{occurs, occurs-append, occurs-erase_idx, length-erase_idx}
use magic_core.Sync.CyclicBarrier.{
  State, Event, arrives, wakes, tests, init, test, arrive, step, run,
}

module _ (participants : ℕ) where
  record Inv (s : State) : Type 0 where
    total : s.arrivals ≡ s.generation * participants + s.arrived_count
    room : s.arrived_count < participants
    blocked : occurs s.generation s.sleeping + occurs s.generation s.woken ≡ s.arrived_count
    asleep : occurs s.generation s.sleeping ≡ length s.sleeping
    early : (g : ℕ) → s.generation < g → occurs g s.sleeping + occurs g s.woken ≡ 0
    kept : s.departures + length s.sleeping + length s.woken ≡ s.arrivals
    passed : s.departures ≤ s.generation * participants

  occurs-le-length : (g : ℕ) (l : List ℕ) → occurs g l ≤ length l
  occurs-le-length g [] = omega arith
  occurs-le-length g (x ∷ xs) = ground (arith, occurs-le-length g xs)

  le_mul : (g : ℕ) → 0 < participants → g ≤ g * participants
  le_mul zero h = omega arith
  le_mul (suc g) h = omega (arith, le_mul g h)

  next_generation : (g : ℕ) → (g + 1) * participants ≡ g * participants + participants
  next_generation g = omega arith

  -- An arrival that does not end the generation, and one that does.
  stays-Inv :
      (s : State)
      → ((s.arrived_count + 1 == participants) ≡ false)
      → Inv s
      → Inv (arrive participants s)
  unfolding arrive test
  stays-Inv s more v =
      let there : (s.generation == s.generation) ≡ true = ground arith in
      let m : Inv (record s {
        arrived_count = s.arrived_count + 1;
        arrivals = s.arrivals + 1;
        sleeping = s.generation ∷ s.sleeping;
      }) =
        record {
          total = ground (arith, v.total);
          room = ground (arith, v.room, more);
          blocked = ground (arith, v.blocked);
          asleep = ground (arith, v.asleep);
          early = λ k later. ground (arith, v.early k, later);
          kept = ground (arith, v.kept);
          passed = v.passed;
        } in
      ground (arith, more, there, m)

  ends-Inv :
      (s : State)
      → s.arrivals + 1 < 2 ^ 64
      → ((s.arrived_count + 1 == participants) ≡ true)
      → Inv s
      → Inv (arrive participants s)
  unfolding arrive test
  ends-Inv s small last v =
      let fits : s.generation + 1 < 2 ^ 64 =
        omega (arith, small, v.total, v.room, le_mul s.generation (omega (arith, v.room))) in
      let next : (s.generation + 1) % 2 ^ 64 ≡ s.generation + 1 = omega (arith, fits) in
      let gone : (s.generation == (s.generation + 1) % 2 ^ 64) ≡ false = ground (arith, next) in
      let m : Inv (record s {
        generation = (s.generation + 1) % 2 ^ 64;
        arrived_count = 0;
        arrivals = s.arrivals + 1;
        sleeping = [];
        woken = s.sleeping ++ s.woken;
        departures = s.departures + 1;
      }) =
        record {
          total = ground (arith, v.total, next, last, next_generation s.generation);
          room = omega (arith, v.room);
          blocked = ground (
            arith,
            next,
            v.early (s.generation + 1),
            occurs-append (s.generation + 1) s.sleeping s.woken,
          );
          asleep = ground arith;
          early =
              λ k later. ground (arith, next, later, v.early k, occurs-append k s.sleeping s.woken);
          kept = ground (arith, v.kept, length-append s.sleeping s.woken);
          passed =
              ground (arith, v.total, v.kept, v.passed, next, last, next_generation s.generation);
        } in
      ground (arith, last, gone, m)

  wakes-Inv :
      (i g : ℕ) (s : State)
      → get_elem? s.sleeping i ≡ some g
      → Inv s
      → Inv (record s { sleeping = erase_idx s.sleeping i; woken = g ∷ s.woken })
  wakes-Inv i g s found v =
      let rid = occurs-erase_idx s.sleeping i g found in
      let less = length-erase_idx s.sleeping i g found in
      let bound = occurs-le-length s.generation (erase_idx s.sleeping i) in
      record {
        total = v.total;
        room = v.room;
        blocked = ground (arith, v.blocked, rid s.generation);
        asleep = ground (arith, v.asleep, rid s.generation, less, bound);
        early = λ k later. ground (arith, v.early k, rid k, later);
        kept = ground (arith, v.kept, less);
        passed = v.passed;
      }

  tests-Inv :
      (i g : ℕ) (s : State)
      → get_elem? s.woken i ≡ some g
      → Inv s
      → Inv (test g (record s { woken = erase_idx s.woken i }))
  unfolding test
  tests-Inv i g s found v =
      let rid = occurs-erase_idx s.woken i g found in
      let less = length-erase_idx s.woken i g found in
      let bound = occurs-le-length s.generation (erase_idx s.woken i) in
      elim (Bool-cases (g == s.generation)) [
        | inl current ↦
            let m : Inv (record s { woken = erase_idx s.woken i; sleeping = g ∷ s.sleeping }) =
              record {
                total = v.total;
                room = v.room;
                blocked = ground (arith, v.blocked, rid s.generation, current);
                asleep = ground (arith, v.asleep, current);
                early = λ k later. ground (arith, v.early k, rid k, later, current);
                kept = ground (arith, v.kept, less);
                passed = v.passed;
              } in
            ground (arith, current, m)
        | inr older ↦
            let m : Inv (record s { woken = erase_idx s.woken i; departures = s.departures + 1 }) =
              record {
                total = v.total;
                room = v.room;
                blocked = ground (arith, v.blocked, rid s.generation, older);
                asleep = v.asleep;
                early = λ k later. ground (arith, v.early k, rid k, later);
                kept = ground (arith, v.kept, less);
                passed = ground (
                  arith,
                  v.kept,
                  v.total,
                  v.blocked,
                  v.asleep,
                  rid s.generation,
                  older,
                  less,
                  bound,
                );
              } in
            ground (arith, older, m)
      ]

  step-Inv :
      (e : Event) (s t : State)
      → s.arrivals + 1 < 2 ^ 64
      → Inv s
      → step participants e s ≡ some t
      → Inv t
  unfolding step
  step-Inv arrives s t small v e = elim (Bool-cases (s.arrived_count + 1 == participants)) [
    | inl last ↦ subst Inv (ground (arith, e)) (ends-Inv s small last v)
    | inr more ↦ subst Inv (ground (arith, e)) (stays-Inv s more v)
  ]
  step-Inv (wakes i) s t small v e = elim (Option-cases (get_elem? s.sleeping i)) [
    | inl missing ↦ absurd (ground (arith, e, missing))
    | inr (g, found) ↦ subst Inv (ground (arith, e, found)) (wakes-Inv i g s found v)
  ]
  step-Inv (tests i) s t small v e = elim (Option-cases (get_elem? s.woken i)) [
    | inl missing ↦ absurd (ground (arith, e, missing))
    | inr (g, found) ↦ subst Inv (ground (arith, e, found)) (tests-Inv i g s found v)
  ]

  arrivals-step :
      (e : Event) (s t : State) → step participants e s ≡ some t → s.arrivals ≤ t.arrivals
  unfolding step arrive test
  arrivals-step arrives s t e = ground arith
  arrivals-step (wakes i) s t e = ground arith
  arrivals-step (tests i) s t e = ground arith

  arrivals-run :
      (es : List Event) (s t : State) → run participants es s ≡ some t → s.arrivals ≤ t.arrivals
  unfolding run
  arrivals-run [] s t e = ground arith
  arrivals-run (x ∷ es) s t e = elim (Option-cases (step participants x s)) [
    | inl stuck ↦ absurd (ground arith)
    | inr (u, moved) ↦ omega (arith, arrivals-step x s u moved, arrivals-run es u t (ground arith))
  ]

  run-Inv :
      (es : List Event) (s t : State)
      → t.arrivals + 1 < 2 ^ 64
      → Inv s
      → run participants es s ≡ some t
      → Inv t
  unfolding run
  run-Inv [] s t small v e = subst Inv (ground arith) v
  run-Inv (x ∷ es) s t small v e = elim (Option-cases (step participants x s)) [
    | inl stuck ↦ absurd (ground arith)
    | inr (u, moved) ↦
        let rest : run participants es u ≡ some t = ground arith in
        run-Inv es u t small
          (step-Inv x s u
            (omega (arith, small, arrivals-step x s u moved, arrivals-run es u t rest)) v moved)
          rest
  ]

  -- Of a barrier for one participant or more, after fewer than 2 ^ 64 - 1 calls: generations end
  -- when all participants have arrived; no more calls have returned than belong to generations that
  -- have ended; the threads of the current generation that are in the loop, asleep or woken, are as
  -- many as have arrived, fewer than the participants; and whoever sleeps is one of them, so that
  -- nobody sleeps on when its generation has ended.
  pub barrier_generations :
      (es : List Event) (t : State)
      → 0 < participants
      → t.arrivals + 1 < 2 ^ 64
      → run participants es init ≡ some t
      → (t.arrivals ≡ t.generation * participants + t.arrived_count)
        × (t.departures ≤ t.generation * participants)
        × (occurs t.generation t.sleeping + occurs t.generation t.woken ≡ t.arrived_count)
        × (t.arrived_count < participants)
        × (length t.sleeping ≡ occurs t.generation t.sleeping)
  barrier_generations es t some_one small e =
      let v = run-Inv es init t small (ground (arith, some_one)) e in
      (v.total, v.passed, v.blocked, v.room, omega (arith, v.asleep))

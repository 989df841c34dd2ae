-- ===== src/Futures/Chain/Schedule.antt =====
-- The actions of a schedule, one after the other.
use magic_core.Prelude.{
  ◌-◌, ◌≤◌, erase_idx, ℕ, suc, ◌+◌, ◌≡◌, inl, inr, Option-cases, Option, none, some, List, [], ◌∷◌,
  ◌==◌, if◌then◌else◌, arith, length, get_elem?, subst, sym, ◌<◌, refl,
}
use magic_core.Prelude.Totals.{total-erase_idx, All-get, length-set}
use magic_core.Futures.Chain.{
  Answer, Steps, subscribe, via, then_sync, then_async, recover, maps, flattens, recovers, passes,
  Task, sets, calls, builds, State, set_executor, build, perform, step, run, init, start,
}
use magic_core.Futures.Chain.Meaning.{eval, result_of}
use magic_core.Futures.Chain.Invariant.{
  points, at_end, Within, TaskMeans, Inv, task_carries, task_owns, task_reads,
}
use magic_core.Futures.Chain.Hands.{same-Inv, add-Inv, take-Inv}
use magic_core.Futures.Chain.Work.{
  build_work, call_work, task_work, work, work-add, work-set_callback, work-set_executor,
}
use magic_core.Futures.Chain.Actions.{set_callback-Inv, set_executor-Inv}
use magic_core.Futures.Chain.Combination.{chain-Kept}
use magic_core.Futures.Chain.Preservation.{Kept, set-Kept, execute-Kept, invoke-Kept}

module _ {V : Type 0} (goal : Option (Answer V)) where
  build_work-positive : (steps : Steps V) (x : Option (Answer V)) → 0 < build_work steps x
  unfolding build_work
  build_work-positive subscribe x = omega arith
  build_work-positive (via e steps) x = omega arith
  build_work-positive (then_sync f steps) x = omega arith
  build_work-positive (then_async source inner steps) x = omega arith
  build_work-positive (recover h steps) x = omega arith

  task_work-positive : (mu : ℕ → Option (Answer V)) (t : Task V) → 0 < task_work mu t
  unfolding call_work
  task_work-positive mu (sets p r) = omega arith
  task_work-positive mu (calls e (maps f p) r) = omega arith
  task_work-positive mu (calls e (flattens source inner p) r) = omega arith
  task_work-positive mu (calls e (recovers h p) r) = omega arith
  task_work-positive mu (calls e (passes p) r) = omega arith
  task_work-positive mu (builds c steps k) = build_work-positive steps (mu c)

  length-set_executor : (c e : ℕ) (s : State V) → length (set_executor c e s).cells ≡ length s.cells
  unfolding set_executor
  length-set_executor c e s = elim (Option-cases (get_elem? s.cells c)) [
    | inl out ↦ ground (arith, out)
    | inr (cell, found) ↦
        ground (arith, found, length-set s.cells c (record { executor = e; slot = cell.slot }))
  ]

  build-Kept :
      (mu : ℕ → Option (Answer V)) (c : ℕ) (steps : Steps V) (k : Option ℕ) (s : State V) (l : ℕ)
      → at_end mu goal k ≡ eval steps (mu c)
      → c < length s.cells
      → Within (length s.cells) k
      → Inv goal mu 0 (λ p. points p k) (λ d. if d == c then 1 else 0) s
      → work mu s + build_work steps (mu c) ≤ suc l
      → Kept goal l (build c steps k s)
  unfolding build eval result_of build_work call_work
  build-Kept mu c subscribe k s l m b w i few =
      let held =
        same-Inv goal mu 0 0 (λ p. points p k) (λ p. 0 + points p k) (λ d. if d == c then 1 else 0)
          (λ d. 0 + (if d == c then 1 else 0)) s refl (λ p. omega arith) (λ d. omega arith) i in
      (
        mu,
        set_callback-Inv goal mu c (passes k) 0 (λ p. 0) (λ d. 0) s (m, w) held,
        omega (arith, few, work-set_callback mu goal 0 _ _ c (passes k) s held),
      )
  build-Kept mu c (via e steps) k s l m b w i few =
      let t : State V = set_executor c e s in
      let len : length t.cells ≡ length s.cells = length-set_executor c e s in
      let j = set_executor-Inv goal mu c e 0 _ _ s b i in
      (
        mu,
        add-Inv goal mu (builds c steps k) 0 (λ p. 0) (λ d. 0) t
            (m, omega (arith, b, len), subst (λ l. Within l k) (sym len) w)
            (same-Inv goal mu 0 _ _ _ _ _ t (omega arith) (λ p. omega arith) (λ d. omega arith) j),
        omega (arith, few, work-set_executor mu c e s, work-add mu (builds c steps k) t),
      )
  build-Kept mu c (then_sync f steps) k s l m b w i few =
      chain-Kept goal mu c (maps f) steps k s l (λ p. refl) m b w i (omega (arith, few))
  build-Kept mu c (then_async source inner steps) k s l m b w i few =
      chain-Kept goal mu c (flattens source inner) steps k s l (λ p. refl) m b w i
        (omega (arith, few))
  build-Kept mu c (recover h steps) k s l m b w i few =
      chain-Kept goal mu c (recovers h) steps k s l (λ p. refl) m b w i (omega (arith, few))

  perform-Kept :
      (mu : ℕ → Option (Answer V)) (t : Task V) (s : State V) (l : ℕ)
      → TaskMeans goal mu (length s.cells) t
      → Inv goal mu (task_carries t) (λ p. task_owns p t) (λ c. task_reads c t) s
      → work mu s + task_work mu t ≤ suc l
      → Kept goal l (perform t s)
  unfolding perform
  perform-Kept mu (sets p r) s l (m, b) i few = set-Kept goal mu p r s l m i (omega (arith, few))
  perform-Kept mu (calls e cb r) s l m i few = invoke-Kept goal mu cb r s l m i few
  perform-Kept mu (builds c steps k) s l (m, b, w) i few = build-Kept mu c steps k s l m b w i few

  -- Each action is one of those that were left.
  pub step-Kept :
      (j l : ℕ) (s t : State V)
      → Kept goal l s
      → step j s ≡ some t
      → (m : ℕ) × (l ≡ suc m) × Kept goal m t
  unfolding step
  step-Kept j l s t (mu, i, few) moved = elim (Option-cases (get_elem? s.pool j)) [
    | inl out ↦ absurd (ground (arith, out))
    | inr (task, found) ↦
        let means = All-get (TaskMeans goal mu (length s.cells)) s.pool j task found i.tasks in
        let taken = total-erase_idx (task_work mu) s.pool j task found in
        let some_left = task_work-positive mu task in
        let left : l ≡ suc (l - 1) = omega (arith, few, taken, some_left) in
        (
          l - 1,
          left,
          subst (Kept goal (l - 1)) (ground (arith, moved, found)) (
              perform-Kept mu task (record s { pool = erase_idx s.pool j }) (l - 1) means
                (take-Inv goal mu j task s found i) (omega (arith, few, taken, left))),
        )
  ]

  pub run-Kept :
      (js : List ℕ) (l : ℕ) (s t : State V)
      → Kept goal l s
      → run js s ≡ some t
      → (m : ℕ) × (l ≡ length js + m) × Kept goal m t
  unfolding run
  run-Kept [] l s t k e = (l, omega arith, subst (Kept goal l) (ground (arith, e)) k)
  run-Kept (j ∷ js) l s t k e = elim (Option-cases (step j s)) [
    | inl stuck ↦ absurd (ground (arith, stuck))
    | inr (u, moved) ↦
        let (m, one, k') = step-Kept j l s u k moved in
        let (m', more, k'') = run-Kept js m u t k' (ground (arith, moved, e)) in
        (m', omega (arith, one, more), k'')
  ]

  pub start-Kept :
      (e : ℕ) (r : Answer V) (steps : Steps V)
      → goal ≡ eval steps (some r)
      → Kept goal (suc (build_work steps (some r))) (start e r steps)
  unfolding start
  start-Kept e r steps m =
      execute-Kept goal (λ c. none) e r steps none init _ m tt
        (record {
          carried = refl;
          owned = λ p. omega arith;
          unowned = λ p out. refl;
          watched = λ c b. absurd (omega (arith, b));
          unwatched = λ c out. refl;
          tasks = tt;
          slots = λ c cell h. absurd (ground (arith, h));
          reports = tt;
          dead = λ p b. absurd (omega (arith, b));
          lost = λ h. absurd (ground (arith, h));
          sane = refl;
        })
        (omega arith)

-- ===== src/Executors/Manual/Fifo.antt =====
-- A manual executor runs its tasks in order, and as many as it is told to.
use magic_core.Prelude.{
  ℕ, zero, suc, ◌+◌, ◌≤◌, ◌<◌, ◌≡◌, refl, inl, inr, true, false, none, some, List, [], ◌∷◌, ◌++◌,
  arith, ap, sym, ◌∙◌, ◌⊎◌,
}
use mathlib.Core.List.{append_assoc}
use magic_core.Intrusive.{ForwardList}
use magic_core.Executors.Manual.{
  State, execute, execute_all, has_tasks, run_next_task, run_at_most, run_all,
}

module _ (lists : ForwardList ℕ) (spawn : ℕ → List ℕ) where
  open lists use {
    Carrier, empty, push_back, pop_front, to_list, to_list-empty, to_list-push_back,
    pop_front_cases,
  }

  -- The tasks that were run and those that are queued are, in this order, those that were passed
  -- to Execute.
  abbrev pub IsFifo : State Carrier → Type 0
  IsFifo s = s.ran ++ to_list s.tasks ≡ s.log

  pub execute-IsFifo : (x : ℕ) (s : State Carrier) → IsFifo s → IsFifo (execute lists spawn x s)
  unfolding execute
  execute-IsFifo x s f =
      ap (◌++◌ s.ran) (to_list-push_back s.tasks x)
      ∙ sym (append_assoc s.ran (to_list s.tasks) (x ∷ []))
      ∙ ap (λ l. l ++ x ∷ []) f

  execute_all-IsFifo :
      (xs : List ℕ) (s : State Carrier) → IsFifo s → IsFifo (execute_all lists spawn xs s)
  unfolding execute_all
  execute_all-IsFifo [] s f = f
  execute_all-IsFifo (x ∷ xs) s f =
      execute_all-IsFifo xs (execute lists spawn x s) (execute-IsFifo x s f)

  run_next_task-IsFifo :
      (s t : State Carrier) → IsFifo s → run_next_task lists spawn s ≡ some t → IsFifo t
  unfolding run_next_task
  run_next_task-IsFifo s t f e = elim (pop_front_cases s.tasks) [
    | inl (idle, stop) ↦ absurd (ground arith)
    | inr (x, rest, split, popped) ↦
        let moved : IsFifo (record s { tasks = rest; ran = s.ran ++ x ∷ [] }) =
          append_assoc s.ran (x ∷ []) (to_list rest) ∙ ap (◌++◌ s.ran) (sym split) ∙ f in
        let kept = execute_all-IsFifo (spawn x) _ moved in ground (arith, popped, kept)
  ]

  next_cases :
      (s : State Carrier)
      → ((run_next_task lists spawn s ≡ none) × (has_tasks lists spawn s ≡ false))
        ⊎ ((t : State Carrier) × (run_next_task lists spawn s ≡ some t)
            × (has_tasks lists spawn s ≡ true))
  unfolding run_next_task has_tasks
  next_cases s = elim (pop_front_cases s.tasks) [
    | inl (idle, stop) ↦ inl (ground (arith, stop), ground (arith, stop))
    | inr (x, rest, split, popped) ↦ inr (
      execute_all lists spawn (spawn x) (record s { tasks = rest; ran = s.ran ++ x ∷ [] }),
      ground (arith, popped),
      ground (arith, popped),
    )
  ]

  more_here :
      (s t : State Carrier) → run_next_task lists spawn s ≡ some t → has_tasks lists spawn s ≡ true
  more_here s t moved = elim (next_cases s) [
    | inl (stop, _) ↦ absurd (ground (arith, stop))
    | inr (_, _, more) ↦ more
  ]

  -- RunAtMost keeps the order, runs at most as many tasks as it is told to, and stops early only
  -- when no task is left, whatever the tasks pass to the executor while they run.
  pub run_at_most-IsFifo :
      (limit : ℕ) (s : State Carrier)
      → IsFifo s
      → IsFifo (run_at_most lists spawn limit s).1
        × ((run_at_most lists spawn limit s).0 ≤ limit)
        × ((run_at_most lists spawn limit s).0 < limit
            → has_tasks lists spawn (run_at_most lists spawn limit s).1 ≡ false)
  unfolding run_at_most
  run_at_most-IsFifo zero s f = ground (arith, f)
  run_at_most-IsFifo (suc limit) s f = elim (next_cases s) [
    | inl (stop, over) ↦ ground (arith, stop, over, f)
    | inr (t, moved, more) ↦
        let kept = run_at_most-IsFifo limit t (run_next_task-IsFifo s t f moved) in
        ground (arith, moved, kept)
  ]

  stopped :
      (n : ℕ) (s : State Carrier)
      → run_next_task lists spawn s ≡ none
      → run_at_most lists spawn n s ≡ (0, s)
  unfolding run_at_most
  stopped zero s e = refl
  stopped (suc n) s e = ground (arith, e)

  suc_sum : (m n : ℕ) → suc m + n ≡ suc (m + n)
  suc_sum m n = omega arith

  -- RunAtMost twice is RunAtMost of the sum.
  run_at_most_add :
      (m n : ℕ) (s : State Carrier)
      → let first = run_at_most lists spawn m s in
        let second = run_at_most lists spawn n first.1 in
        run_at_most lists spawn (m + n) s ≡ (first.0 + second.0, second.1)
  unfolding run_at_most
  run_at_most_add zero n s = ground arith
  run_at_most_add (suc m) n s =
      let one_more = ap (λ k. run_at_most lists spawn k s) (suc_sum m n) in
      elim (next_cases s) [
        | inl (stop, over) ↦ ground (arith, one_more, stop, stopped n s stop)
        | inr (t, moved, more) ↦ ground (arith, one_more, moved, run_at_most_add m n t)
      ]

  -- Where RunAtMost leaves no task, RunAll ends too and gives the same result.
  pub run_all_lem :
      (n : ℕ) (s : State Carrier)
      → has_tasks lists spawn (run_at_most lists spawn n s).1 ≡ false
      → run_all lists spawn (suc n) s ≡ some (run_at_most lists spawn n s)
  unfolding run_all run_at_most
  run_all_lem zero s h = elim (next_cases s) [
    | inl (stop, over) ↦ ground (arith, stop)
    | inr (t, moved, more) ↦ absurd (ground (arith, more))
  ]
  run_all_lem (suc n) s h = elim (next_cases s) [
    | inl (stop, over) ↦ ground (arith, stop)
    | inr (t, moved, more) ↦ ground (arith, moved, run_all_lem n t)
  ]

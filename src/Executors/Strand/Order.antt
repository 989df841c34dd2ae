-- ===== src/Executors/Strand/Order.antt =====
-- The order of the tasks of the strand, and that none is lost or run twice.
use mathlib.Core.List.{append_assoc, append-nil, reverse-cons}
use magic_core.Prelude.{ℕ, ◌≡◌, List, [], ◌∷◌, ◌++◌, reverse, some, arith, inl, inr}
use magic_core.Intrusive.{ForwardList}
use magic_core.Lockfree.Queue.{to_list-take_all}
use magic_core.Executors.Strand.{
  Phase, starting, submitted, running, rescheduling, State, Event, puts, announces, advances,
  releases, drops, release_ref, execute_put, execute_announce, run_next_batch, run_subtract,
  drop_handle, run_loop, work, step,
}
use magic_core.Executors.Strand.Invariant.{Counts, advance_cases}

module _ (lists : ForwardList ℕ) where
  open lists use {Carrier, pop_front, to_list, pop_front_cases}

  -- Tasks that a job has taken from the queue and not run yet.
  abbrev pub pending : List (Phase Carrier) → List ℕ
  pending [] = []
  pending (running items completed ∷ js) = to_list items ++ pending js
  pending (_ ∷ js) = pending js

  -- Tasks run, tasks taken and tasks waiting are the tasks put, in order.
  abbrev pub IsInOrder : State Carrier → Type 0
  IsInOrder s = s.ran ++ (pending s.jobs ++ reverse s.tasks) ≡ s.log

  execute_put-IsInOrder : (x : ℕ) (s : State Carrier) → IsInOrder s → IsInOrder (execute_put x s)
  unfolding execute_put
  execute_put-IsInOrder x s o = rw (← o) (simp (reverse-cons, append_assoc))

  work-IsInOrder :
      (p : Phase Carrier) (s : State Carrier)
      → s.jobs ≡ p ∷ []
      → s.ran ++ (pending (p ∷ []) ++ reverse s.tasks) ≡ s.log
      → IsInOrder (work lists 0 p s)
  unfolding work run_next_batch run_loop run_subtract
  work-IsInOrder starting s e o = ground arith
  work-IsInOrder submitted s e o = rw e (simp (to_list-take_all, append-nil) o)
  work-IsInOrder (running items n) s e o = elim (pop_front_cases items) [
    | inl (empty, stop) ↦ ground arith
    | inr (x, rest, items_eq, popped) ↦
        rw (popped, run_loop, e)
          (simp (append_assoc, append-nil) (simp (items_eq, append-nil) at o))
  ]
  work-IsInOrder rescheduling s e o = ground arith

  pub step-IsInOrder :
      (e : Event) (s t : State Carrier)
      → Counts lists s
      → IsInOrder s
      → step lists e s ≡ some t
      → IsInOrder t
  unfolding step release_ref drop_handle execute_announce
  step-IsInOrder (puts x) s t c o e = ground (arith, execute_put-IsInOrder x s o)
  step-IsInOrder announces s t c o e = ground arith
  step-IsInOrder (advances i) s t c o e =
      advance_cases lists IsInOrder i s t (omega (arith, c.turn))
        (λ p only. work-IsInOrder p s only (rw only at o)) e
  step-IsInOrder releases s t c o e = ground arith
  step-IsInOrder drops s t c o e = ground arith

-- ===== src/Executors/Strand/Lifetime.antt =====
-- The references to the implementation of the strand: one of the handle, one of each run.
use magic_core.Prelude.{
  ℕ, zero, suc, ◌+◌, ◌≤◌, ◌<◌, ◌^◌, ◌≡◌, ◌↔◌, inl, inr, ap, Bool, true, false, List, [], ◌∷◌, some,
  arith, length, length-append, length-reverse, reverse,
}
use magic_core.Intrusive.{ForwardList}
use magic_core.Lockfree.Queue.{to_list-take_all}
use magic_core.Executors.Strand.{
  Phase, starting, submitted, running, rescheduling, State, Event, puts, announces, advances,
  releases, drops, init, release_ref, execute_put, execute_announce, run_next_batch, run_subtract,
  drop_handle, any_starting, run_loop, work, step,
}
use magic_core.Executors.Strand.Invariant.{Counts, advance_cases}

module _ (lists : ForwardList ℕ) where
  open lists use {Carrier, pop_front, to_list, pop_front_cases}

  -- References that a job holds.
  abbrev pub holds : List (Phase Carrier) → ℕ
  holds [] = 0
  holds (starting ∷ js) = holds js
  holds (_ ∷ js) = 1 + holds js

  -- Tasks that a job has run, or is sure to run, counted up to one.
  abbrev pub earned : List (Phase Carrier) → ℕ
  earned [] = 0
  earned (running items zero ∷ js) = earned js
  earned (running items (suc n) ∷ js) = 1 + earned js
  earned (rescheduling ∷ js) = 1 + earned js
  earned (_ ∷ js) = earned js

  -- A job that has run no task yet has one at hand.
  abbrev pub IsStocked : List (Phase Carrier) → Type 0
  IsStocked [] = Unit
  IsStocked (running items n ∷ js) = (0 < length (to_list items) + n) × IsStocked js
  IsStocked (_ ∷ js) = IsStocked js

  abbrev pub owner : Bool → ℕ
  owner true = 1
  owner false = 0

  pub record Refs (s : State Carrier) : Type 0 where
    pub counted : s.refs ≡ owner s.owned + (holds s.jobs + s.releasing)
    pub few : s.releasing + earned s.jobs ≤ length s.ran
    pub stocked : IsStocked s.jobs
    pub entered : s.owned ≡ false → (s.entering ≡ 0) × (any_starting s.jobs ≡ false)
    pub ends : (s.destroyed ≡ true) ↔ (s.refs ≡ 0)

  holds-le-length : (js : List (Phase Carrier)) → holds js ≤ length js
  holds-le-length [] = omega arith
  holds-le-length (starting ∷ js) = omega (arith, holds-le-length js)
  holds-le-length (_ ∷ js) = omega (arith, holds-le-length js)

  run_loop-Refs :
      (items : Carrier) (n : ℕ) (s : State Carrier)
      → length s.ran < 2 ^ 63
      → s.jobs ≡ running items n ∷ []
      → Counts lists s
      → Refs s
      → Refs (run_loop lists 0 items n s)
  unfolding run_loop run_subtract any_starting
  run_loop-Refs items zero s small e c r = elim (pop_front_cases items) [
    | inl (empty, stop) ↦ ground arith
    | inr (x, rest, items_eq, popped) ↦ ground (arith, length-append s.ran (x ∷ []))
  ]
  run_loop-Refs items (suc n) s small e c r = elim (pop_front_cases items) [
    | inl (empty, stop) ↦ ground arith
    | inr (x, rest, items_eq, popped) ↦ ground (arith, length-append s.ran (x ∷ []))
  ]

  work-Refs :
      (p : Phase Carrier) (s : State Carrier)
      → length s.ran < 2 ^ 63
      → s.jobs ≡ p ∷ []
      → Counts lists s
      → Refs s
      → Refs (work lists 0 p s)
  unfolding work run_next_batch any_starting
  work-Refs starting s small e c r = ground arith
  work-Refs submitted s small e c r = ground (
    arith,
    ap length (to_list-take_all lists s.tasks),
    length-append (reverse s.tasks) [],
    length-reverse s.tasks,
  )
  work-Refs (running items n) s small e c r = run_loop-Refs items n s small e c r
  work-Refs rescheduling s small e c r = ground arith

  pub step-Refs :
      (e : Event) (s t : State Carrier)
      → length s.ran < 2 ^ 63
      → Counts lists s
      → Refs s
      → step lists e s ≡ some t
      → Refs t
  unfolding step release_ref drop_handle execute_announce execute_put any_starting
  step-Refs (puts x) s t small c r e = ground arith
  step-Refs announces s t small c r e = ground arith
  step-Refs (advances i) s t small c r e =
      advance_cases lists Refs i s t (omega (arith, c.turn))
        (λ p only. work-Refs p s small only c r) e
  step-Refs releases s t small c r e = ground (arith, holds-le-length s.jobs)
  step-Refs drops s t small c r e = ground (arith, holds-le-length s.jobs)

  pub init-Refs : Refs init
  init-Refs = ground arith

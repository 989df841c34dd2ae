-- ===== src/Executors/Strand/Invariant.antt =====
-- The counter of the strand: it tells how many tasks are announced and not yet settled, and who is
-- responsible for the next batch.
use magic_core.Prelude.{
  ℕ, zero, suc, ◌+◌, ◌%◌, ◌^◌, ◌≤◌, ◌<◌, ◌≡◌, refl, subst, ◌≢◌, ◌⊎◌, inl, inr, some, List, [], ◌∷◌,
  get_elem?, length, length-append, length-reverse, reverse, arith, Option-cases, ap,
}
use magic_core.Intrusive.{ForwardList}
use magic_core.Lockfree.Queue.{to_list-take_all}
use magic_core.Executors.Strand.{
  word, Phase, starting, submitted, running, rescheduling, State, Event, puts, announces, advances,
  releases, drops, init, release_ref, execute_put, execute_announce, run_next_batch, drop_handle,
  run_loop, work, step,
}

module _ (lists : ForwardList ℕ) where
  open lists use {Carrier, pop_front, to_list, pop_front_cases}

  -- Tasks that a job has taken and not yet subtracted from the counter.
  abbrev pub unsettled : List (Phase Carrier) → ℕ
  unsettled [] = 0
  unsettled (running items completed ∷ js) = length (to_list items) + completed + unsettled js
  unsettled (_ ∷ js) = unsettled js

  abbrev pub backlog : State Carrier → ℕ
  backlog s = length s.tasks + unsettled s.jobs

  pub record Counts (s : State Carrier) : Type 0 where
    pub settled : (s.counter + s.entering) % word ≡ backlog s
    pub ranged : s.counter < word
    pub known : (s.entering ≤ length s.log) × (backlog s ≤ length s.log)
    pub turn :
        ((length s.jobs ≡ 0) × (backlog s ≤ s.entering))
        ⊎ ((length s.jobs ≡ 1) × (s.entering < backlog s))

  pub only_job :
      (js : List (Phase Carrier)) (i : ℕ) (p : Phase Carrier)
      → length js ≤ 1
      → get_elem? js i ≡ some p
      → (js ≡ p ∷ []) × (i ≡ 0)
  only_job [] i p h e = ground arith
  only_job (q ∷ []) zero p h e = ground arith
  only_job (q ∷ []) (suc i) p h e = ground arith
  only_job (q ∷ r ∷ js) i p h e = absurd (omega arith)

  execute_put-Counts :
      (x : ℕ) (s : State Carrier) → length s.log < 2 ^ 63 → Counts s → Counts (execute_put x s)
  unfolding execute_put
  execute_put-Counts x s small c = ground (arith, length-append s.log (x ∷ []))

  execute_announce-Counts :
      (s : State Carrier)
      → length s.log < 2 ^ 63
      → s.entering ≢ 0
      → Counts s
      → Counts (execute_announce s)
  unfolding execute_announce
  execute_announce-Counts s small h c = ground arith

  run_next_batch-Counts :
      (p : Phase Carrier) (s : State Carrier)
      → unsettled (p ∷ []) ≡ 0
      → s.jobs ≡ p ∷ []
      → Counts s
      → Counts (run_next_batch 0 s)
  unfolding run_next_batch
  run_next_batch-Counts p s z e c = ground arith

  take-Counts :
      (s : State Carrier) → s.jobs ≡ submitted ∷ [] → Counts s → Counts (work lists 0 submitted s)
  unfolding work
  take-Counts s e c = ground (
    arith,
    ap length (to_list-take_all lists s.tasks),
    length-append (reverse s.tasks) [],
    length-reverse s.tasks,
  )

  run_loop-Counts :
      (items : Carrier) (n : ℕ) (s : State Carrier)
      → length s.log < 2 ^ 63
      → s.jobs ≡ running items n ∷ []
      → Counts s
      → Counts (run_loop lists 0 items n s)
  unfolding run_loop
  run_loop-Counts items n s small e c = ground (arith, pop_front_cases items)

  work-Counts :
      (p : Phase Carrier) (s : State Carrier)
      → length s.log < 2 ^ 63
      → s.jobs ≡ p ∷ []
      → Counts s
      → Counts (work lists 0 p s)
  unfolding work
  work-Counts starting s small e c = run_next_batch-Counts starting s refl e c
  work-Counts submitted s small e c = take-Counts s e c
  work-Counts (running items n) s small e c = run_loop-Counts items n s small e c
  work-Counts rescheduling s small e c =
      ground (arith, run_next_batch-Counts rescheduling s refl e c)

  -- The job that an event advances is the only one.
  pub advance_cases {κ} :
      (P : State Carrier → Type κ) (i : ℕ) (s t : State Carrier)
      → length s.jobs ≤ 1
      → ((p : Phase Carrier) → s.jobs ≡ p ∷ [] → P (work lists 0 p s))
      → step lists (advances i) s ≡ some t
      → P t
  unfolding step
  advance_cases P i s t one keep e = elim (Option-cases (get_elem? s.jobs i)) [
    | inl missing ↦ absurd (ground arith)
    | inr (p, found) ↦
        let (only, first) = only_job s.jobs i p one found in subst P (ground arith) (keep p only)
  ]

  pub step-Counts :
      (e : Event) (s t : State Carrier)
      → length s.log < 2 ^ 63
      → Counts s
      → step lists e s ≡ some t
      → Counts t
  unfolding step release_ref drop_handle
  step-Counts (puts x) s t small c e = ground (arith, execute_put-Counts x s small c)
  step-Counts announces s t small c e = ground (arith, execute_announce-Counts s small)
  step-Counts (advances i) s t small c e =
      advance_cases Counts i s t (omega (arith, c.turn)) (λ p only. work-Counts p s small only c) e
  step-Counts releases s t small c e = ground arith
  step-Counts drops s t small c e = ground arith

  pub init-Counts : Counts init
  init-Counts = omega arith

-- ===== src/Executors/ThreadPool/Invariant.antt =====
-- The invariant of the thread pool: where every task is, and that no task waits for a sleeping
-- worker. Each event keeps it.
use magic_core.Prelude.{
  ℕ, ◌+◌, ◌^◌, ◌≤◌, ◌<◌, ◌≡◌, ◌≢◌, inl, inr, Bool, true, false, some, List, [], ◌∷◌, ◌++◌,
  get_elem?, arith, length, length-append, Option-cases,
}
use magic_core.Prelude.Occurs.{occurs, occurs-append, occurs-erase_idx, length-erase_idx}
use magic_core.Intrusive.{ForwardList}
use magic_core.Executors.ThreadPool.{
  Closer, settling, joining, State, Event, executes, puts, refuses, leaves, takes, wakes, runs,
  finishes, stops, disposes, add, done, is_unlocked, notify_one, notify_all, init, put, take_task,
  dispose, step,
}

module _ (lists : ForwardList ℕ) where
  open lists use {
    Carrier, empty, push_back, pop_front, to_list, to_list-empty, to_list-push_back,
    pop_front_cases,
  }

  abbrev pub in_disposer : Closer → ℕ
  in_disposer settling = 1
  in_disposer _ = 0

  abbrev pub Closing : Closer → Bool → List ℕ → Type 0
  Closing joining closed items = (closed ≡ true) × (items ≡ [])
  Closing _ closed items = closed ≡ false

  -- Tasks that are counted and not yet settled.
  abbrev pub outstanding : State Carrier → ℕ
  outstanding s =
      length s.entering
      + length (to_list s.items)
      + length s.refused
      + length s.running
      + (s.leaving + s.finishing + in_disposer s.closer)

  -- How often a task is on its way, or has been run or discarded.
  abbrev pub sightings : ℕ → State Carrier → ℕ
  sightings x s =
      occurs x s.entering
      + occurs x (to_list s.items)
      + occurs x s.refused
      + occurs x s.running
      + (occurs x s.ran + occurs x s.discarded)

  pub record Inv (threads : ℕ) (s : State Carrier) : Type 0 where
    pub counted : s.counter ≡ outstanding s
    pub few : outstanding s ≤ length s.log
    pub seen : (x : ℕ) → sightings x s ≡ occurs x s.log
    pub closing : Closing s.closer s.closed (to_list s.items)
    pub awake : s.sleeping ≢ 0 → (length (to_list s.items) ≤ s.free) × (s.closed ≡ false)
    pub crew : length s.running + s.finishing + s.free + s.sleeping + s.exited ≡ threads
    pub stay : s.exited ≢ 0 → s.closed ≡ true

  pub init-Inv : (threads : ℕ) → Inv threads (init lists threads)
  init-Inv threads = ground (arith, to_list-empty)

  pub step-Inv :
      (threads : ℕ) (e : Event) (s t : State Carrier)
      → length s.log < 2 ^ 63
      → Inv threads s
      → step lists e s ≡ some t
      → Inv threads t
  unfolding step add done is_unlocked put notify_one notify_all take_task dispose
  step-Inv threads (executes x) s t small v e = record {
    counted = ground (arith, v.counted, v.few);
    few = ground (arith, v.few);
    seen = λ y. ground (arith, v.seen y);
    closing = ground (arith, v.closing);
    awake = ground (arith, v.awake);
    crew = ground (arith, v.crew);
    stay = ground (arith, v.stay);
  }
  step-Inv threads (puts i) s t small v e = elim (Option-cases (get_elem? s.entering i)) [
    | inl missing ↦ absurd (ground arith)
    | inr (x, found) ↦
        let shorter = length-erase_idx s.entering i x found in
        let rid = occurs-erase_idx s.entering i x found in
        let pushed = to_list-push_back s.items x in
        let longer = length-append (to_list s.items) (x ∷ []) in
        let more : (y : ℕ)
            → occurs y (to_list s.items ++ x ∷ [])
              ≡ occurs y (to_list s.items) + occurs y (x ∷ []) =
          λ y. occurs-append y (to_list s.items) (x ∷ []) in
        ground (arith, shorter, rid, pushed, longer, more)
  ]
  step-Inv threads (refuses i) s t small v e = elim (Option-cases (get_elem? s.refused i)) [
    | inl missing ↦ absurd (ground arith)
    | inr (x, found) ↦
        ground (arith, length-erase_idx s.refused i x found, occurs-erase_idx s.refused i x found)
  ]
  step-Inv threads leaves s t small v e = ground arith
  step-Inv threads takes s t small v e = ground (arith, pop_front_cases s.items)
  step-Inv threads wakes s t small v e = ground arith
  step-Inv threads (runs i) s t small v e = elim (Option-cases (get_elem? s.running i)) [
    | inl missing ↦ absurd (ground arith)
    | inr (x, found) ↦
        ground (arith, length-erase_idx s.running i x found, occurs-erase_idx s.running i x found)
  ]
  step-Inv threads finishes s t small v e = ground arith
  step-Inv threads stops s t small v e = ground arith
  step-Inv threads disposes s t small v e = ground (arith, pop_front_cases s.items)

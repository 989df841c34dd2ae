-- ===== src/Sync/Mutex/Handover.antt =====
-- Unlocking a mutex ends, and hands the mutex to a waiter if there is one.
use magic_core.Prelude.{
  ℕ, Bool, true, false, ◌==◌, All, ◌+◌, ◌≡◌, refl, ◌⊎◌, inl, inr, some, List, [], ◌∷◌, arith, ◌∙◌,
  sym,
}
use magic_core.Intrusive.{ForwardList}
use magic_core.Sync.Mutex.{
  unlocked, locked, Place, outside, enqueuing, loaded, queued, owning, releasing, clearing,
  flushing, State, Event, unlocks, advances, stack_of, go, release_load, clear, init,
  resume_next_waiter, append_to_list, release, flush, advance, unlock, step, run,
}
use magic_core.Prelude.Occurs.{occurs, occurs-append}
use magic_core.Sync.Mutex.Invariant.{holds, waits, Inv, to_list-append_to_list}
use magic_core.Sync.Mutex.Release.{holder}
use magic_core.Sync.Mutex.Exclusion.{step-Inv, reach-Inv}

waits_one : (p : Place) → waits p ≡ 1 → p ≡ queued
waits_one queued h = refl
waits_one outside h = absurd (omega arith)
waits_one enqueuing h = absurd (omega arith)
waits_one (loaded seen) h = absurd (omega arith)
waits_one owning h = absurd (omega arith)
waits_one releasing h = absurd (omega arith)
waits_one clearing h = absurd (omega arith)
waits_one flushing h = absurd (omega arith)

-- Whether the fiber is the one that acts.
abbrev pub is_of : ℕ → Event → Bool
is_of f (unlocks g) = f == g
is_of f (advances g) = f == g
is_of f _ = false

same_fiber : (f : ℕ) → (f == f) ≡ true
same_fiber f = ground arith

module _ (lists : ForwardList ℕ) where
  open lists use {Carrier, pop_front, to_list, pop_front_cases}

  -- The fiber `f` can leave by its own actions alone. Then either nobody waits and the mutex is
  -- unlocked, or one that waits has it.
  abbrev pub HandsOver : ℕ → State Carrier → Type 0
  HandsOver f s =
      (es : List Event) × (t : State Carrier) × (run lists es s ≡ some t)
      × All (λ e. is_of f e ≡ true) es
      × (t.places f ≡ outside)
      × (((t.word ≡ unlocked) × ((g : ℕ) → waits (s.places g) ≡ 0))
          ⊎ ((g : ℕ) × (waits (s.places g) ≡ 1) × (t.places g ≡ owning)))

  prepend :
      (e : Event) (f : ℕ) (s u : State Carrier)
      → is_of f e ≡ true
      → step lists e s ≡ some u
      → ((g : ℕ) → waits (u.places g) ≡ waits (s.places g))
      → HandsOver f u
      → HandsOver f s
  unfolding run
  prepend e f s u mine moved same (es, t, r, own, gone, inl (free, idle)) =
      (e ∷ es, t, ground arith, (mine, own), gone, inl (free, λ g. sym (same g) ∙ idle g))
  prepend e f s u mine moved same (es, t, r, own, gone, inr (g, waiting, got)) =
      (e ∷ es, t, ground arith, (mine, own), gone, inr (g, sym (same g) ∙ waiting, got))

  resume_hands :
      (f : ℕ) (s : State Carrier)
      → holds (s.places f) ≡ 1
      → ((g : ℕ) → occurs g (stack_of s.word) + occurs g (to_list s.waiters) ≡ waits (s.places g))
      → ¬ (to_list s.waiters ≡ [])
      → (g : ℕ) × (waits (s.places g) ≡ 1)
        × ((resume_next_waiter lists f s).places g ≡ owning)
        × ((resume_next_waiter lists f s).places f ≡ outside)
  unfolding resume_next_waiter go
  resume_hands f s mine wait full = elim (pop_front_cases s.waiters) [
    | inl (empty, _) ↦ absurd (full empty)
    | inr (next, rest, split, popped) ↦ (
      next,
      ground (arith, wait next, split),
      ground (arith, popped),
      ground (arith, popped, wait next, split, waits_one (s.places next)),
    )
  ]

  flush_hands : (f : ℕ) (s : State Carrier) → s.places f ≡ flushing → Inv lists s → HandsOver f s
  unfolding run step advance flush
  flush_hands f s here v =
      let (stack, mine, taken, stage) = holder lists f s (ground arith) v in
      let listed = to_list-append_to_list lists (stack_of s.word) s.waiters in
      let s' : State Carrier = record s {
        waiters = append_to_list lists (stack_of s.word) s.waiters;
        word = locked [];
      } in
      let (g, waiting, got, left) =
        resume_hands f s' (ground arith)
          (λ g.
            ground (arith, v.wait g, listed, occurs-append g (to_list s.waiters) (stack_of s.word)))
          (ground (arith, listed, stage, taken, here)) in
      (
        advances f ∷ [],
        resume_next_waiter lists f s',
        ground (arith, here),
        (same_fiber f, tt),
        left,
        inr (g, waiting, got),
      )

  clear_hands :
      (f : ℕ) (s : State Carrier)
      → s.places f ≡ clearing
      → s.word ≡ locked []
      → Inv lists s
      → HandsOver f s
  unfolding run step advance clear go
  clear_hands f s here taken v =
      let (stack, mine, same, stage) = holder lists f s (ground arith) v in
      (
        advances f ∷ [],
        record (go f outside s) { word = unlocked },
        ground (arith, here, taken),
        (same_fiber f, tt),
        ground arith,
        inl (refl, λ g. ground (arith, v.wait g, taken, here, stage)),
      )

  -- Release after its load.
  go_hands :
      (e : Event) (f : ℕ) (p : Place) (s : State Carrier)
      → is_of f e ≡ true
      → step lists e s ≡ some (go f p s)
      → waits p ≡ 0
      → waits (s.places f) ≡ 0
      → Inv lists s
      → (Inv lists (go f p s) → HandsOver f (go f p s))
      → HandsOver f s
  unfolding go
  go_hands e f p s mine moved new old v next =
      prepend e f s (go f p s) mine moved (λ g. ground arith)
        (next (step-Inv lists e s (go f p s) v moved))

  load_hands : (f : ℕ) (s : State Carrier) → s.places f ≡ releasing → Inv lists s → HandsOver f s
  unfolding step advance release_load go
  load_hands f s here v =
      let (stack, mine, taken, stage) = holder lists f s (ground arith) v in load stack taken
    where
      load : (stack : List ℕ) → s.word ≡ locked stack → HandsOver f s
      load [] taken =
          go_hands (advances f) f clearing s (same_fiber f) (ground (arith, here, taken)) refl
            (ground (arith, here)) v (clear_hands f (go f clearing s) (ground arith) taken)
      load (x ∷ xs) taken =
          go_hands (advances f) f flushing s (same_fiber f) (ground (arith, here, taken)) refl
            (ground (arith, here)) v (flush_hands f (go f flushing s) (ground arith))

  swap_hands : (f : ℕ) (s : State Carrier) → s.places f ≡ clearing → Inv lists s → HandsOver f s
  unfolding step advance clear go
  swap_hands f s here v =
      let (stack, mine, taken, stage) = holder lists f s (ground arith) v in swap stack taken
    where
      swap : (stack : List ℕ) → s.word ≡ locked stack → HandsOver f s
      swap [] taken = clear_hands f s here taken v
      swap (x ∷ xs) taken =
          go_hands (advances f) f releasing s (same_fiber f) (ground (arith, here, taken)) refl
            (ground (arith, here)) v (load_hands f (go f releasing s) (ground arith))

  unlock_hands : (f : ℕ) (s : State Carrier) → s.places f ≡ owning → Inv lists s → HandsOver f s
  unfolding run step unlock release go
  unlock_hands f s here v = elim (pop_front_cases s.waiters) [
    | inl (none_left, stop) ↦
        go_hands (unlocks f) f releasing s (same_fiber f) (ground (arith, here, stop)) refl
          (ground (arith, here)) v (load_hands f (go f releasing s) (ground arith))
    | inr (next, rest, split, popped) ↦
        let (g, waiting, got, left) =
          resume_hands f s (ground arith) v.wait (ground (arith, split)) in
        (
          unlocks f ∷ [],
          resume_next_waiter lists f s,
          ground (arith, here, popped),
          (same_fiber f, tt),
          left,
          inr (g, waiting, got),
        )
  ]

  -- From every state that a mutex reaches, the fiber that holds it, wherever it stands, gives it
  -- back by its own actions alone: then either no fiber was waiting and the mutex is unlocked, or a
  -- fiber that was waiting owns it.
  pub mutex-HandsOver :
      (es : List Event) (t : State Carrier) (f : ℕ)
      → run lists es (init lists) ≡ some t
      → holds (t.places f) ≡ 1
      → HandsOver f t
  mutex-HandsOver es t f e h = start (t.places f) refl h
    where
      v : Inv lists t
      v = reach-Inv lists es t e

      start : (p : Place) → t.places f ≡ p → holds p ≡ 1 → HandsOver f t
      start owning here one = unlock_hands f t here v
      start releasing here one = load_hands f t here v
      start clearing here one = swap_hands f t here v
      start flushing here one = flush_hands f t here v
      start outside here one = absurd (omega arith)
      start enqueuing here one = absurd (omega arith)
      start (loaded seen) here one = absurd (omega arith)
      start queued here one = absurd (omega arith)

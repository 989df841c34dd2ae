-- ===== src/Sync/Mutex/Exclusion.antt =====
-- At most one fiber holds a mutex, and every fiber that waits is linked, once, behind a holder.
use magic_core.Prelude.{
  ℕ, ◌+◌, ◌≡◌, refl, inl, inr, false, some, List, [], ◌∷◌, arith, Option-cases, subst,
}
use magic_core.Intrusive.{ForwardList}
use magic_core.Sync.Mutex.{
  seen_unlocked, seen_no_waiters, seen_head, observe, Place, outside, enqueuing, loaded, queued,
  owning, releasing, clearing, flushing, State, Event, tries, locks, unlocks, advances, stack_of,
  init, advance, acquire, unlock, step, run,
}
use magic_core.Prelude.Occurs.{occurs}
use magic_core.Sync.Mutex.Invariant.{
  holds, waits, indicator_one, Inv, init-Inv, go-Inv, try_lock-Inv, enqueue-Inv, word_cases,
}
use magic_core.Sync.Mutex.Release.{release-Inv, release_load-Inv, clear-Inv, flush-Inv}

module _ (lists : ForwardList ℕ) where
  open lists use {Carrier, to_list}

  advance-Inv :
      (f : ℕ) (p : Place) (s t : State Carrier)
      → s.places f ≡ p
      → Inv lists s
      → advance lists f p s ≡ some t
      → Inv lists t
  unfolding advance
  advance-Inv f outside s t here v e = absurd (ground arith)
  advance-Inv f queued s t here v e = absurd (ground arith)
  advance-Inv f owning s t here v e = absurd (ground arith)
  advance-Inv f enqueuing s t here v e = subst (Inv lists) (ground arith) (
      go-Inv lists f (loaded (observe s.word)) s (ground arith) (ground arith)
        (λ h. absurd (omega arith)) v)
  advance-Inv f (loaded seen_unlocked) s t here v e =
      subst (Inv lists) (ground arith) (try_lock-Inv lists f enqueuing s refl (ground arith) v)
  advance-Inv f (loaded seen_no_waiters) s t here v e =
      subst (Inv lists) (ground arith) (enqueue-Inv lists f seen_no_waiters s here v refl)
  advance-Inv f (loaded (seen_head n)) s t here v e =
      subst (Inv lists) (ground arith) (enqueue-Inv lists f (seen_head n) s here v refl)
  advance-Inv f releasing s t here v e =
      subst (Inv lists) (ground arith) (release_load-Inv lists f s here v)
  advance-Inv f clearing s t here v e =
      subst (Inv lists) (ground arith) (clear-Inv lists f s here v)
  advance-Inv f flushing s t here v e =
      subst (Inv lists) (ground arith) (flush-Inv lists f s here v)

  acquire-Inv :
      (f : ℕ) (otherwise p : Place) (s t : State Carrier)
      → s.places f ≡ p
      → holds otherwise + waits otherwise ≡ 0
      → Inv lists s
      → acquire lists f otherwise p s ≡ some t
      → Inv lists t
  unfolding acquire
  acquire-Inv f otherwise outside s t here fresh v e =
      subst (Inv lists) (ground arith) (try_lock-Inv lists f otherwise s fresh (ground arith) v)
  acquire-Inv f otherwise _ s t here fresh v e = absurd (ground arith)

  unlock-Inv :
      (f : ℕ) (p : Place) (s t : State Carrier)
      → s.places f ≡ p
      → Inv lists s
      → unlock lists f p s ≡ some t
      → Inv lists t
  unfolding unlock
  unlock-Inv f owning s t here v e = subst (Inv lists) (ground arith) (release-Inv lists f s here v)
  unlock-Inv f _ s t here v e = absurd (ground arith)

  pub step-Inv :
      (e : Event) (s t : State Carrier) → Inv lists s → step lists e s ≡ some t → Inv lists t
  unfolding step
  step-Inv (tries f) s t v e = acquire-Inv f outside (s.places f) s t refl refl v e
  step-Inv (locks f) s t v e = acquire-Inv f enqueuing (s.places f) s t refl refl v e
  step-Inv (unlocks f) s t v e = unlock-Inv f (s.places f) s t refl v e
  step-Inv (advances f) s t v e = advance-Inv f (s.places f) s t refl v e

  run-Inv :
      (es : List Event) (s t : State Carrier) → Inv lists s → run lists es s ≡ some t → Inv lists t
  unfolding run
  run-Inv [] s t v e = subst (Inv lists) (ground arith) v
  run-Inv (x ∷ es) s t v e = elim (Option-cases (step lists x s)) [
    | inl stuck ↦ absurd (ground arith)
    | inr (u, moved) ↦ run-Inv es u t (step-Inv x s u v moved) (ground arith)
  ]

  pub reach-Inv :
      (es : List Event) (t : State Carrier) → run lists es (init lists) ≡ some t → Inv lists t
  reach-Inv es t e = run-Inv es (init lists) t (init-Inv lists) e

  pub mutex_exclusive :
      (es : List Event) (t : State Carrier)
      → run lists es (init lists) ≡ some t
      → (t.failed ≡ false) × ((f g : ℕ) → holds (t.places f) ≡ 1 → holds (t.places g) ≡ 1 → f ≡ g)
  mutex_exclusive es t e = (
    v.sane,
    λ f g one other.
        let first = indicator_one v.owner f (omega (arith, v.held f)) in
        let second = indicator_one v.owner g (omega (arith, v.held g)) in ground arith,
  )
    where
      v : Inv lists t
      v = reach-Inv es t e

  -- A fiber is suspended exactly when its node is linked in state_ or in waiters_, and then it is
  -- linked once. While a fiber is suspended another one holds the mutex: no waiter is lost.
  pub mutex_waiters :
      (es : List Event) (t : State Carrier) (f : ℕ)
      → run lists es (init lists) ≡ some t
      → (occurs f (stack_of t.word) + occurs f (to_list t.waiters) ≡ waits (t.places f))
        × (t.places f ≡ queued → (g : ℕ) × (holds (t.places g) ≡ 1))
  mutex_waiters es t f e = (
    v.wait f,
    λ waiting. elim (Option-cases v.owner) [
      | inl idle ↦ elim (word_cases t.word) [
        | inl free ↦ absurd (ground (arith, v.wait f, v.tied, idle, free))
        | inr (stack, taken) ↦ absurd (ground (arith, v.tied, idle, taken))
      ]
      | inr (g, mine) ↦ (g, ground (arith, v.held g, mine))
    ],
  )
    where
      v : Inv lists t
      v = reach-Inv es t e

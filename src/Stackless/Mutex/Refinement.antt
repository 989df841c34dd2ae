-- ===== src/Stackless/Mutex/Refinement.antt =====
-- The mutex with links in a store refines the mutex whose word holds the list of its waiters.
use magic_core.Prelude.{ℕ, ◌≡◌, refl, false, some, List, [], ◌∷◌, arith, subst, ap, ◌∙◌, sym}
use magic_core.Prelude.Simulation.{Match, together, matched}
use magic_core.Intrusive.{ForwardList}
use magic_core.Sync.Mutex
use magic_core.Sync.Mutex.{
  unlocked, locked, observe, stack_of, Seen, seen_unlocked, seen_no_waiters, seen_head, same_seen,
  Place, outside, enqueuing, loaded, queued, owning, releasing, clearing, flushing, move, Event,
  tries, locks, unlocks, advances,
}
use magic_core.Sync.Mutex.Invariant.{Inv, init-Inv, holds}
use magic_core.Sync.Mutex.Exclusion.{step-Inv, mutex_exclusive}
use magic_core.Stackless.Mutex.{State, go, init, advance, acquire, unlock, step, run}
use magic_core.Stackless.Mutex.Representation.{
  Rep, go-Rep, try_lock-Rep, enqueue-Rep, release_load-Rep, clear-Rep, release-Rep, flush-Rep,
}

module _ (lists : ForwardList ℕ) where
  open lists use {Carrier}

  advance-Rep :
      (f : ℕ) (p : Place) (c : State Carrier) (a : Mutex.State Carrier)
      → a.places f ≡ p
      → Inv lists a
      → Rep lists c a
      → Match (Rep lists) (advance lists f p c) (Mutex.advance lists f p a)
  unfolding advance Mutex.advance
  advance-Rep f outside c a here v r = tt
  advance-Rep f queued c a here v r = tt
  advance-Rep f owning c a here v r = tt
  advance-Rep f enqueuing c a here v r =
      let moved = go-Rep lists f (loaded (observe a.word)) c a r in
      subst (λ w. Rep lists (go f (loaded w) c) (Mutex.go f (loaded (observe a.word)) a))
        (sym r.word) moved
  advance-Rep f (loaded seen_unlocked) c a here v r = try_lock-Rep lists f enqueuing c a r
  advance-Rep f (loaded seen_no_waiters) c a here v r =
      enqueue-Rep lists f seen_no_waiters c a (ground (arith, v.wait f, here)) r
  advance-Rep f (loaded (seen_head n)) c a here v r =
      enqueue-Rep lists f (seen_head n) c a (ground (arith, v.wait f, here)) r
  advance-Rep f releasing c a here v r = release_load-Rep lists f c a r
  advance-Rep f clearing c a here v r = clear-Rep lists f c a r
  advance-Rep f flushing c a here v r = flush-Rep lists f c a r

  acquire-Rep :
      (f : ℕ) (otherwise p : Place) (c : State Carrier) (a : Mutex.State Carrier)
      → Rep lists c a
      → Match (Rep lists) (acquire lists f otherwise p c) (Mutex.acquire lists f otherwise p a)
  unfolding acquire Mutex.acquire
  acquire-Rep f otherwise outside c a r = try_lock-Rep lists f otherwise c a r
  acquire-Rep f otherwise _ c a r = tt

  unlock-Rep :
      (f : ℕ) (p : Place) (c : State Carrier) (a : Mutex.State Carrier)
      → Rep lists c a
      → Match (Rep lists) (unlock lists f p c) (Mutex.unlock lists f p a)
  unfolding unlock Mutex.unlock
  unlock-Rep f owning c a r = release-Rep lists f c a r
  unlock-Rep f _ c a r = tt

  step-Rep :
      (e : Event) (c : State Carrier) (a : Mutex.State Carrier)
      → Inv lists a
      → Rep lists c a
      → Match (Rep lists) (step lists e c) (Mutex.step lists e a)
  unfolding step Mutex.step
  step-Rep (tries f) c a v r =
      subst
        (λ p.
          Match (Rep lists) (acquire lists f outside p c)
            (Mutex.acquire lists f outside (a.places f) a))
        (sym (r.places f)) (acquire-Rep f outside (a.places f) c a r)
  step-Rep (locks f) c a v r =
      subst
        (λ p.
          Match (Rep lists) (acquire lists f enqueuing p c)
            (Mutex.acquire lists f enqueuing (a.places f) a))
        (sym (r.places f)) (acquire-Rep f enqueuing (a.places f) c a r)
  step-Rep (unlocks f) c a v r =
      subst (λ p. Match (Rep lists) (unlock lists f p c) (Mutex.unlock lists f (a.places f) a))
        (sym (r.places f)) (unlock-Rep f (a.places f) c a r)
  step-Rep (advances f) c a v r =
      subst (λ p. Match (Rep lists) (advance lists f p c) (Mutex.advance lists f (a.places f) a))
        (sym (r.places f)) (advance-Rep f (a.places f) c a refl v r)

  run-Rep :
      (es : List Event) (c : State Carrier) (a : Mutex.State Carrier)
      → Inv lists a
      → Rep lists c a
      → Match (Rep lists) (run lists es c) (Mutex.run lists es a)
  unfolding run Mutex.run
  run-Rep [] c a v r = r
  run-Rep (e ∷ es) c a v r =
      together (Rep lists) (run lists es) (Mutex.run lists es) (step lists e c)
        (Mutex.step lists e a) (step-Rep e c a v r)
        λ d b moved rep. run-Rep es d b (step-Inv lists e a b v moved) rep

  -- The mutex whose waiters are linked through their nodes does, event by event, what the mutex does
  -- whose word holds the list of its waiters: a sequence of events is possible for both or for
  -- neither, so that a walk along the links always ends, and in the states that they reach the
  -- links lead through this list from the address in the word, and waiters_ and the places of the
  -- coroutines agree.
  pub stackless-Match :
      (es : List Event)
      → Match (Rep lists) (run lists es (init lists)) (Mutex.run lists es (Mutex.init lists))
  stackless-Match es = run-Rep es (init lists) (Mutex.init lists) (init-Inv lists) (ground arith)

  -- In whatever order coroutines try, lock and unlock a mutex, action by action: no assertion fails,
  -- and two coroutines that hold it, or are still giving it back, are the same coroutine.
  pub stackless_exclusive :
      (es : List Event) (c : State Carrier)
      → run lists es (init lists) ≡ some c
      → (c.failed ≡ false) × ((f g : ℕ) → holds (c.places f) ≡ 1 → holds (c.places g) ≡ 1 → f ≡ g)
  stackless_exclusive es c e =
      let (a, ran, rep) =
        matched (Rep lists) (run lists es (init lists)) (Mutex.run lists es (Mutex.init lists)) c
          (stackless-Match es) e in
      let (sane, alone) = mutex_exclusive lists es a ran in
      (
        rep.failed ∙ sane,
        λ f g one other.
            alone f g (sym (ap holds (rep.places f)) ∙ one) (sym (ap holds (rep.places g)) ∙ other),
      )

-- ===== src/Stackless/OneShotEvent/Refinement.antt =====
-- The event with links in a store refines the event whose word holds the list of its waiters.
use magic_core.Prelude.{
  ℕ, ◌≡◌, refl, inl, inr, false, some, List, [], ◌∷◌, arith, Bool-cases, subst, ap, ◌∙◌, sym,
}
use magic_core.Prelude.Simulation.{Match, together, matched}
use magic_core.Intrusive.{ForwardList}
use magic_core.Sync.OneShotEvent as Event
use magic_core.Sync.OneShotEvent.{
  signaled, waiting, observe, stack_of, Seen, seen_signaled, seen_no_waiters, seen_head, same_seen,
  Place, outside, enqueuing, loaded, queued, passed, exchanging, waking, fired, is_idle, move,
  Event, waits, fires, advances,
}
use magic_core.Sync.OneShotEvent.Invariant.{Inv, init-Inv, firing}
use magic_core.Sync.OneShotEvent.Wakeup.{OnlyFires, step-Inv, rest-OnlyFires, event_wakeup}
use magic_core.Stackless.OneShotEvent.{State, go, init, advance, step, run}
use magic_core.Stackless.OneShotEvent.Representation.{
  Rep, go-Rep, wait_async-Rep, try_enqueue-Rep, fire-Rep, exchange-Rep, wake_next-Rep,
}

module _ (lists : ForwardList ℕ) where
  open lists use {Carrier}

  advance-Rep :
      (firer f : ℕ) (p : Place Carrier) (c : State Carrier) (a : Event.State Carrier)
      → a.places f ≡ p
      → Inv lists firer a
      → Rep lists c a
      → Match (Rep lists) (advance lists f p c) (Event.advance lists f p a)
  unfolding advance Event.advance
  advance-Rep firer f enqueuing c a here v r =
      subst (λ w. Rep lists (go f (loaded w) c) (Event.go f (loaded (observe a.word)) a))
        (sym r.word) (go-Rep lists f (loaded (observe a.word)) c a r)
  advance-Rep firer f (loaded seen) c a here v r =
      try_enqueue-Rep lists f seen c a (ground (arith, v.wait f, here)) r
  advance-Rep firer f exchanging c a here v r = exchange-Rep lists f c a r
  advance-Rep firer f (waking l) c a here v r = wake_next-Rep lists f l c a r
  advance-Rep firer f outside c a here v r = tt
  advance-Rep firer f queued c a here v r = tt
  advance-Rep firer f passed c a here v r = tt
  advance-Rep firer f fired c a here v r = tt

  step-Rep :
      (firer : ℕ) (e : Event) (c : State Carrier) (a : Event.State Carrier)
      → Inv lists firer a
      → Rep lists c a
      → Match (Rep lists) (step lists e c) (Event.step lists e a)
  unfolding step Event.step
  step-Rep firer (waits f) c a v r =
      let moved = wait_async-Rep lists f c a r in
      elim (Bool-cases (is_idle (a.places f))) [
        | inl idle ↦ ground (arith, ap is_idle (r.places f), idle, moved)
        | inr busy ↦ ground (arith, ap is_idle (r.places f), busy)
      ]
  step-Rep firer (fires f) c a v r =
      let moved = fire-Rep lists f c a r in
      elim (Bool-cases (is_idle (a.places f))) [
        | inl idle ↦ ground (arith, ap is_idle (r.places f), idle, moved)
        | inr busy ↦ ground (arith, ap is_idle (r.places f), busy)
      ]
  step-Rep firer (advances f) c a v r =
      subst (λ p. Match (Rep lists) (advance lists f p c) (Event.advance lists f (a.places f) a))
        (sym (r.places f)) (advance-Rep firer f (a.places f) c a refl v r)

  run-Rep :
      (firer : ℕ) (es : List Event) (c : State Carrier) (a : Event.State Carrier)
      → OnlyFires firer es
      → Inv lists firer a
      → Rep lists c a
      → Match (Rep lists) (run lists es c) (Event.run lists es a)
  unfolding run Event.run
  run-Rep firer [] c a o v r = r
  run-Rep firer (e ∷ es) c a o v r =
      together (Rep lists) (run lists es) (Event.run lists es) (step lists e c)
        (Event.step lists e a) (step-Rep firer e c a v r)
        λ d b moved rep.
          run-Rep firer es d b (rest-OnlyFires lists firer e es o)
            (step-Inv lists firer e es a b o v moved) rep

  -- While one coroutine makes all the calls of Fire, the event whose waiters are linked through
  -- their nodes does, action by action, what the event does whose word holds the list of its
  -- waiters: a sequence of events is possible for both or for neither, so that a walk along the
  -- links always ends, and the states that they reach correspond.
  pub stackless_event-Match :
      (firer : ℕ) (es : List Event)
      → OnlyFires firer es
      → Match (Rep lists) (run lists es (init lists)) (Event.run lists es (Event.init lists))
  stackless_event-Match firer es o =
      run-Rep firer es (init lists) (Event.init lists) o (init-Inv lists firer) (ground arith)

  -- While one coroutine makes all the calls of Fire: nothing fails, and once the event is signaled
  -- and the firing coroutine is not inside Fire, no coroutine is suspended.
  pub stackless_event_wakeup :
      (firer : ℕ) (es : List Event) (c : State Carrier)
      → OnlyFires firer es
      → run lists es (init lists) ≡ some c
      → (c.failed ≡ false)
        × (c.word ≡ seen_signaled
            → firing lists (c.places firer) ≡ 0
            → (f : ℕ) → ¬ (c.places f ≡ queued))
  stackless_event_wakeup firer es c o e =
      let (a, ran, rep) =
        matched (Rep lists) (run lists es (init lists)) (Event.run lists es (Event.init lists)) c
          (stackless_event-Match firer es o) e in
      let (sane, gate, quiet) = event_wakeup lists firer es a o ran in
      (
        rep.failed ∙ sane,
        λ done away f there.
            quiet (seen_word a.word (sym rep.word ∙ done))
              (sym (ap (firing lists) (rep.places firer)) ∙ away) f (sym (rep.places f) ∙ there),
      )
    where
      seen_word : (w : Event.Word) → observe w ≡ seen_signaled → w ≡ signaled
      seen_word w h = ground arith

-- ===== src/Sync/OneShotEvent/Wakeup.antt =====
-- No fiber passes the event early, and none that waits is forgotten.
use magic_core.Prelude.{
  ℕ, zero, suc, ◌≡◌, refl, inl, inr, true, false, some, List, [], ◌∷◌, arith, Option-cases,
  Bool-cases, subst, ◌<◌, length,
}
use magic_core.Intrusive.{ForwardList}
use magic_core.Sync.OneShotEvent.{
  signaled, waiting, observe, Place, outside, enqueuing, loaded, queued, passed, exchanging, waking,
  fired, State, Event, waits, fires, advances, is_idle, go, init, collect, create_waiter_list,
  exchange, wake_next, advance, step, run,
}
use magic_core.Sync.OneShotEvent.Invariant.{
  Inv, init-Inv, go-Inv, wait_async-Inv, try_enqueue-Inv, firing, word_cases,
}
use magic_core.Sync.OneShotEvent.Firing.{fire-Inv, exchange-Inv, wake_next-Inv}

-- Fire is called by one fiber only.
abbrev pub OnlyFires : ℕ → List Event → Type 0
OnlyFires firer [] = Unit
OnlyFires firer (fires f ∷ es) = (f ≡ firer) × OnlyFires firer es
OnlyFires firer (_ ∷ es) = OnlyFires firer es

abbrev pub repeat : ℕ → Event → List Event
repeat zero e = []
repeat (suc n) e = e ∷ repeat n e

module _ (lists : ForwardList ℕ) where
  open lists use {Carrier, empty, to_list, pop_front, pop_front_cases}

  advance-Inv :
      (firer f : ℕ) (p : Place Carrier) (s t : State Carrier)
      → s.places f ≡ p
      → Inv lists firer s
      → advance lists f p s ≡ some t
      → Inv lists firer t
  unfolding advance
  advance-Inv firer f enqueuing s t here v e = subst (Inv lists firer) (ground arith) (
      go-Inv lists firer f (loaded (observe s.word)) s (ground (arith, here)) refl
        (ground (arith, here)) (λ h. ground arith) v)
  advance-Inv firer f (loaded seen) s t here v e =
      subst (Inv lists firer) (ground arith) (try_enqueue-Inv lists firer f seen s here v)
  advance-Inv firer f exchanging s t here v e =
      let same : f ≡ firer = v.alone f (ground (arith, here)) in
      let kept = exchange-Inv lists firer s (ground (arith, here, same)) v in
      subst (Inv lists firer) (ground (arith, same)) kept
  advance-Inv firer f (waking l) s t here v e =
      let same : f ≡ firer = v.alone f (ground (arith, here)) in
      let kept = wake_next-Inv lists firer l s (ground (arith, here, same)) v in
      subst (Inv lists firer) (ground (arith, same)) kept
  advance-Inv firer f outside s t here v e = absurd (ground arith)
  advance-Inv firer f queued s t here v e = absurd (ground arith)
  advance-Inv firer f passed s t here v e = absurd (ground arith)
  advance-Inv firer f fired s t here v e = absurd (ground arith)

  pub step-Inv :
      (firer : ℕ) (e : Event) (es : List Event) (s t : State Carrier)
      → OnlyFires firer (e ∷ es)
      → Inv lists firer s
      → step lists e s ≡ some t
      → Inv lists firer t
  unfolding step
  step-Inv firer (waits f) es s t o v e = elim (Bool-cases (is_idle (s.places f))) [
    | inl idle ↦ subst (Inv lists firer) (ground arith) (wait_async-Inv lists firer f s idle v)
    | inr busy ↦ absurd (ground arith)
  ]
  step-Inv firer (fires f) es s t o v e = elim (Bool-cases (is_idle (s.places firer))) [
    | inl idle ↦ subst (Inv lists firer) (ground (arith, o.0)) (fire-Inv lists firer s idle v)
    | inr busy ↦ absurd (ground (arith, o.0))
  ]
  step-Inv firer (advances f) es s t o v e = advance-Inv firer f (s.places f) s t refl v e

  pub rest-OnlyFires :
      (firer : ℕ) (e : Event) (es : List Event) → OnlyFires firer (e ∷ es) → OnlyFires firer es
  rest-OnlyFires firer (waits f) es o = o
  rest-OnlyFires firer (fires f) es o = o.1
  rest-OnlyFires firer (advances f) es o = o

  run-Inv :
      (firer : ℕ) (es : List Event) (s t : State Carrier)
      → OnlyFires firer es
      → Inv lists firer s
      → run lists es s ≡ some t
      → Inv lists firer t
  unfolding run
  run-Inv firer [] s t o v e = subst (Inv lists firer) (ground arith) v
  run-Inv firer (x ∷ es) s t o v e = elim (Option-cases (step lists x s)) [
    | inl stuck ↦ absurd (ground arith)
    | inr (u, moved) ↦
        run-Inv firer es u t (rest-OnlyFires firer x es o) (step-Inv firer x es s u o v moved)
          (ground arith)
  ]

  reach-Inv :
      (firer : ℕ) (es : List Event) (t : State Carrier)
      → OnlyFires firer es
      → run lists es (init lists) ≡ some t
      → Inv lists firer t
  reach-Inv firer es t o e = run-Inv firer es (init lists) t o (init-Inv lists firer) e

  -- While one fiber makes all the calls of Fire, whatever the others do, action by action: nothing
  -- fails, a fiber has passed only if the event is signaled, and once it is signaled and the firing
  -- fiber is not inside Fire, no fiber is suspended.
  pub event_wakeup :
      (firer : ℕ) (es : List Event) (t : State Carrier)
      → OnlyFires firer es
      → run lists es (init lists) ≡ some t
      → (t.failed ≡ false)
        × ((f : ℕ) → t.places f ≡ passed → t.word ≡ signaled)
        × (t.word ≡ signaled
            → firing lists (t.places firer) ≡ 0
            → (f : ℕ) → ¬ (t.places f ≡ queued))
  event_wakeup firer es t o e = (
    v.sane,
    λ f there. v.gate f (ground (arith, there)),
    λ done away f there. ground (arith, v.wait f, there, done, away),
  )
    where
      v : Inv lists firer t
      v = reach-Inv firer es t o e

  -- The fiber leaves Fire by its own actions alone, and then no fiber is suspended.
  abbrev pub Ends : ℕ → State Carrier → Type 0
  Ends f s =
      (n : ℕ) × (t : State Carrier) × (run lists (repeat n (advances f)) s ≡ some t)
      × (t.places f ≡ fired)
      × (t.word ≡ signaled)
      × ((g : ℕ) → ¬ (t.places g ≡ queued))

  wake_all :
      (fuel f : ℕ) (l : Carrier) (s : State Carrier)
      → length (to_list l) < fuel
      → s.places f ≡ waking l
      → Inv lists f s
      → Ends f s
  unfolding run step advance wake_next go
  wake_all zero f l s m here v = absurd (omega arith)
  wake_all (suc fuel) f l s m here v = elim (pop_front_cases l) [
    | inl (none_left, stop) ↦ (
      1,
      go f fired s,
      ground (arith, here, stop),
      ground arith,
      ground (arith, v.stage, here),
      λ g there. ground (arith, v.wait g, v.wait f, v.stage, here, none_left, there),
    )
    | inr (next, rest, split, popped) ↦
        let u : State Carrier = go next passed (go f (waking rest) s) in
        let moved : step lists (advances f) s ≡ some u = ground (arith, here, popped) in
        let (n, t, r, at_end, set, quiet) =
          wake_all fuel f rest u (ground (arith, split))
            (ground (arith, v.wait next, v.wait f, split, here))
            (step-Inv f (advances f) [] s u tt v moved) in
        (suc n, t, ground (arith, moved), at_end, set, quiet)
  ]

  exchange-Ends : (f : ℕ) (s : State Carrier) → s.places f ≡ exchanging → Inv lists f s → Ends f s
  unfolding run step advance exchange create_waiter_list go
  exchange-Ends f s here v =
      let (x, xs, some_wait) : (x : ℕ) × (xs : List ℕ) × (s.word ≡ waiting (x ∷ xs)) =
        ground (arith, v.stage) in
      let l = collect lists (x ∷ xs) empty in
      let u : State Carrier = record (go f (waking l) s) { word = signaled } in
      let moved : step lists (advances f) s ≡ some u = ground (arith, here, some_wait) in
      let (n, t, r, at_end, set, quiet) =
        wake_all (suc (length (to_list l))) f l u (omega arith) (ground arith)
          (step-Inv f (advances f) [] s u tt v moved) in
      (suc n, t, ground (arith, moved), at_end, set, quiet)

  -- From every state that the event reaches while one fiber makes all the calls of Fire, that
  -- fiber, if it is inside Fire, leaves it by its own actions alone; then the event is signaled and
  -- no fiber is suspended.
  pub fire-Ends :
      (firer : ℕ) (es : List Event) (t : State Carrier)
      → OnlyFires firer es
      → run lists es (init lists) ≡ some t
      → firing lists (t.places firer) ≡ 1
      → Ends firer t
  fire-Ends firer es t o e inside = start (t.places firer) refl inside
    where
      v : Inv lists firer t
      v = reach-Inv firer es t o e

      start : (p : Place Carrier) → t.places firer ≡ p → firing lists p ≡ 1 → Ends firer t
      start exchanging here one = exchange-Ends firer t here v
      start (waking l) here one = wake_all (suc (length (to_list l))) firer l t (omega arith) here v
      start outside here one = absurd (omega arith)
      start enqueuing here one = absurd (omega arith)
      start (loaded seen) here one = absurd (omega arith)
      start queued here one = absurd (omega arith)
      start passed here one = absurd (omega arith)
      start fired here one = absurd (omega arith)

  -- Two fibers that are both between the compare-exchange and the exchange of Fire break the event:
  -- the second one takes the word Signaled for the address of a waiter.
  pub fire_twice_breaks :
      (f g : ℕ) (s : State Carrier)
      → ¬ (f ≡ g)
      → s.places f ≡ exchanging
      → s.places g ≡ exchanging
      → (t : State Carrier) × (run lists (advances f ∷ advances g ∷ []) s ≡ some t)
        × (t.failed ≡ true)
  unfolding run step advance exchange create_waiter_list go
  fire_twice_breaks f g s apart here there = elim (word_cases s.word) [
    | inl done ↦
        (record s { word = signaled; failed = true }, ground (arith, here, there, done), refl)
    | inr (inl nobody) ↦
        (record s { word = signaled; failed = true }, ground (arith, here, there, nobody), refl)
    | inr (inr (x, xs, some_wait)) ↦ (
      record (go f (waking (collect lists (x ∷ xs) empty)) s) { word = signaled; failed = true },
      ground (arith, here, there, some_wait),
      refl,
    )
  ]

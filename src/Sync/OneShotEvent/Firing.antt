-- ===== src/Sync/OneShotEvent/Firing.antt =====
-- The actions of Fire keep the invariant of the event.
use magic_core.Prelude.{ℕ, ◌≡◌, refl, inl, inr, true, List, ◌∷◌, arith}
use magic_core.Intrusive.{ForwardList}
use magic_core.Sync.OneShotEvent.{
  signaled, waiting, observe, passed, exchanging, waking, fired, State, is_idle, go, fire, collect,
  create_waiter_list, exchange, wake_next,
}
use magic_core.Sync.OneShotEvent.Invariant.{word_cases, to_list-collect, idle_places, Inv, go-Inv}

module _ (lists : ForwardList ℕ) where
  open lists use {Carrier, empty, to_list, to_list-empty, pop_front, pop_front_cases}

  pub fire-Inv :
      (firer : ℕ) (s : State Carrier)
      → is_idle (s.places firer) ≡ true
      → Inv lists firer s
      → Inv lists firer (fire firer (observe s.word) s)
  unfolding fire go
  fire-Inv firer s idle v = elim (word_cases s.word) [
    | inl done ↦
        let same : Inv lists firer (go firer fired s) =
          go-Inv lists firer firer fired s (idle_places lists (s.places firer) idle).0 refl
            (idle_places lists (s.places firer) idle).1 (λ h. done) v in
        ground (arith, done, same)
    | inr (inl none_yet) ↦
        let set : Inv lists firer (record (go firer fired s) { word = signaled }) = record {
          alone = λ g. ground (arith, v.alone g);
          wait = λ g.
              ground
                (arith, v.wait g, v.wait firer, none_yet, idle_places lists (s.places firer) idle);
          stage = ground arith;
          gate = λ g h. refl;
          sane = v.sane;
        } in
        ground (arith, none_yet, set)
    | inr (inr (x, xs, some_wait)) ↦
        let found : Inv lists firer (go firer exchanging s) = record {
          alone = λ g. ground (arith, v.alone g);
          wait =
              λ g. ground (arith, v.wait g, v.wait firer, idle_places lists (s.places firer) idle);
          stage = ground (arith, some_wait);
          gate = λ g. ground (arith, v.gate g);
          sane = v.sane;
        } in
        ground (arith, some_wait, found)
  ]

  pub exchange-Inv :
      (firer : ℕ) (s : State Carrier)
      → s.places firer ≡ exchanging
      → Inv lists firer s
      → Inv lists firer (exchange lists firer s)
  unfolding exchange create_waiter_list go
  exchange-Inv firer s here v =
      let (x, xs, some_wait) : (x : ℕ) × (xs : List ℕ) × (s.word ≡ waiting (x ∷ xs)) =
        ground (arith, v.stage) in
      let list = collect lists (x ∷ xs) empty in
      let listed = to_list-collect lists (x ∷ xs) empty in
      let taken : Inv lists firer (record (go firer (waking list) s) { word = signaled }) = record {
        alone = λ g. ground (arith, v.alone g);
        wait = λ g. ground (arith, v.wait g, v.wait firer, some_wait, listed, to_list-empty);
        stage = ground arith;
        gate = λ g h. refl;
        sane = v.sane;
      } in
      ground (arith, some_wait, taken)

  pub wake_next-Inv :
      (firer : ℕ) (waiters : Carrier) (s : State Carrier)
      → s.places firer ≡ waking waiters
      → Inv lists firer s
      → Inv lists firer (wake_next lists firer waiters s)
  unfolding wake_next go
  wake_next-Inv firer waiters s here v = elim (pop_front_cases waiters) [
    | inl (none_left, stop) ↦
        let done : Inv lists firer (go firer fired s) = record {
          alone = λ g. ground (arith, v.alone g);
          wait = λ g. ground (arith, v.wait g, v.wait firer, none_left);
          stage = ground arith;
          gate = λ g h. ground (arith, v.stage);
          sane = v.sane;
        } in
        ground (arith, stop, done)
    | inr (next, rest, split, popped) ↦
        let woken : Inv lists firer (go next passed (go firer (waking rest) s)) = record {
          alone = λ g. ground (arith, v.alone g);
          wait = λ g. ground (arith, v.wait g, v.wait firer, v.wait next, split, v.stage);
          stage = ground (arith, v.stage, v.wait next, v.wait firer, split);
          gate = λ g h. ground (arith, v.stage);
          sane = v.sane;
        } in
        ground (arith, popped, woken)
  ]

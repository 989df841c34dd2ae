-- ===== src/Stackless/OneShotEvent/Representation.antt =====
-- What the event with links in a store and the event whose word holds the list of its waiters have
-- in common, and that the actions keep it.
use magic_core.Prelude.{
  ℕ, zero, suc, ◌+◌, ◌≤◌, ◌≡◌, refl, inl, inr, true, false, Option, none, some, List, [], ◌∷◌,
  arith, Option-cases, Bool-cases, subst, ap, ◌∙◌, sym, length,
}
use magic_core.Prelude.Simulation.{Match}
use magic_core.Prelude.Occurs.{occurs}
use magic_core.Intrusive.{ForwardList}
use magic_core.Sync.OneShotEvent as Event
use magic_core.Sync.OneShotEvent.{
  signaled, waiting, observe, stack_of, Seen, seen_signaled, seen_no_waiters, seen_head, same_seen,
  Place, outside, enqueuing, loaded, queued, passed, exchanging, waking, fired, is_idle, move,
}
use magic_core.Sync.OneShotEvent.Invariant.{word_cases}
use magic_core.Stackless.Links.{set_next, head?, Chain, Chain-set_next}
use magic_core.Stackless.OneShotEvent.{
  State, link_of, go, is_ready, wait_async, try_enqueue, fire, collect, exchange, wake_next,
}

same_seen_lem : (v w : Seen) → same_seen v w ≡ true → v ≡ w
same_seen_lem v w h = ground arith

link_of-observe : (w : Event.Word) → link_of (observe w) ≡ head? (stack_of w)
link_of-observe signaled = refl
link_of-observe (waiting []) = refl
link_of-observe (waiting (x ∷ xs)) = refl

module _ (lists : ForwardList ℕ) where
  open lists use {Carrier, empty, push_back, pop_front}

  nothing_left :
      (fuel : ℕ) (next : ℕ → Option ℕ) (l : Carrier) → collect lists fuel next none l ≡ some l
  unfolding collect
  nothing_left zero next l = refl
  nothing_left (suc fuel) next l = refl

  collect_lem :
      (fuel : ℕ) (next : ℕ → Option ℕ) (stack : List ℕ) (l : Carrier)
      → length stack ≤ fuel
      → Chain next stack
      → collect lists fuel next (head? stack) l ≡ some (Event.collect lists stack l)
  unfolding collect Event.collect
  collect_lem fuel next [] l h c = nothing_left fuel next l
  collect_lem zero next (x ∷ xs) l h c = absurd (omega arith)
  collect_lem (suc fuel) next (x ∷ xs) l h c =
      ap (λ n. collect lists fuel next n (push_back l x)) c.0
      ∙ collect_lem fuel next xs (push_back l x) (omega arith) c.1

  pub record Rep (c : State Carrier) (a : Event.State Carrier) : Type 0 where
    pub word : c.word ≡ observe a.word
    pub chain : Chain c.next (stack_of a.word)
    pub bound : length (stack_of a.word) ≤ c.links
    pub places : (f : ℕ) → c.places f ≡ a.places f
    pub failed : c.failed ≡ a.failed

  pub go-Rep :
      (f : ℕ) (p : Place Carrier) (c : State Carrier) (a : Event.State Carrier)
      → Rep c a
      → Rep (go f p c) (Event.go f p a)
  unfolding go Event.go
  go-Rep f p c a r = record {
    word = r.word;
    chain = r.chain;
    bound = r.bound;
    places = λ g. ground (arith, r.places g);
    failed = r.failed;
  }

  pub wait_async-Rep :
      (f : ℕ) (c : State Carrier) (a : Event.State Carrier)
      → Rep c a
      → Rep (wait_async f c) (Event.wait_async f a)
  unfolding wait_async is_ready Event.wait_async Event.is_ready
  wait_async-Rep f c a r =
      let pass = go-Rep f passed c a r in
      let enter = go-Rep f enqueuing c a r in
      elim (word_cases a.word) [
        | inl done ↦ ground (arith, r.word, done, pass)
        | inr (inl nobody) ↦ ground (arith, r.word, nobody, enter)
        | inr (inr (x, xs, some_wait)) ↦ ground (arith, r.word, some_wait, enter)
      ]

  link-Rep :
      (f : ℕ) (seen : Seen) (c : State Carrier) (a : Event.State Carrier)
      → same_seen seen seen_signaled ≡ false
      → occurs f (stack_of a.word) ≡ 0
      → Rep c a
      → Rep (try_enqueue f seen c) (Event.try_enqueue f seen a)
  unfolding try_enqueue Event.try_enqueue go Event.go
  link-Rep f seen_signaled c a open_yet out r = absurd (ground arith)
  link-Rep f seen c a open_yet out r = elim (Bool-cases (same_seen (observe a.word) seen)) [
    | inl same ↦
        let seen_link =
          ap link_of (sym (same_seen_lem (observe a.word) seen same)) ∙ link_of-observe a.word in
        let linked : Rep
            (record (go f queued c) {
              word = seen_head f;
              next = set_next f (link_of seen) c.next;
              links = c.links + 1;
            })
            (record (Event.go f queued a) { word = waiting (f ∷ stack_of a.word) }) =
          record {
            word = refl;
            chain = (
              ground (arith, seen_link),
              Chain-set_next f (link_of seen) c.next (stack_of a.word) out r.chain,
            );
            bound = omega (arith, r.bound);
            places = λ g. ground (arith, r.places g);
            failed = r.failed;
          } in
        ground (arith, r.word, same, linked)
    | inr other ↦
        let again : Rep (record (go f enqueuing c) { next = set_next f (link_of seen) c.next })
            (Event.go f enqueuing a) =
          record {
            word = r.word;
            chain = Chain-set_next f (link_of seen) c.next (stack_of a.word) out r.chain;
            bound = r.bound;
            places = λ g. ground (arith, r.places g);
            failed = r.failed;
          } in
        ground (arith, r.word, other, again)
  ]

  pub try_enqueue-Rep :
      (f : ℕ) (seen : Seen) (c : State Carrier) (a : Event.State Carrier)
      → occurs f (stack_of a.word) ≡ 0
      → Rep c a
      → Rep (try_enqueue f seen c) (Event.try_enqueue f seen a)
  unfolding try_enqueue Event.try_enqueue
  try_enqueue-Rep f seen_signaled c a out r = go-Rep f passed c a r
  try_enqueue-Rep f seen_no_waiters c a out r = link-Rep f seen_no_waiters c a refl out r
  try_enqueue-Rep f (seen_head n) c a out r = link-Rep f (seen_head n) c a refl out r

  signal-Rep :
      (f : ℕ) (p : Place Carrier) (c : State Carrier) (a : Event.State Carrier)
      → Rep c a
      → Rep
          (record (go f p c) { word = seen_signaled })
          (record (Event.go f p a) { word = signaled })
  unfolding go Event.go
  signal-Rep f p c a r = record {
    word = refl;
    chain = tt;
    bound = omega arith;
    places = λ g. ground (arith, r.places g);
    failed = r.failed;
  }

  pub fire-Rep :
      (f : ℕ) (c : State Carrier) (a : Event.State Carrier)
      → Rep c a
      → Rep (fire f c) (Event.fire f (observe a.word) a)
  unfolding fire Event.fire
  fire-Rep f c a r =
      let set = signal-Rep f fired c a r in
      let same = go-Rep f fired c a r in
      let found = go-Rep f exchanging c a r in
      elim (word_cases a.word) [
        | inl done ↦ ground (arith, r.word, done, same)
        | inr (inl nobody) ↦ ground (arith, r.word, nobody, set)
        | inr (inr (x, xs, some_wait)) ↦ ground (arith, r.word, some_wait, found)
      ]

  pub exchange-Rep :
      (f : ℕ) (c : State Carrier) (a : Event.State Carrier)
      → Rep c a
      → Match Rep (exchange lists f c) (some (Event.exchange lists f a))
  unfolding exchange Event.exchange Event.create_waiter_list
  exchange-Rep f c a r = elim (word_cases a.word) [
    | inl done ↦ ground (arith, r.word, done, broken)
    | inr (inl nobody) ↦ ground (arith, r.word, nobody, broken)
    | inr (inr (x, xs, some_wait)) ↦
        let walk = ap (λ w. stack_of w) some_wait in
        let listed : collect lists c.links c.next (some x) empty
            ≡ some (Event.collect lists (x ∷ xs) empty) =
          collect_lem c.links c.next (x ∷ xs) empty (ground (arith, r.bound, some_wait))
            (subst (Chain c.next) walk r.chain) in
        let set = signal-Rep f (waking (Event.collect lists (x ∷ xs) empty)) c a r in
        ground (arith, r.word, some_wait, listed, set)
  ]
    where
      broken :
          Rep
            (record c { word = seen_signaled; failed = true })
            (record a { word = signaled; failed = true })
      broken = record {
        word = refl;
        chain = tt;
        bound = omega arith;
        places = r.places;
        failed = refl;
      }

  pub wake_next-Rep :
      (f : ℕ) (l : Carrier) (c : State Carrier) (a : Event.State Carrier)
      → Rep c a
      → Rep (wake_next lists f l c) (Event.wake_next lists f l a)
  unfolding wake_next Event.wake_next
  wake_next-Rep f l c a r = elim (Option-cases (pop_front l)) [
    | inl stop ↦ let over = go-Rep f fired c a r in ground (arith, stop, over)
    | inr ((next, rest), popped) ↦
        let woken =
          go-Rep next passed (go f (waking rest) c) (Event.go f (waking rest) a)
            (go-Rep f (waking rest) c a r) in
        ground (arith, popped, woken)
  ]

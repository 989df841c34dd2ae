-- ===== src/Sync/Mutex/Release.antt =====
-- The actions of Release keep the invariant of the mutex.
use magic_core.Prelude.{ℕ, ◌+◌, ◌≡◌, refl, inl, inr, false, none, some, List, [], ◌∷◌, arith}
use magic_core.Intrusive.{ForwardList}
use magic_core.Sync.Mutex.{
  unlocked, locked, observe, Place, outside, owning, releasing, clearing, flushing, State, stack_of,
  go, release_load, clear, resume_next_waiter, append_to_list, release, flush,
}
use magic_core.Prelude.Occurs.{occurs, occurs-append}
use magic_core.Sync.Mutex.Invariant.{
  holds, waits, indicator, indicator_one, word_cases, Stage, Inv, go-Inv, to_list-append_to_list,
}

module _ (lists : ForwardList ℕ) where
  open lists use {Carrier, to_list, pop_front, pop_front_cases}

  -- The lock goes from its holder to the first waiter.
  resume-Inv :
      (f : ℕ) (s : State Carrier)
      → ((g : ℕ) → holds (s.places g) ≡ indicator (some f) g)
      → ((g : ℕ) → occurs g (stack_of s.word) + occurs g (to_list s.waiters) ≡ waits (s.places g))
      → (stack : List ℕ) → s.word ≡ locked stack
      → ¬ (to_list s.waiters ≡ [])
      → s.failed ≡ false
      → Inv lists (resume_next_waiter lists f s)
  unfolding resume_next_waiter go
  resume-Inv f s held wait stack taken full sane = elim (pop_front_cases s.waiters) [
    | inl (empty, _) ↦ absurd (full empty)
    | inr (next, rest, split, popped) ↦
        let handed : Inv lists (record (go next owning (go f outside s)) { waiters = rest }) =
          record {
            owner = some next;
            held = λ g. ground (arith, held g, held f, wait f, wait next, split);
            wait = λ g. ground (arith, wait g, wait f, wait next, split, held f);
            tied = ground (arith, taken);
            sane = sane;
          } in
        ground (arith, popped, handed)
  ]

  -- The holder, and that the word is locked.
  pub holder :
      (f : ℕ) (s : State Carrier)
      → holds (s.places f) ≡ 1
      → (v : Inv lists s)
      → (stack : List ℕ) × (v.owner ≡ some f)
        × (s.word ≡ locked stack)
        × Stage (s.places f) stack (to_list s.waiters)
  holder f s h v =
      let mine = indicator_one v.owner f (omega (arith, v.held f)) in
      elim (word_cases s.word) [
        | inl free ↦ absurd (ground (arith, mine, v.tied, free))
        | inr (stack, taken) ↦ (stack, mine, taken, ground (arith, mine, v.tied, taken))
      ]

  pub release-Inv :
      (f : ℕ) (s : State Carrier)
      → s.places f ≡ owning
      → Inv lists s
      → Inv lists (release lists f s)
  unfolding release
  release-Inv f s here v =
      let (stack, mine, taken, stage) = holder f s (ground arith) v in
      elim (pop_front_cases s.waiters) [
        | inl (none_left, stop) ↦
            let waiting =
              go-Inv lists f releasing s (ground arith) (ground arith) (λ h. none_left) v in
            ground (arith, stop, waiting)
        | inr (next, rest, split, popped) ↦
            let handed =
              resume-Inv f s (ground (arith, v.held)) v.wait stack taken (ground (arith, split))
                v.sane in
            ground (arith, popped, handed)
      ]

  pub release_load-Inv :
      (f : ℕ) (s : State Carrier)
      → s.places f ≡ releasing
      → Inv lists s
      → Inv lists (release_load f (observe s.word) s)
  unfolding release_load
  release_load-Inv f s here v =
      let (stack, mine, taken, stage) = holder f s (ground arith) v in
      load stack taken (ground (arith, stage))
    where
      move_to :
          (p : Place)
          → holds p ≡ 1
          → waits p ≡ 0
          → Stage p (stack_of s.word) (to_list s.waiters)
          → Inv lists (go f p s)
      move_to p one zero stage = go-Inv lists f p s (ground arith) (ground arith) (λ h. stage) v

      load :
          (stack : List ℕ)
          → s.word ≡ locked stack
          → to_list s.waiters ≡ []
          → Inv lists (release_load f (observe s.word) s)
      load [] taken empty =
          let seen = move_to clearing refl refl (ground arith) in ground (arith, taken, seen)
      load (x ∷ xs) taken empty =
          let seen = move_to flushing refl refl (ground arith) in ground (arith, taken, seen)

  pub clear-Inv :
      (f : ℕ) (s : State Carrier)
      → s.places f ≡ clearing
      → Inv lists s
      → Inv lists (clear f (observe s.word) s)
  unfolding clear
  clear-Inv f s here v =
      let (stack, mine, taken, stage) = holder f s (ground arith) v in
      swap stack mine taken (ground (arith, stage))
    where
      swap :
          (stack : List ℕ)
          → v.owner ≡ some f
          → s.word ≡ locked stack
          → to_list s.waiters ≡ []
          → Inv lists (clear f (observe s.word) s)
      swap [] mine taken idle =
          let free : Inv lists (record (go f outside s) { word = unlocked }) = record {
            owner = none;
            held = λ g. ground (arith, v.held g, v.held f, mine);
            wait = λ g. ground (arith, v.wait g, v.wait f, taken);
            tied = ground arith;
            sane = v.sane;
          } in
          ground (arith, taken, free)
      swap (x ∷ xs) mine taken idle =
          let again =
            go-Inv lists f releasing s (ground arith) (ground arith) (λ h. ground arith) v in
          ground (arith, taken, again)

  pub flush-Inv :
      (f : ℕ) (s : State Carrier)
      → s.places f ≡ flushing
      → Inv lists s
      → Inv lists (flush lists f s)
  unfolding flush
  flush-Inv f s here v =
      let (stack, mine, taken, stage) = holder f s (ground arith) v in
      let listed = to_list-append_to_list lists (stack_of s.word) s.waiters in
      resume-Inv f
        (record s { waiters = append_to_list lists (stack_of s.word) s.waiters; word = locked [] })
        (ground (arith, v.held))
        (λ g.
          ground (arith, v.wait g, listed, occurs-append g (to_list s.waiters) (stack_of s.word)))
        [] refl (ground (arith, listed, stage, taken, here)) v.sane

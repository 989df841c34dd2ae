-- ===== src/Stackless/Mutex/Representation.antt =====
-- What the mutex with links in a store and the mutex whose word holds the list of its waiters have
-- in common, and that the actions keep it.
use magic_core.Prelude.{
  ℕ, zero, suc, ◌+◌, ◌≤◌, ◌≡◌, refl, inl, inr, true, false, Option, none, some, List, [], ◌∷◌,
  arith, Option-cases, Bool-cases, ap, ◌∙◌, sym, length,
}
use magic_core.Prelude.Simulation.{Match}
use magic_core.Prelude.Occurs.{occurs}
use magic_core.Intrusive.{ForwardList}
use magic_core.Sync.Mutex
use magic_core.Sync.Mutex.{
  unlocked, locked, observe, stack_of, Seen, seen_unlocked, seen_no_waiters, seen_head, same_seen,
  Place, outside, enqueuing, loaded, queued, owning, releasing, clearing, flushing, move, Event,
  tries, locks, unlocks, advances,
}
use magic_core.Sync.Mutex.Invariant.{word_cases}
use magic_core.Stackless.Links.{set_next, head?, Chain, Chain-set_next}
use magic_core.Stackless.Mutex.{
  State, link_of, go, try_lock, enqueue, release_load, clear, resume_next_waiter, append_to_list,
  release, flush,
}

pub same_seen_lem : (v w : Seen) → same_seen v w ≡ true → v ≡ w
same_seen_lem v w h = ground arith

busy_word : (stack : List ℕ) → same_seen (observe (locked stack)) seen_unlocked ≡ false
busy_word [] = refl
busy_word (x ∷ xs) = refl

link_of-observe : (w : Mutex.Word) → link_of (observe w) ≡ head? (stack_of w)
link_of-observe unlocked = refl
link_of-observe (locked []) = refl
link_of-observe (locked (x ∷ xs)) = refl

module _ (lists : ForwardList ℕ) where
  open lists use {Carrier, empty, push_back, pop_front}

  nothing_left :
      (fuel : ℕ) (next : ℕ → Option ℕ) (l : Carrier)
      → append_to_list lists fuel next none l ≡ some l
  unfolding append_to_list
  nothing_left zero next l = refl
  nothing_left (suc fuel) next l = refl

  append_to_list_lem :
      (fuel : ℕ) (next : ℕ → Option ℕ) (stack : List ℕ) (l : Carrier)
      → length stack ≤ fuel
      → Chain next stack
      → append_to_list lists fuel next (head? stack) l ≡ some (Mutex.append_to_list lists stack l)
  unfolding append_to_list Mutex.append_to_list
  append_to_list_lem fuel next [] l h c = nothing_left fuel next l
  append_to_list_lem zero next (x ∷ xs) l h c = absurd (omega arith)
  append_to_list_lem (suc fuel) next (x ∷ xs) l h c =
      ap (λ n. append_to_list lists fuel next n (push_back l x)) c.0
      ∙ append_to_list_lem fuel next xs (push_back l x) (omega arith) c.1

  -- What the two states have in common.
  pub record Rep (c : State Carrier) (a : Mutex.State Carrier) : Type 0 where
    pub word : c.word ≡ observe a.word
    pub chain : Chain c.next (stack_of a.word)
    pub bound : length (stack_of a.word) ≤ c.links
    pub waiters : c.waiters ≡ a.waiters
    pub places : (f : ℕ) → c.places f ≡ a.places f
    pub failed : c.failed ≡ a.failed

  pub go-Rep :
      (f : ℕ) (p : Place) (c : State Carrier) (a : Mutex.State Carrier)
      → Rep c a
      → Rep (go f p c) (Mutex.go f p a)
  unfolding go Mutex.go
  go-Rep f p c a r = record {
    word = r.word;
    chain = r.chain;
    bound = r.bound;
    waiters = r.waiters;
    places = λ g. ground (arith, r.places g);
    failed = r.failed;
  }

  pub try_lock-Rep :
      (f : ℕ) (p : Place) (c : State Carrier) (a : Mutex.State Carrier)
      → Rep c a
      → Rep (try_lock f p c) (Mutex.try_lock f p a.word a)
  unfolding try_lock Mutex.try_lock
  try_lock-Rep f p c a r = elim (word_cases a.word) [
    | inl free ↦
        let got : Rep (record (go f owning c) { word = seen_no_waiters })
            (record (Mutex.go f owning a) { word = locked [] }) =
          record {
            word = refl;
            chain = tt;
            bound = omega arith;
            waiters = r.waiters;
            places = λ g. ground (arith, r.places g);
            failed = r.failed;
          } in
        ground (arith, free, r.word, got)
    | inr (stack, taken) ↦
        let other = go-Rep f p c a r in
        let busy : same_seen c.word seen_unlocked ≡ false =
          ground (arith, r.word, taken, busy_word stack) in
        ground (arith, taken, busy, other)
  ]

  pub enqueue-Rep :
      (f : ℕ) (seen : Seen) (c : State Carrier) (a : Mutex.State Carrier)
      → occurs f (stack_of a.word) ≡ 0
      → Rep c a
      → Rep (enqueue f seen c) (Mutex.enqueue f seen a)
  unfolding enqueue Mutex.enqueue go Mutex.go
  enqueue-Rep f seen c a out r = elim (Bool-cases (same_seen (observe a.word) seen)) [
    | inl same ↦
        let seen_link =
          ap link_of (sym (same_seen_lem (observe a.word) seen same)) ∙ link_of-observe a.word in
        let linked : Rep
            (record (go f queued c) {
              word = seen_head f;
              next = set_next f (link_of seen) c.next;
              links = c.links + 1;
            })
            (record (Mutex.go f queued a) { word = locked (f ∷ stack_of a.word) }) =
          record {
            word = refl;
            chain = (
              ground (arith, seen_link),
              Chain-set_next f (link_of seen) c.next (stack_of a.word) out r.chain,
            );
            bound = omega (arith, r.bound);
            waiters = r.waiters;
            places = λ g. ground (arith, r.places g);
            failed = r.failed;
          } in
        ground (arith, r.word, same, linked)
    | inr other ↦
        let again : Rep (record (go f enqueuing c) { next = set_next f (link_of seen) c.next })
            (Mutex.go f enqueuing a) =
          record {
            word = r.word;
            chain = Chain-set_next f (link_of seen) c.next (stack_of a.word) out r.chain;
            bound = r.bound;
            waiters = r.waiters;
            places = λ g. ground (arith, r.places g);
            failed = r.failed;
          } in
        ground (arith, r.word, other, again)
  ]

  pub release_load-Rep :
      (f : ℕ) (c : State Carrier) (a : Mutex.State Carrier)
      → Rep c a
      → Rep (release_load f c) (Mutex.release_load f (observe a.word) a)
  unfolding release_load Mutex.release_load
  release_load-Rep f c a r =
      let quiet = go-Rep f clearing c a r in
      let crowded = go-Rep f flushing c a r in ground (arith, r.word, quiet, crowded)

  pub clear-Rep :
      (f : ℕ) (c : State Carrier) (a : Mutex.State Carrier)
      → Rep c a
      → Rep (clear f c) (Mutex.clear f (observe a.word) a)
  unfolding clear Mutex.clear
  clear-Rep f c a r =
      let freed : Rep (record (go f outside c) { word = seen_unlocked })
          (record (Mutex.go f outside a) { word = unlocked }) =
        record {
          word = refl;
          chain = tt;
          bound = omega arith;
          waiters = r.waiters;
          places = λ g. ground (arith, r.places g);
          failed = r.failed;
        } in
      let again = go-Rep f releasing c a r in ground (arith, r.word, freed, again)

  pub resume_next_waiter-Rep :
      (f : ℕ) (c : State Carrier) (a : Mutex.State Carrier)
      → Rep c a
      → Rep (resume_next_waiter lists f c) (Mutex.resume_next_waiter lists f a)
  unfolding resume_next_waiter Mutex.resume_next_waiter go Mutex.go
  resume_next_waiter-Rep f c a r = elim (Option-cases (pop_front a.waiters)) [
    | inl stop ↦
        let both : Rep (record c { failed = true }) (record a { failed = true }) = record {
          word = r.word;
          chain = r.chain;
          bound = r.bound;
          waiters = r.waiters;
          places = r.places;
          failed = refl;
        } in
        ground (arith, stop, ap pop_front r.waiters, both)
    | inr ((next, rest), popped) ↦
        let moved =
          go-Rep next owning (go f outside c) (Mutex.go f outside a) (go-Rep f outside c a r) in
        let both : Rep (record (go next owning (go f outside c)) { waiters = rest })
            (record (Mutex.go next owning (Mutex.go f outside a)) { waiters = rest }) =
          record {
            word = moved.word;
            chain = moved.chain;
            bound = moved.bound;
            waiters = refl;
            places = moved.places;
            failed = moved.failed;
          } in
        ground (arith, popped, ap pop_front r.waiters, both)
  ]

  pub release-Rep :
      (f : ℕ) (c : State Carrier) (a : Mutex.State Carrier)
      → Rep c a
      → Rep (release lists f c) (Mutex.release lists f a)
  unfolding release Mutex.release
  release-Rep f c a r =
      let waiting = go-Rep f releasing c a r in
      let handed = resume_next_waiter-Rep f c a r in
      elim (Option-cases (pop_front a.waiters)) [
        | inl stop ↦ ground (arith, stop, ap pop_front r.waiters, waiting)
        | inr ((next, rest), popped) ↦ ground (arith, popped, ap pop_front r.waiters, handed)
      ]

  pub flush-Rep :
      (f : ℕ) (c : State Carrier) (a : Mutex.State Carrier)
      → Rep c a
      → Match Rep (flush lists f c) (some (Mutex.flush lists f a))
  unfolding flush Mutex.flush
  flush-Rep f c a r =
      let listed =
        ap (λ n. append_to_list lists c.links c.next n c.waiters)
          (ap link_of r.word ∙ link_of-observe a.word)
        ∙ append_to_list_lem c.links c.next (stack_of a.word) c.waiters r.bound r.chain
        ∙ ap (λ l. some (Mutex.append_to_list lists (stack_of a.word) l)) r.waiters in
      let handed =
        resume_next_waiter-Rep f
          (record c {
            waiters = Mutex.append_to_list lists (stack_of a.word) a.waiters;
            word = seen_no_waiters;
          })
          (record a {
            waiters = Mutex.append_to_list lists (stack_of a.word) a.waiters;
            word = locked [];
          })
          (record {
            word = refl;
            chain = tt;
            bound = omega arith;
            waiters = refl;
            places = r.places;
            failed = r.failed;
          }) in
      ground (arith, listed, handed)

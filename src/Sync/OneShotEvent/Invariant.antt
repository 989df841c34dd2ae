-- ===== src/Sync/OneShotEvent/Invariant.antt =====
-- The invariant of the event while one fiber does all the firing. Each action keeps it.
use magic_core.Prelude.{
  ℕ, ◌+◌, ◌≡◌, refl, ◌⊎◌, inl, inr, true, false, List, [], ◌∷◌, ◌++◌, if◌then◌else◌, arith,
  Bool-cases, ap, ◌∙◌, sym,
}
use mathlib.Core.List.{append-nil, append_assoc}
use magic_core.Intrusive.{ForwardList}
use magic_core.Prelude.Occurs.{occurs}
use magic_core.Sync.OneShotEvent.{
  Word, signaled, waiting, Seen, seen_signaled, seen_no_waiters, seen_head, observe, Place,
  enqueuing, loaded, queued, passed, exchanging, waking, fired, State, same_seen, stack_of, is_idle,
  go, is_ready, wait_async, try_enqueue, init, collect,
}

is_ready_lem : (w : Word) → is_ready w ≡ true → w ≡ signaled
unfolding is_ready
is_ready_lem w h = ground arith

seen_waiting :
    (w : Word) (seen : Seen)
    → same_seen seen seen_signaled ≡ false
    → same_seen (observe w) seen ≡ true
    → (stack : List ℕ) × (w ≡ waiting stack)
seen_waiting signaled seen_signaled a b = absurd (ground arith)
seen_waiting signaled seen_no_waiters a b = absurd (ground arith)
seen_waiting signaled (seen_head n) a b = absurd (ground arith)
seen_waiting (waiting stack) seen a b = (stack, refl)

pub word_cases :
    (w : Word)
    → (w ≡ signaled) ⊎ ((w ≡ waiting []) ⊎ ((x : ℕ) × (xs : List ℕ) × (w ≡ waiting (x ∷ xs))))
word_cases signaled = inl refl
word_cases (waiting []) = inr (inl refl)
word_cases (waiting (x ∷ xs)) = inr (inr (x, xs, refl))

module _ (lists : ForwardList ℕ) where
  open lists use {
    Carrier, empty, push_back, pop_front, to_list, to_list-empty, to_list-push_back,
    pop_front_cases,
  }

  abbrev pub suspended : Place Carrier → ℕ
  suspended queued = 1
  suspended _ = 0

  -- The fiber is inside Fire.
  abbrev pub firing : Place Carrier → ℕ
  firing exchanging = 1
  firing (waking waiters) = 1
  firing _ = 0

  -- The fiber has got past the event.
  abbrev pub through : Place Carrier → ℕ
  through (loaded seen_signaled) = 1
  through passed = 1
  through fired = 1
  through _ = 0

  -- Fibers that are still to be woken.
  abbrev pub to_wake : Place Carrier → List ℕ
  to_wake (waking waiters) = to_list waiters
  to_wake _ = []

  pub idle_places : (p : Place Carrier) → is_idle p ≡ true → (0 ≡ suspended p) × (firing p ≡ 0)
  idle_places p h = ground arith

  abbrev pub Stage : Place Carrier → Word → Type 0
  Stage exchanging w = (x : ℕ) × (xs : List ℕ) × (w ≡ waiting (x ∷ xs))
  Stage (waking waiters) w = w ≡ signaled
  Stage _ w = Unit

  pub to_list-collect :
      (stack : List ℕ) (l : Carrier) → to_list (collect lists stack l) ≡ to_list l ++ stack
  unfolding collect
  to_list-collect [] l = sym (append-nil (to_list l))
  to_list-collect (x ∷ xs) l =
      to_list-collect xs (push_back l x)
      ∙ ap (λ ys. ys ++ xs) (to_list-push_back l x)
      ∙ append_assoc (to_list l) (x ∷ []) xs

  pub record Inv (firer : ℕ) (s : State Carrier) : Type 0 where
    pub alone : (f : ℕ) → firing (s.places f) ≡ 1 → f ≡ firer
    pub wait :
        (f : ℕ)
        → occurs f (stack_of s.word) + occurs f (to_wake (s.places firer)) ≡ suspended (s.places f)
    pub stage : Stage (s.places firer) s.word
    pub gate : (f : ℕ) → through (s.places f) ≡ 1 → s.word ≡ signaled
    pub sane : s.failed ≡ false

  pub init-Inv : (firer : ℕ) → Inv firer (init lists)
  init-Inv firer = record {
    alone = λ f h. absurd (omega arith);
    wait = λ f. omega arith;
    stage = tt;
    gate = λ f h. absurd (omega arith);
    sane = refl;
  }

  -- A fiber goes from one place outside of Fire to another.
  pub go-Inv :
      (firer f : ℕ) (p : Place Carrier) (s : State Carrier)
      → suspended p ≡ suspended (s.places f)
      → firing p ≡ 0
      → firing (s.places f) ≡ 0
      → (through p ≡ 1 → s.word ≡ signaled)
      → Inv firer s
      → Inv firer (go f p s)
  unfolding go
  go-Inv firer f p s same away away' open_gate v = record {
    alone = λ g. ground (arith, v.alone g);
    wait = λ g. ground (arith, v.wait g, v.wait f);
    stage = ground (arith, v.stage);
    gate = λ g. ground (arith, v.gate g);
    sane = v.sane;
  }

  pub wait_async-Inv :
      (firer f : ℕ) (s : State Carrier)
      → is_idle (s.places f) ≡ true
      → Inv firer s
      → Inv firer (wait_async f s)
  unfolding wait_async is_ready
  wait_async-Inv firer f s idle v =
      let (same, away) = idle_places (s.places f) idle in
      elim (Bool-cases (is_ready s.word)) [
        | inl ready ↦
            let passing =
              go-Inv firer f passed s same refl away (λ h. is_ready_lem s.word ready) v in
            ground (arith, ready, passing)
        | inr not_yet ↦
            let entering =
              go-Inv firer f enqueuing s same refl away (λ h. absurd (omega arith)) v in
            ground (arith, not_yet, entering)
      ]

  -- compare_exchange_strong of TryEnqueue
  link-Inv :
      (firer f : ℕ) (seen : Seen) (s : State Carrier)
      → s.places f ≡ loaded seen
      → same_seen seen seen_signaled ≡ false
      → Inv firer s
      → Inv firer (
          if same_seen (observe s.word) seen
          then record (go f queued s) { word = waiting (f ∷ stack_of s.word) }
          else go f enqueuing s)
  unfolding go
  link-Inv firer f seen s here open_yet v = elim (Bool-cases (same_seen (observe s.word) seen)) [
    | inl same ↦
        let (stack, found) = seen_waiting s.word seen open_yet same in
        let linked : Inv firer (record (go f queued s) { word = waiting (f ∷ stack_of s.word) }) =
          record {
            alone = λ g. ground (arith, v.alone g);
            wait = λ g. ground (arith, v.wait g, v.wait f);
            stage = ground (arith, v.stage, found);
            gate = λ g. ground (arith, v.gate g, found);
            sane = v.sane;
          } in
        ground (arith, same, linked)
    | inr other ↦
        let again : Inv firer (go f enqueuing s) =
          go-Inv firer f enqueuing s (ground (arith, here)) refl (ground (arith, here))
            (λ h. absurd (omega arith)) v in
        ground (arith, other, again)
  ]

  pub try_enqueue-Inv :
      (firer f : ℕ) (seen : Seen) (s : State Carrier)
      → s.places f ≡ loaded seen
      → Inv firer s
      → Inv firer (try_enqueue f seen s)
  unfolding try_enqueue
  try_enqueue-Inv firer f seen_signaled s here v =
      go-Inv firer f passed s (ground (arith, here)) refl (ground (arith, here))
        (λ h. v.gate f (ground (arith, here))) v
  try_enqueue-Inv firer f seen_no_waiters s here v = link-Inv firer f seen_no_waiters s here refl v
  try_enqueue-Inv firer f (seen_head n) s here v = link-Inv firer f (seen_head n) s here refl v

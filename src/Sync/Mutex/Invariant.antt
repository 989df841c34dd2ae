-- ===== src/Sync/Mutex/Invariant.antt =====
-- The invariant of the mutex: who holds it, and whose nodes are linked. Each action keeps it.
use magic_core.Prelude.{
  ℕ, ◌+◌, ◌≡◌, refl, ◌⊎◌, inl, inr, true, false, Option, none, some, List, [], ◌∷◌, ◌++◌, ◌==◌,
  if◌then◌else◌, arith, Bool-cases, ap, ◌∙◌, sym,
}
use mathlib.Core.List.{append-nil, append_assoc}
use magic_core.Intrusive.{ForwardList}
use magic_core.Prelude.Occurs.{occurs}
use magic_core.Sync.Mutex.{
  Word, unlocked, locked, Seen, seen_unlocked, observe, Place, enqueuing, loaded, queued, owning,
  releasing, clearing, flushing, State, same_seen, stack_of, go, try_lock, enqueue, init,
  append_to_list,
}

-- Places from which the lock has still to be given back.
abbrev pub holds : Place → ℕ
holds owning = 1
holds releasing = 1
holds clearing = 1
holds flushing = 1
holds _ = 0

abbrev pub waits : Place → ℕ
waits queued = 1
waits _ = 0

abbrev pub indicator : Option ℕ → ℕ → ℕ
indicator none f = 0
indicator (some g) f = if f == g then 1 else 0

pub word_cases : (w : Word) → (w ≡ unlocked) ⊎ ((stack : List ℕ) × (w ≡ locked stack))
word_cases unlocked = inl refl
word_cases (locked stack) = inr (stack, refl)

pub indicator_one : (o : Option ℕ) (f : ℕ) → indicator o f ≡ 1 → o ≡ some f
indicator_one none f h = absurd (omega arith)
indicator_one (some g) f h = ground arith

seen_locked :
    (w : Word) (seen : Seen)
    → same_seen seen seen_unlocked ≡ false
    → same_seen (observe w) seen ≡ true
    → (stack : List ℕ) × (w ≡ locked stack)
seen_locked unlocked seen busy same = absurd (ground arith)
seen_locked (locked stack) seen busy same = (stack, refl)

-- What the place of the holder tells of the word and of waiters_.
abbrev pub Stage : Place → List ℕ → List ℕ → Type 0
Stage owning stack queue = Unit
Stage flushing [] queue = ⊥
Stage _ stack queue = queue ≡ []

module _ (lists : ForwardList ℕ) where
  open lists use {
    Carrier, empty, push_back, pop_front, to_list, to_list-empty, to_list-push_back,
    pop_front_cases,
  }

  pub to_list-append_to_list :
      (stack : List ℕ) (l : Carrier) → to_list (append_to_list lists stack l) ≡ to_list l ++ stack
  unfolding append_to_list
  to_list-append_to_list [] l = sym (append-nil (to_list l))
  to_list-append_to_list (x ∷ xs) l =
      to_list-append_to_list xs (push_back l x)
      ∙ ap (λ ys. ys ++ xs) (to_list-push_back l x)
      ∙ append_assoc (to_list l) (x ∷ []) xs

  abbrev pub Tied : Option ℕ → Word → List ℕ → (ℕ → Place) → Type 0
  Tied none unlocked queue places = queue ≡ []
  Tied (some g) (locked stack) queue places = Stage (places g) stack queue
  Tied _ _ queue places = ⊥

  pub record Inv (s : State Carrier) : Type 0 where
    pub owner : Option ℕ
    pub held : (f : ℕ) → holds (s.places f) ≡ indicator owner f
    pub wait :
        (f : ℕ) → occurs f (stack_of s.word) + occurs f (to_list s.waiters) ≡ waits (s.places f)
    pub tied : Tied owner s.word (to_list s.waiters) s.places
    pub sane : s.failed ≡ false

  pub init-Inv : Inv (init lists)
  init-Inv = record {
    owner = none;
    held = λ f. refl;
    wait = λ f. ground (arith, to_list-empty);
    tied = to_list-empty;
    sane = refl;
  }

  -- A fiber goes from one place to another and nothing else changes.
  pub go-Inv :
      (f : ℕ) (p : Place) (s : State Carrier)
      → holds p ≡ holds (s.places f)
      → waits p ≡ waits (s.places f)
      → (holds p ≡ 1 → Stage p (stack_of s.word) (to_list s.waiters))
      → Inv s
      → Inv (go f p s)
  unfolding go
  go-Inv f p s same_hold same_wait stage v = record {
    owner = v.owner;
    held = λ g. ground (arith, v.held g, v.held f);
    wait = λ g. ground (arith, v.wait g, v.wait f);
    tied = ground (arith, v.tied, v.held f);
    sane = v.sane;
  }

  -- A fiber that neither holds the lock nor waits gets it, or goes to another such place.
  pub try_lock-Inv :
      (f : ℕ) (p : Place) (s : State Carrier)
      → holds p + waits p ≡ 0
      → holds (s.places f) + waits (s.places f) ≡ 0
      → Inv s
      → Inv (try_lock f p s.word s)
  unfolding try_lock
  try_lock-Inv f p s fresh here v = elim (word_cases s.word) [
    | inl free ↦
        let got : Inv (record (go f owning s) { word = locked [] }) = record {
          owner = some f;
          held = λ g. ground (arith, v.held g, v.held f, v.tied, free);
          wait = λ g. ground (arith, v.wait g, v.wait f, free);
          tied = ground (arith, free);
          sane = v.sane;
        } in
        ground (arith, free, got)
    | inr (stack, taken) ↦
        let other : Inv (go f p s) =
          go-Inv f p s (omega arith) (omega arith) (λ h. absurd (omega arith)) v in
        ground (arith, taken, other)
  ]

  pub enqueue-Inv :
      (f : ℕ) (seen : Seen) (s : State Carrier)
      → s.places f ≡ loaded seen
      → Inv s
      → same_seen seen seen_unlocked ≡ false
      → Inv (enqueue f seen s)
  unfolding enqueue
  enqueue-Inv f seen s here v busy = elim (Bool-cases (same_seen (observe s.word) seen)) [
    | inl same ↦
        let (stack, taken) = seen_locked s.word seen busy same in
        let linked : Inv (record (go f queued s) { word = locked (f ∷ stack_of s.word) }) = record {
          owner = v.owner;
          held = λ g. ground (arith, v.held g, v.held f);
          wait = λ g. ground (arith, v.wait g, v.wait f);
          tied = ground (arith, v.tied, v.held f, taken);
          sane = v.sane;
        } in
        ground (arith, same, linked)
    | inr other ↦
        let again =
          go-Inv f enqueuing s (ground arith) (ground arith) (λ h. absurd (omega arith)) v in
        ground (arith, other, again)
  ]

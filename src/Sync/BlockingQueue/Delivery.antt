-- ===== src/Sync/BlockingQueue/Delivery.antt =====
-- What Put, Take, Close and Shutdown come to in every order of the critical sections.
use magic_core.Prelude.{
  ℕ, zero, suc, ◌≤◌, ◌<◌, ◌≡◌, refl, inl, inr, subst, true, Option, Option-cases, none, some, List,
  [], ◌∷◌, ◌++◌, length, get_elem?, arith,
}
use magic_core.Prelude.Totals.{total}
use magic_core.Sync.BlockingQueue.{
  Place, outside, sleeping, woken, got, State, Event, puts, takes, wakes, resumes, closes,
  shuts_down, all_outside, init, sleeps, starts, continues, step, run,
}
use magic_core.Sync.BlockingQueue.Invariant.{
  sleepers, awake, Inv, take-Inv, wake-Inv, put-Inv, close-Inv, shutdown-Inv, wake_sleeping,
}

starts-Inv :
    (c : ℕ) (p : Option Place) (s t : State)
    → get_elem? s.consumers c ≡ p
    → starts c p s ≡ some t
    → Inv s
    → Inv t
starts-Inv c none s t at_c e i = absurd (ground (arith, e))
starts-Inv c (some outside) s t at_c e i =
    subst Inv (ground (arith, e)) (take-Inv c outside s.buffer s at_c refl refl i)
starts-Inv c (some (got v)) s t at_c e i =
    subst Inv (ground (arith, e)) (take-Inv c (got v) s.buffer s at_c refl refl i)
starts-Inv c (some sleeping) s t at_c e i = absurd (ground (arith, e))
starts-Inv c (some woken) s t at_c e i = absurd (ground (arith, e))

continues-Inv :
    (c : ℕ) (p : Option Place) (s t : State)
    → get_elem? s.consumers c ≡ p
    → continues c p s ≡ some t
    → Inv s
    → Inv t
continues-Inv c none s t at_c e i = absurd (ground (arith, e))
continues-Inv c (some outside) s t at_c e i = absurd (ground (arith, e))
continues-Inv c (some (got v)) s t at_c e i = absurd (ground (arith, e))
continues-Inv c (some sleeping) s t at_c e i = absurd (ground (arith, e))
continues-Inv c (some woken) s t at_c e i =
    subst Inv (ground (arith, e)) (take-Inv c woken s.buffer s at_c refl refl i)

step-Inv : (x : Event) (s t : State) → step x s ≡ some t → Inv s → Inv t
unfolding step
step-Inv (puts v c) s t e i = put-Inv v c s t e i
step-Inv (takes c) s t e i = starts-Inv c (get_elem? s.consumers c) s t refl e i
step-Inv (wakes c) s t e i =
    let (at_c, same) = wake_sleeping c (get_elem? s.consumers c) s t e in
    subst Inv same (wake-Inv c s at_c i)
step-Inv (resumes c) s t e i = continues-Inv c (get_elem? s.consumers c) s t refl e i
step-Inv closes s t e i = subst Inv (ground (arith, e)) (close-Inv s i)
step-Inv shuts_down s t e i = subst Inv (ground (arith, e)) (shutdown-Inv s i)

run-Inv : (es : List Event) (s t : State) → run es s ≡ some t → Inv s → Inv t
unfolding run
run-Inv [] s t e i = subst Inv (ground (arith, e)) i
run-Inv (x ∷ es) s t e i = elim (Option-cases (step x s)) [
  | inl stuck ↦ absurd (ground (arith, e, stuck))
  | inr (u, moved) ↦ run-Inv es u t (ground (arith, e, moved)) (step-Inv x s u moved i)
]

none_sleep : (n : ℕ) → total sleeps (all_outside n) ≡ 0
none_sleep zero = refl
none_sleep (suc n) = ground (arith, none_sleep n)

init-Inv : (consumers : ℕ) → Inv (init consumers)
init-Inv consumers = record {
  order = refl;
  opened = λ h. (refl, refl);
  shut = λ h. absurd (ground (arith, h));
  wake_up = λ h. absurd (ground (arith, h, none_sleep consumers));
}

-- For any number of consumers and every order of the critical sections, with spurious wake-ups: the
-- values that Put has accepted are, in that order, those that Take has returned, those in the buffer,
-- and those that Close has dropped or Shutdown has disposed of; behind Close or Shutdown no consumer
-- sleeps and the buffer is empty; and when a consumer sleeps, at least as many others as there are
-- values in the buffer have been woken and are about to take them.
pub queue_delivers :
    (consumers : ℕ) (es : List Event) (s : State)
    → run es (init consumers) ≡ some s
    → (s.taken ++ (s.buffer ++ (s.dropped ++ s.disposed)) ≡ s.accepted)
      × (s.closed ≡ true → (s.buffer ≡ []) × (sleepers s ≡ 0))
      × (0 < sleepers s → length s.buffer ≤ awake s)
queue_delivers consumers es s e =
    let i = run-Inv es (init consumers) s e (init-Inv consumers) in (i.order, i.shut, i.wake_up)

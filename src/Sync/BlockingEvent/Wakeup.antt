-- ===== src/Sync/BlockingEvent/Wakeup.antt =====
-- Nobody passes before Fire, and each Fire lets one sleeping thread go on.
use magic_core.Prelude.{
  ℕ, zero, suc, ◌+◌, ◌-◌, ◌≤◌, ◌≡◌, refl, inl, inr, subst, false, Option-cases, some, List, [], ◌∷◌,
  length, get_elem?, ltb, arith,
}
use magic_core.Prelude.Totals.{total}
use magic_core.Sync.BlockingEvent.{
  State, Event, waits, wakes, resumes, fires, all_outside, init, sleeps, passes, step, run,
}
use magic_core.Sync.BlockingEvent.Invariant.{
  sleepers, Inv, wake-Inv, starts-Inv, continues-Inv, wake_sleeping, fire-Inv,
}

-- How many calls of Fire there are.
abbrev pub count_fires : List Event → ℕ
count_fires [] = 0
count_fires (fires t ∷ es) = suc (count_fires es)
count_fires (e ∷ es) = count_fires es

abbrev fires_in : Event → ℕ
fires_in (fires t) = 1
fires_in _ = 0

step-Inv :
    (n k : ℕ) (x : Event) (s u : State) → step x s ≡ some u → Inv n k s → Inv n (fires_in x + k) u
unfolding step
step-Inv n k (waits t) s u e i =
    subst (λ m. Inv n m u) (omega arith) (starts-Inv n k t (get_elem? s.threads t) s u refl e i)
step-Inv n k (wakes t) s u e i =
    let (at_t, same) = wake_sleeping t (get_elem? s.threads t) s u e in
    subst (λ m. Inv n m u) (omega arith) (subst (Inv n k) same (wake-Inv n k t s at_t i))
step-Inv n k (resumes t) s u e i =
    subst (λ m. Inv n m u) (omega arith) (continues-Inv n k t (get_elem? s.threads t) s u refl e i)
step-Inv n k (fires t) s u e i = subst (λ m. Inv n m u) (omega arith) (fire-Inv n k t s u e i)

count_more :
    (x : Event) (es : List Event) (k : ℕ)
    → count_fires es + (fires_in x + k) ≡ count_fires (x ∷ es) + k
count_more (waits t) es k = omega arith
count_more (wakes t) es k = omega arith
count_more (resumes t) es k = omega arith
count_more (fires t) es k = omega arith

run-Inv :
    (n k : ℕ) (es : List Event) (s u : State)
    → run es s ≡ some u
    → Inv n k s
    → Inv n (count_fires es + k) u
unfolding run
run-Inv n k [] s u e i =
    subst (λ m. Inv n m u) (omega arith) (subst (Inv n k) (ground (arith, e)) i)
run-Inv n k (x ∷ es) s u e i = elim (Option-cases (step x s)) [
  | inl stuck ↦ absurd (ground (arith, e, stuck))
  | inr (v, moved) ↦
      subst (λ m. Inv n m u) (count_more x es k)
        (run-Inv n (fires_in x + k) es v u (ground (arith, e, moved)) (step-Inv n k x s v moved i))
]

outside_counts :
    (n : ℕ)
    → (length (all_outside n) ≡ n)
      × (total sleeps (all_outside n) ≡ 0)
      × (total passes (all_outside n) ≡ 0)
outside_counts zero = (refl, refl, refl)
outside_counts (suc n) =
    let (a, b, c) = outside_counts n in (ground (arith, a), ground (arith, b), ground (arith, c))

init-Inv : (n : ℕ) → Inv n 0 (init n)
init-Inv n =
    let (a, b, c) = outside_counts n in
    record { all = a; set_by = refl; gate = λ h. c; few = omega (arith, b) }

-- For any number of threads and every order of the critical sections, with spurious wake-ups: the
-- event is set just when Fire has been called; no thread has passed Wait before; and each call of
-- Fire leaves one thread less asleep: behind `k` calls at most all but `k` threads sleep. So one call
-- is enough for one waiting thread, which is how a getter of a future uses the event.
pub fire_wakes :
    (threads : ℕ) (es : List Event) (s : State)
    → run es (init threads) ≡ some s
    → (s.fired ≡ ltb 0 (count_fires es))
      × (s.fired ≡ false → total passes s.threads ≡ 0)
      × (sleepers s ≤ threads - count_fires es)
fire_wakes threads es s e =
    let i = run-Inv threads 0 es (init threads) s e (init-Inv threads) in
    (ground (arith, i.set_by), i.gate, omega (arith, i.few))

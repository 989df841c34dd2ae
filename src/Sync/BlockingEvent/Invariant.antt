-- ===== src/Sync/BlockingEvent/Invariant.antt =====
-- What each critical section keeps.
use magic_core.Prelude.{
  ℕ, suc, ◌+◌, ◌-◌, ◌≤◌, ◌≡◌, refl, inl, inr, subst, true, false, Bool-cases, Option, none, some,
  List, [], ◌∷◌, length, get_elem?, set, ltb, arith,
}
use magic_core.Prelude.Totals.{total, total-set, length-set}
use magic_core.Sync.BlockingEvent.{
  Place, outside, sleeping, woken, passed, State, go, sleeps, passes, wake, pass_or_wait, starts,
  continues, fire,
}

abbrev pub sleepers : State → ℕ
sleepers s = total sleeps s.threads

-- Fire has been called `fired` times for `threads` threads.
pub record Inv (threads fired : ℕ) (s : State) : Type 0 where
  pub all : length s.threads ≡ threads
  pub set_by : s.fired ≡ ltb 0 fired
  pub gate : s.fired ≡ false → total passes s.threads ≡ 0
  pub few : sleepers s ≤ threads - fired

sleepers_bound : (ps : List Place) → total sleeps ps ≤ length ps
sleepers_bound [] = omega arith
sleepers_bound (outside ∷ ps) = omega (arith, sleepers_bound ps)
sleepers_bound (sleeping ∷ ps) = omega (arith, sleepers_bound ps)
sleepers_bound (woken ∷ ps) = omega (arith, sleepers_bound ps)
sleepers_bound (passed ∷ ps) = omega (arith, sleepers_bound ps)

module _ (t : ℕ) (p q : Place) (s : State) (at_t : get_elem? s.threads t ≡ some p) where
  sleeps_moved : total sleeps (set s.threads t q) + sleeps p ≡ sleepers s + sleeps q
  sleeps_moved = total-set sleeps s.threads t p q at_t

  passes_moved : total passes (set s.threads t q) + passes p ≡ total passes s.threads + passes q
  passes_moved = total-set passes s.threads t p q at_t

module _ (n k : ℕ) where
  wait-Inv :
      (t : ℕ) (p : Place) (s : State)
      → get_elem? s.threads t ≡ some p
      → sleeps p ≡ 0
      → Inv n k s
      → Inv n k (pass_or_wait t s)
  unfolding pass_or_wait
  wait-Inv t p s at_t up i = elim (Bool-cases s.fired) [
    | inl done ↦
        let m : Inv n k (go t passed s) = record {
          all = ground (arith, i.all, length-set s.threads t passed);
          set_by = i.set_by;
          gate = λ h. absurd (ground (arith, h, done));
          few = omega (arith, i.few, up, sleeps_moved t p passed s at_t);
        } in
        ground (arith, done, m)
    | inr not_yet ↦
        let m : Inv n k (go t sleeping s) = record {
          all = ground (arith, i.all, length-set s.threads t sleeping);
          set_by = i.set_by;
          gate = λ h. ground (arith, i.gate h, passes_moved t p sleeping s at_t);
          few =
              let bound = sleepers_bound (set s.threads t sleeping) in
              ground (arith, bound, i.all, length-set s.threads t sleeping, i.set_by, not_yet);
        } in
        ground (arith, not_yet, m)
  ]

  pub wake-Inv :
      (t : ℕ) (s : State)
      → get_elem? s.threads t ≡ some sleeping
      → Inv n k s
      → Inv n k (go t woken s)
  wake-Inv t s at_t i = record {
    all = ground (arith, i.all, length-set s.threads t woken);
    set_by = i.set_by;
    gate = λ h. ground (arith, i.gate h, passes_moved t sleeping woken s at_t);
    few = omega (arith, i.few, sleeps_moved t sleeping woken s at_t);
  }

  pub starts-Inv :
      (t : ℕ) (p : Option Place) (s u : State)
      → get_elem? s.threads t ≡ p
      → starts t p s ≡ some u
      → Inv n k s
      → Inv n k u
  starts-Inv t none s u at_t e i = absurd (ground (arith, e))
  starts-Inv t (some outside) s u at_t e i =
      subst (Inv n k) (ground (arith, e)) (wait-Inv t outside s at_t refl i)
  starts-Inv t (some passed) s u at_t e i =
      subst (Inv n k) (ground (arith, e)) (wait-Inv t passed s at_t refl i)
  starts-Inv t (some sleeping) s u at_t e i = absurd (ground (arith, e))
  starts-Inv t (some woken) s u at_t e i = absurd (ground (arith, e))

  pub continues-Inv :
      (t : ℕ) (p : Option Place) (s u : State)
      → get_elem? s.threads t ≡ p
      → continues t p s ≡ some u
      → Inv n k s
      → Inv n k u
  continues-Inv t none s u at_t e i = absurd (ground (arith, e))
  continues-Inv t (some woken) s u at_t e i =
      subst (Inv n k) (ground (arith, e)) (wait-Inv t woken s at_t refl i)
  continues-Inv t (some outside) s u at_t e i = absurd (ground (arith, e))
  continues-Inv t (some passed) s u at_t e i = absurd (ground (arith, e))
  continues-Inv t (some sleeping) s u at_t e i = absurd (ground (arith, e))

-- A wake-up is of a sleeping thread.
pub wake_sleeping :
    (t : ℕ) (p : Option Place) (s u : State)
    → wake t p s ≡ some u
    → (p ≡ some sleeping) × (go t woken s ≡ u)
wake_sleeping t none s u e = absurd (ground (arith, e))
wake_sleeping t (some sleeping) s u e = (refl, ground (arith, e))
wake_sleeping t (some outside) s u e = absurd (ground (arith, e))
wake_sleeping t (some woken) s u e = absurd (ground (arith, e))
wake_sleeping t (some passed) s u e = absurd (ground (arith, e))

pub fire-Inv : (n k t : ℕ) (s u : State) → fire t s ≡ some u → Inv n k s → Inv n (suc k) u
unfolding fire
fire-Inv n k t s u e i = elim (Bool-cases (ltb 0 (sleepers s))) [
  | inl some_sleep ↦
      let v = record s { fired = true } in
      let (at_t, same) =
        wake_sleeping t (get_elem? s.threads t) v u (ground (arith, e, some_sleep)) in
      let m : Inv n (suc k) (go t woken v) = record {
        all = ground (arith, i.all, length-set s.threads t woken);
        set_by = ground arith;
        gate = λ h. absurd (ground (arith, h));
        few = omega (arith, i.few, sleeps_moved t sleeping woken s at_t);
      } in
      subst (Inv n (suc k)) same m
  | inr none_sleep ↦
      let m : Inv n (suc k) (record s { fired = true }) = record {
        all = i.all;
        set_by = ground arith;
        gate = λ h. absurd (ground (arith, h));
        few = ground (arith, none_sleep);
      } in
      subst (Inv n (suc k)) (ground (arith, e, none_sleep)) m
]

-- ===== src/Sync/CondVar/Waiters.antt =====
-- A fiber that is suspended is in exactly one list: that of the waiters, or that of a waker.
use magic_core.Prelude.{
  ℕ, zero, suc, ◌+◌, ◌<◌, ◌≡◌, refl, ap, ◌∙◌, inl, inr, Option-cases, false, Option, none, some,
  List, [], ◌∷◌, ◌++◌, ◌==◌, get_elem?, if◌then◌else◌, arith, subst,
}
use magic_core.Prelude.Occurs.{occurs, occurs-append}
use magic_core.Prelude.Totals.{total, total-set, get_elem?-set}
use magic_core.Intrusive.{ForwardList}
use magic_core.Sync.CondVar.{
  Place, outside, prepared, parked, resumed, waking, State, Call, wait, notify_one, notify_all,
  Event, acts, all_outside, init, go, next_epoch, park_if_equal, wake_one, wake_all, resume, wake,
  advance, step, run,
}

abbrev pub sleeps : {C : Type 0} → Option (Place C) → ℕ
sleeps (some (parked key)) = 1
sleeps _ = 0

asleep_lem :
    {C : Type 0} (p : Option (Place C)) → 0 < sleeps p → (key : ℕ) × (p ≡ some (parked key))
asleep_lem none h = absurd (omega (arith, h))
asleep_lem (some outside) h = absurd (omega (arith, h))
asleep_lem (some (prepared key)) h = absurd (omega (arith, h))
asleep_lem (some (parked key)) h = (key, refl)
asleep_lem (some resumed) h = absurd (omega (arith, h))
asleep_lem (some (waking gs)) h = absurd (omega (arith, h))

module _ (lists : ForwardList ℕ) where
  open lists use {
    Carrier, empty, push_back, pop_front, to_list, to_list-empty, to_list-push_back,
    pop_front_cases,
  }

  -- How often a fiber is in the list of a waker, and in all lists
  abbrev pub in_list : ℕ → Place Carrier → ℕ
  in_list g (waking gs) = occurs g (to_list gs)
  in_list g _ = 0

  abbrev pub listed : ℕ → State Carrier → ℕ
  listed g s = occurs g (to_list s.waiters) + total (in_list g) s.places

  pub record Inv (s : State Carrier) : Type 0 where
    pub once : (g : ℕ) → listed g s ≡ sleeps (get_elem? s.places g)
    pub sane : s.failed ≡ false

  -- The list of waiters and the place of one fiber change, and every fiber is listed as before.
  move-Inv :
      (f : ℕ) (p q : Place Carrier) (s : State Carrier) (waiters : Carrier) (epoch : ℕ)
      → get_elem? s.places f ≡ some p
      → ((g : ℕ)
          → occurs g (to_list waiters) + in_list g q + (if g == f then sleeps (some p) else 0)
            ≡ occurs g (to_list s.waiters) + in_list g p + (if g == f then sleeps (some q) else 0))
      → Inv s
      → Inv (record (go f q s) { waiters = waiters; epoch = epoch })
  move-Inv f p q s waiters epoch found same i = record {
    once = λ g. ground (
      arith,
      i.once g,
      total-set (in_list g) s.places f p q found,
      get_elem?-set s.places f p q found g,
      found,
      same g,
    );
    sane = i.sane;
  }

  module _ (append : Carrier → Carrier → Carrier)
      (to_list-append : (l m : Carrier) → to_list (append l m) ≡ to_list l ++ to_list m) where
    park-Inv :
        (f key : ℕ) (s : State Carrier)
        → get_elem? s.places f ≡ some (prepared key)
        → Inv s
        → Inv (park_if_equal lists append f key s)
    unfolding park_if_equal
    park-Inv f key s found i =
        let later = λ (g : ℕ).
          ap (occurs g) (to_list-push_back s.waiters f)
          ∙ occurs-append g (to_list s.waiters) (f ∷ []) in
        let parks =
          move-Inv f (prepared key) (parked key) s (push_back s.waiters f) s.epoch found
            (λ g. ground (arith, later g)) i in
        let leaves =
          move-Inv f (prepared key) resumed s s.waiters s.epoch found (λ g. ground arith) i in
        ground (arith, parks, leaves)

    wake_one-Inv :
        (f : ℕ) (s : State Carrier)
        → get_elem? s.places f ≡ some outside
        → Inv s
        → Inv (wake_one lists append f s)
    unfolding wake_one
    wake_one-Inv f s found i = elim (pop_front_cases s.waiters) [
      | inl (nobody, popped) ↦
          let none_in = λ (g : ℕ). ap (occurs g) to_list-empty in
          let j =
            move-Inv f outside (waking empty) s s.waiters (next_epoch s.epoch) found
              (λ g. ground (arith, none_in g)) i in
          ground (arith, popped, j)
      | inr (x, rest, all, popped) ↦
          let first = λ (g : ℕ). ap (occurs g) all in
          let one = λ (g : ℕ).
            ap (occurs g) (to_list-push_back empty x ∙ ap (λ l. l ++ x ∷ []) to_list-empty) in
          let j =
            move-Inv f outside (waking (push_back empty x)) s rest (next_epoch s.epoch) found
              (λ g. ground (arith, first g, one g)) i in
          ground (arith, popped, j)
    ]

    wake-Inv :
        (f : ℕ) (gs : Carrier) (s : State Carrier)
        → get_elem? s.places f ≡ some (waking gs)
        → Inv s
        → Inv (wake lists append f gs s)
    unfolding wake resume
    wake-Inv f gs s found i = elim (pop_front_cases gs) [
      | inl (nobody, popped) ↦
          let j =
            move-Inv f (waking gs) outside s s.waiters s.epoch found
              (λ g. ground (arith, ap (occurs g) nobody)) i in
          ground (arith, popped, j)
      | inr (x, rest, all, popped) ↦
          let first = λ (g : ℕ). ap (occurs g) all in
          let T = λ (g : ℕ). total-set (in_list g) s.places f (waking gs) (waking rest) found in
          let G = get_elem?-set s.places f (waking gs) (waking rest) found in
          let (key, asleep) =
            asleep_lem (get_elem? s.places x) (ground (arith, i.once x, first x, T x)) in
          let t : State Carrier = go f (waking rest) s in
          let there : get_elem? t.places x ≡ some (parked key) =
            ground (arith, G x, asleep, found) in
          let T' = λ (g : ℕ). total-set (in_list g) t.places x (parked key) resumed there in
          let G' = get_elem?-set t.places x (parked key) resumed there in
          let j : Inv (go x resumed t) = record {
            once = λ g. ground (arith, i.once g, first g, T g, G g, T' g, G' g, found, asleep);
            sane = i.sane;
          } in
          ground (arith, popped, there, j)
    ]

    wake_all-Inv :
        (f : ℕ) (s : State Carrier)
        → get_elem? s.places f ≡ some outside
        → Inv s
        → Inv (wake_all lists append f s)
    unfolding wake_all
    wake_all-Inv f s found i =
        let none_in = λ (g : ℕ). ap (occurs g) to_list-empty in
        let all = λ (g : ℕ).
          ap (occurs g)
            (to_list-append empty s.waiters ∙ ap (λ l. l ++ to_list s.waiters) to_list-empty) in
        move-Inv f outside (waking (append empty s.waiters)) s empty (next_epoch s.epoch) found
          (λ g. ground (arith, none_in g, all g)) i

    advance-Inv :
        (f : ℕ) (call : Call) (p : Place Carrier) (s t : State Carrier)
        → get_elem? s.places f ≡ some p
        → Inv s
        → advance lists append f call p s ≡ some t
        → Inv t
    unfolding advance
    advance-Inv f wait outside s t found i e =
        subst Inv (ground (arith, e))
          (move-Inv f outside (prepared s.epoch) s s.waiters s.epoch found (λ g. ground arith) i)
    advance-Inv f notify_one outside s t found i e =
        subst Inv (ground (arith, e)) (wake_one-Inv f s found i)
    advance-Inv f notify_all outside s t found i e =
        subst Inv (ground (arith, e)) (wake_all-Inv f s found i)
    advance-Inv f call (prepared key) s t found i e =
        subst Inv (ground (arith, e)) (park-Inv f key s found i)
    advance-Inv f call (parked key) s t found i e = absurd (ground (arith, e))
    advance-Inv f call resumed s t found i e =
        subst Inv (ground (arith, e))
          (move-Inv f resumed outside s s.waiters s.epoch found (λ g. ground arith) i)
    advance-Inv f call (waking gs) s t found i e =
        subst Inv (ground (arith, e)) (wake-Inv f gs s found i)

    step-Inv : (e : Event) (s t : State Carrier) → Inv s → step lists append e s ≡ some t → Inv t
    unfolding step
    step-Inv (acts f call) s t i e = elim (Option-cases (get_elem? s.places f)) [
      | inl out ↦ absurd (ground (arith, out))
      | inr (p, found) ↦ advance-Inv f call p s t found i (ground (arith, e, found))
    ]

    run-Inv :
        (es : List Event) (s t : State Carrier) → Inv s → run lists append es s ≡ some t → Inv t
    unfolding run
    run-Inv [] s t i e = subst Inv (ground (arith, e)) i
    run-Inv (x ∷ es) s t i e = elim (Option-cases (step lists append x s)) [
      | inl stuck ↦ absurd (ground (arith, stuck))
      | inr (u, moved) ↦ run-Inv es u t (step-Inv x s u i moved) (ground (arith, e, moved))
    ]

    outside_lists : (g n : ℕ) → total (in_list g) (all_outside n) ≡ 0
    outside_lists g zero = refl
    outside_lists g (suc n) = omega (arith, outside_lists g n)

    outside_sleeps : (g n : ℕ) → sleeps (get_elem? (all_outside {C = Carrier} n) g) ≡ 0
    outside_sleeps g zero = refl
    outside_sleeps zero (suc n) = refl
    outside_sleeps (suc g) (suc n) = outside_sleeps g n

    init-Inv : (n : ℕ) → Inv (init lists append n)
    init-Inv n = record {
      once = λ g. omega (arith, ap (occurs g) to_list-empty, outside_lists g n, outside_sleeps g n);
      sane = refl;
    }

    -- Any number of fibers wait on and notify a condition variable, in any order of their actions. A
    -- fiber is suspended exactly when it stands, once, in the list of waiters or in the list of a
    -- notifier that is waking it, so that no notification is lost between the two lists; and no
    -- fiber is resumed that is not suspended.
    pub condvar_waiters :
        (fibers : ℕ) (es : List Event) (s : State Carrier)
        → run lists append es (init lists append fibers) ≡ some s
        → (s.failed ≡ false) × ((g : ℕ) → listed g s ≡ sleeps (get_elem? s.places g))
    condvar_waiters fibers es s e =
        let i = run-Inv es (init lists append fibers) s (init-Inv fibers) e in (i.sane, i.once)

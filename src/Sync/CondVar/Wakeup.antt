-- ===== src/Sync/CondVar/Wakeup.antt =====
-- Who still waits behind NotifyAll has called Wait later.
use magic_core.Prelude.{
  ℕ, ◌+◌, ◌^◌, ◌≤◌, ◌<◌, ◌≡◌, refl, sym, ◌⊎◌, true, Bool-cases, ap, ◌∙◌, inl, inr, Option-cases,
  Option, none, some, List, [], ◌∷◌, ◌==◌, get_elem?, length, if◌then◌else◌, arith, subst,
}
use magic_core.Prelude.Occurs.{occurs, occurs-append}
use magic_core.Prelude.Totals.{get_elem?-set}
use magic_core.Intrusive.{ForwardList}
use magic_core.Sync.CondVar.{
  Place, outside, prepared, parked, resumed, waking, State, Call, wait, notify_one, notify_all,
  Event, acts, go, next_epoch, park_if_equal, wake_one, wake_all, resume_place, resume, wake,
  advance, step, run,
}

asleep_cases :
    {C : Type 0} (p : Option (Place C))
    → ((key : ℕ) × (p ≡ some (parked key)))
      ⊎ ((x : ℕ) (s : State C) → resume_place x p s ≡ record s { failed = true })
asleep_cases none = inr λ x s. refl
asleep_cases (some outside) = inr λ x s. refl
asleep_cases (some (prepared key)) = inr λ x s. refl
asleep_cases (some (parked key)) = inl (key, refl)
asleep_cases (some resumed) = inr λ x s. refl
asleep_cases (some (waking gs)) = inr λ x s. refl

module _ (lists : ForwardList ℕ) where
  open lists use {
    Carrier, empty, push_back, pop_front, to_list, to_list-empty, to_list-push_back,
    pop_front_cases,
  }

  -- Every fiber in the list of waiters has a key that is not below `k`.
  record Recent (k : ℕ) (s : State Carrier) : Type 0 where
    current : k ≤ s.epoch
    recent :
        (g key : ℕ)
        → get_elem? s.places g ≡ some (parked key)
        → 0 < occurs g (to_list s.waiters)
        → k ≤ key

  module _ (append : Carrier → Carrier → Carrier) (k : ℕ) where
    -- A fiber goes to a place where it does not sleep, and nobody is added to the waiters.
    leave-Recent :
        (f : ℕ) (p q : Place Carrier) (s : State Carrier) (waiters : Carrier) (epoch : ℕ)
        → get_elem? s.places f ≡ some p
        → ((key : ℕ) → some q ≡ some (parked key) → k ≤ key)
        → ((g : ℕ)
            → occurs g (to_list waiters) ≤ occurs g (to_list s.waiters) + (if g == f then 1 else 0))
        → s.epoch ≤ epoch
        → Recent k s
        → Recent k (record (go f q s) { waiters = waiters; epoch = epoch })
    leave-Recent f p q s waiters epoch found new fewer later r = record {
      current = omega (arith, r.current, later);
      recent = λ g key at_g inside. ground (
        arith,
        get_elem?-set s.places f p q found g,
        at_g,
        inside,
        fewer g,
        r.recent g key,
        new key,
      );
    }

    next_epoch_lem : (e : ℕ) → e + 1 < 2 ^ 64 → next_epoch e ≡ e + 1
    next_epoch_lem e b = omega (arith, b)

    park-Recent :
        (f key : ℕ) (s : State Carrier)
        → get_elem? s.places f ≡ some (prepared key)
        → Recent k s
        → Recent k (park_if_equal lists append f key s)
    unfolding park_if_equal
    park-Recent f key s found r =
        let later = λ (g : ℕ).
          ap (occurs g) (to_list-push_back s.waiters f)
          ∙ occurs-append g (to_list s.waiters) (f ∷ []) in
        let leaves =
          leave-Recent f (prepared key) resumed s s.waiters s.epoch found
            (λ e h. absurd (ground (arith, h))) (λ g. ground arith) (omega arith) r in
        elim (Bool-cases (s.epoch == key)) [
          | inl same ↦
              let parks =
                leave-Recent f (prepared key) (parked key) s (push_back s.waiters f) s.epoch found
                  (λ e h. ground (arith, h, same, r.current)) (λ g. ground (arith, later g))
                  (omega arith) r in
              ground (arith, same, parks)
          | inr other ↦ ground (arith, other, leaves)
        ]

    wake_one-Recent :
        (f : ℕ) (s : State Carrier)
        → get_elem? s.places f ≡ some outside
        → s.epoch + 1 < 2 ^ 64
        → Recent k s
        → Recent k (wake_one lists append f s)
    unfolding wake_one
    wake_one-Recent f s found small r =
        let up = next_epoch_lem s.epoch small in
        elim (pop_front_cases s.waiters) [
          | inl (nobody, popped) ↦
              let j =
                leave-Recent f outside (waking empty) s s.waiters (next_epoch s.epoch) found
                  (λ e h. absurd (ground (arith, h))) (λ g. ground arith) (omega (arith, up)) r in
              ground (arith, popped, j)
          | inr (x, rest, all, popped) ↦
              let first = λ (g : ℕ). ap (occurs g) all in
              let j =
                leave-Recent f outside (waking (push_back empty x)) s rest (next_epoch s.epoch)
                  found (λ e h. absurd (ground (arith, h))) (λ g. ground (arith, first g))
                  (omega (arith, up)) r in
              ground (arith, popped, j)
        ]

    resume-Recent : (x : ℕ) (s : State Carrier) → Recent k s → Recent k (resume x s)
    unfolding resume
    resume-Recent x s r = elim (asleep_cases (get_elem? s.places x)) [
      | inl (key, asleep) ↦
          let j =
            leave-Recent x (parked key) resumed s s.waiters s.epoch asleep
              (λ e h. absurd (ground (arith, h))) (λ g. ground arith) (omega arith) r in
          ground (arith, asleep, j)
      | inr awake ↦
          subst (Recent k) (sym (awake x s)) (record { current = r.current; recent = r.recent })
    ]

    wake-Recent :
        (f : ℕ) (gs : Carrier) (s : State Carrier)
        → get_elem? s.places f ≡ some (waking gs)
        → Recent k s
        → Recent k (wake lists append f gs s)
    unfolding wake
    wake-Recent f gs s found r = elim (pop_front_cases gs) [
      | inl (nobody, popped) ↦
          let j =
            leave-Recent f (waking gs) outside s s.waiters s.epoch found
              (λ e h. absurd (ground (arith, h))) (λ g. ground arith) (omega arith) r in
          ground (arith, popped, j)
      | inr (x, rest, all, popped) ↦
          let j =
            leave-Recent f (waking gs) (waking rest) s s.waiters s.epoch found
              (λ e h. absurd (ground (arith, h))) (λ g. ground arith) (omega arith) r in
          let j' = resume-Recent x (go f (waking rest) s) j in ground (arith, popped, j')
    ]

    -- The list of waiters is empty.
    wake_all-Recent :
        (f : ℕ) (s : State Carrier) → k ≤ next_epoch s.epoch → Recent k (wake_all lists append f s)
    unfolding wake_all
    wake_all-Recent f s b = record {
      current = b;
      recent = λ g key at_g inside. absurd (ground (arith, inside, ap (occurs g) to_list-empty));
    }

    advance-Recent :
        (f : ℕ) (call : Call) (p : Place Carrier) (s t : State Carrier)
        → get_elem? s.places f ≡ some p
        → s.epoch + 1 < 2 ^ 64
        → Recent k s
        → advance lists append f call p s ≡ some t
        → Recent k t
    unfolding advance
    advance-Recent f wait outside s t found b r e = subst (Recent k) (ground (arith, e)) (
        leave-Recent f outside (prepared s.epoch) s s.waiters s.epoch found
          (λ x h. absurd (ground (arith, h))) (λ g. ground arith) (omega arith) r)
    advance-Recent f notify_one outside s t found b r e =
        subst (Recent k) (ground (arith, e)) (wake_one-Recent f s found b r)
    advance-Recent f notify_all outside s t found b r e =
        subst (Recent k) (ground (arith, e))
          (wake_all-Recent f s (omega (arith, r.current, next_epoch_lem s.epoch b)))
    advance-Recent f call (prepared key) s t found b r e =
        subst (Recent k) (ground (arith, e)) (park-Recent f key s found r)
    advance-Recent f call (parked key) s t found b r e = absurd (ground (arith, e))
    advance-Recent f call resumed s t found b r e = subst (Recent k) (ground (arith, e)) (
        leave-Recent f resumed outside s s.waiters s.epoch found (λ x h. absurd (ground (arith, h)))
          (λ g. ground arith) (omega arith) r)
    advance-Recent f call (waking gs) s t found b r e =
        subst (Recent k) (ground (arith, e)) (wake-Recent f gs s found r)

    resume-epoch : (x : ℕ) (s : State Carrier) → (resume x s).epoch ≡ s.epoch
    unfolding resume
    resume-epoch x s = elim (asleep_cases (get_elem? s.places x)) [
      | inl (key, asleep) ↦ ground (arith, asleep)
      | inr awake ↦ ap (λ (t : State Carrier). t.epoch) (awake x s)
    ]

    advance-epoch :
        (f : ℕ) (call : Call) (p : Place Carrier) (s t : State Carrier)
        → advance lists append f call p s ≡ some t
        → t.epoch ≤ s.epoch + 1
    unfolding advance park_if_equal wake_one wake_all wake
    advance-epoch f wait outside s t e = ground (arith, e)
    advance-epoch f notify_one outside s t e = elim (pop_front_cases s.waiters) [
      | inl (nobody, popped) ↦ ground (arith, e, popped)
      | inr (x, rest, all, popped) ↦ ground (arith, e, popped)
    ]
    advance-epoch f notify_all outside s t e = ground (arith, e)
    advance-epoch f call (prepared key) s t e = ground (arith, e)
    advance-epoch f call (parked key) s t e = absurd (ground (arith, e))
    advance-epoch f call resumed s t e = ground (arith, e)
    advance-epoch f call (waking gs) s t e = elim (pop_front_cases gs) [
      | inl (nobody, popped) ↦ ground (arith, e, popped)
      | inr (x, rest, all, popped) ↦
          ground (arith, e, popped, resume-epoch x (go f (waking rest) s))
    ]

    run-Recent :
        (es : List Event) (s t : State Carrier)
        → s.epoch + length es < 2 ^ 64
        → Recent k s
        → run lists append es s ≡ some t
        → Recent k t
    unfolding run step
    run-Recent [] s t b r e = subst (Recent k) (ground (arith, e)) r
    run-Recent (acts f call ∷ es) s t b r e = elim (Option-cases (get_elem? s.places f)) [
      | inl out ↦ absurd (ground (arith, out))
      | inr (p, found) ↦ elim (Option-cases (advance lists append f call p s)) [
        | inl stuck ↦ absurd (ground (arith, found, stuck))
        | inr (u, moved) ↦
            let grown = advance-epoch f call p s u moved in
            run-Recent es u t (omega (arith, b, grown))
              (advance-Recent f call p s u found (omega (arith, b)) r moved)
              (ground (arith, e, found, moved))
      ]
    ]

  -- A fiber calls NotifyAll, and the epoch that it finds and the number of the actions that follow
  -- are together less than 2 ^ 64 - 1, so that the epoch does not wrap. Whoever is then in the list of
  -- waiters has a key above the epoch that the notification has found, which PrepareWait returns only
  -- behind it: nobody who called Wait before goes to sleep over the notification.
  pub condvar_wakeup :
      (append : Carrier → Carrier → Carrier) (f : ℕ) (es : List Event) (s u v : State Carrier)
      → get_elem? s.places f ≡ some outside
      → step lists append (acts f notify_all) s ≡ some u
      → run lists append es u ≡ some v
      → s.epoch + length es + 1 < 2 ^ 64
      → (g key : ℕ) → get_elem? v.places g ≡ some (parked key)
      → 0 < occurs g (to_list v.waiters)
      → s.epoch < key
  unfolding step advance wake_all
  condvar_wakeup append f es s u v found notified ran b g key asleep inside =
      let same : wake_all lists append f s ≡ u = ground (arith, found, notified) in
      let up = next_epoch_lem append s.epoch s.epoch (omega (arith, b)) in
      let current : u.epoch ≡ next_epoch s.epoch = ground (arith, found, notified) in
      let r =
        subst (Recent u.epoch) same (wake_all-Recent append u.epoch f s (omega (arith, current))) in
      let r' = run-Recent append u.epoch es u v (omega (arith, b, current, up)) r ran in
      omega (arith, current, up, r'.recent g key asleep inside)
